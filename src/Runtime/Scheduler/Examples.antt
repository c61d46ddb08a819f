-- ===== src/Runtime/Scheduler/Examples.antt =====
-- Two tasks on a queue of one, a cancelled future, and a submission that a stop overtakes.
use cyrene_reactor.Prelude.{[], ◌∷◌, arith, true, refl, ◌≤◌, ◌≡◌, List, All}
use cyrene_reactor.Runtime.Scheduler.{
  cancelled, raises, returns, pending, result, create, drain, shutdown, queue_length, Future, map,
}
use cyrene_reactor.Runtime.Scheduler.Soundness.{
  finishes, cancels, takes, drains, puts, shuts_down, submits, Event, run, run-queue_bounded,
}
use cyrene_reactor.Runtime.Scheduler.Draining.{is_concluded, run-drain-concluded}

abbrev events : List Event
events =
    submits 1 10 (returns 5)
    ∷ submits 0 11 (raises 3)
    ∷ puts 1
    ∷ puts 2
    ∷ takes 1
    ∷ submits 2 12 (returns 6)
    ∷ puts 3
    ∷ cancels 3
    ∷ finishes 1
    ∷ []

-- The second task found no room.
abbrev futures : List Future
futures = result 5 ∷ pending ∷ cancelled ∷ []

events_settle : map (λ e. e.future) (drain (shutdown (run events (create 1)))).entries ≡ futures
unfolding run drain
events_settle = refl

run-drain-concluded_example :
    All (λ e. is_concluded e ≡ true) (drain (shutdown (run events (create 1)))).entries
run-drain-concluded_example = run-drain-concluded 1 events

run-queue_bounded_example : queue_length (run events (create 1)).entries ≤ 1
run-queue_bounded_example = run-queue_bounded 1 events (omega arith)

-- A submission that tested the stop flag before the stop and puts its task after the clean-up: its
-- future stays pending, and no worker is left to take it.
abbrev overtaken : List Event
overtaken = submits 0 1 (returns 5) ∷ shuts_down ∷ drains 1 ∷ puts 1 ∷ []

overtaken_is_lost : map (λ e. e.future) (run overtaken (create 4)).entries ≡ pending ∷ []
unfolding run
overtaken_is_lost = refl
