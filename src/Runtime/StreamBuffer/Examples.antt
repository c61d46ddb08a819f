-- ===== src/Runtime/StreamBuffer/Examples.antt =====
-- Runs of the buffer, and its theorems at concrete inputs.
use cyrene_reactor.Prelude.{ℕ, ◌≡◌, ◌⊎◌, refl, true, false, none, some, List, [], ◌∷◌, ◌++◌, length}
use cyrene_reactor.Runtime.StreamBuffer.{
  Buffer, returned, raised, drained, fresh, push_pass, push, pop_pass, close,
}
use cyrene_reactor.Runtime.StreamBuffer.Schedule.{
  Step, step, enter, resume, take_one, shut, IsSound, run, begin, run-begin-IsSound,
}
use cyrene_reactor.Runtime.StreamBuffer.Closing.{pop_closed}
use cyrene_reactor.Runtime.StreamBuffer.Text.{write_all, join, read, size, read-write_all}

-- A full buffer of one place: the second push waits, the buffer is closed, a pop makes room, and
-- the woken push goes through.
abbrev late_push : List (Step ℕ)
late_push =
    enter 7 true false ∷ enter 8 true false ∷ shut ∷ take_one true false ∷ resume 8 true false ∷ []

late_push_accepted : (run (begin 1 4 5) late_push).accepted ≡ 7 ∷ 8 ∷ []
unfolding run step begin fresh push pop_pass close push_pass
late_push_accepted = refl

run-begin-IsSound_example : IsSound (run (begin 1 4 5) late_push)
run-begin-IsSound_example = run-begin-IsSound 1 4 5 late_push

abbrev half_full : Buffer ℕ
half_full = record {
  queue = 7 ∷ [];
  max_size = 2;
  warn_num = 4;
  warn_den = 5;
  closed = false;
  pushed = 1;
  popped = 0;
  dropped = 0;
}

pop_closed_example :
    ((half_full.queue ≡ [])
      × (pop_pass (close half_full) true false ≡ (close half_full, raised drained)))
    ⊎ ((item : ℕ) × (rest : List ℕ) × (half_full.queue ≡ item ∷ rest)
        × ((pop_pass (close half_full) true false).1 ≡ returned item)
        × ((pop_pass (close half_full) true false).0.queue ≡ rest))
pop_closed_example = pop_closed half_full true false

read-write_all_example :
    (read (write_all ((1 ∷ []) ∷ []) ((2 ∷ 3 ∷ []) ∷ []))
      ≡ ([], some (join ((1 ∷ []) ∷ []) ++ join ((2 ∷ 3 ∷ []) ∷ []))))
    × (size (write_all ((1 ∷ []) ∷ []) ((2 ∷ 3 ∷ []) ∷ []))
        ≡ length (join ((1 ∷ []) ∷ []) ++ join ((2 ∷ 3 ∷ []) ∷ [])))
    × (read (read (write_all ((1 ∷ []) ∷ []) ((2 ∷ 3 ∷ []) ∷ []))).0 ≡ ([], none))
read-write_all_example = read-write_all ((1 ∷ []) ∷ []) (2 ∷ 3 ∷ []) []
