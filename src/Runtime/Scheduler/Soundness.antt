-- ===== src/Runtime/Scheduler/Soundness.antt =====
-- What every interleaving keeps: the place of a task fits the state of its future, and the queue
-- stays within its bound.
use cyrene_reactor.Prelude.{
  ◌∙◌, ◌+◌, ◌≤◌, refl, ◌<◌, inr, [], inl, ◌++◌, Bool-cases, All, false, true, ◌∷◌, arith, ◌≡◌, Bool,
  List, ℕ,
}
use cyrene_reactor.Runtime.Scheduler.{
  put_entry, has_room, finish_entry, create, cancel_entry, is_queued, queue_length, take_task,
  shutdown, drain_task, finish, drain_entry, take_entry, change, cancel, put, Outcome, Bool, List,
  begin_submit, ℕ, Scheduler, Entry, Future, entering, held, done, pending, running, cancelled,
}

pub data Event : Type 0 where
  submits : ℕ → ℕ → Outcome → Event
  puts cancels takes finishes drains : ℕ → Event
  shuts_down : Event

unfoldable pub step : Event → Scheduler → Scheduler
unfolding begin_submit put cancel take_task finish drain_task shutdown
step (submits priority now outcome) s = (begin_submit priority now outcome s).1
step (puts sequence) s = put sequence s
step (cancels sequence) s = cancel sequence s
step (takes sequence) s = take_task sequence s
step (finishes sequence) s = finish sequence s
step (drains sequence) s = drain_task sequence s
step shuts_down s = shutdown s

unfoldable pub run : List Event → Scheduler → Scheduler
unfolding step
run [] s = s
run (e ∷ es) s = run es (step e s)

abbrev is_waiting : Future → Bool
is_waiting pending = true
is_waiting cancelled = true
is_waiting _ = false

abbrev pub is_settled : Future → Bool
is_settled pending = false
is_settled running = false
is_settled _ = true

abbrev is_running : Future → Bool
is_running running = true
is_running _ = false

-- The future of a task that is on its way waits or is cancelled, that of a worker's runs, and that of
-- a task that is done is settled.
abbrev pub is_accounted : Entry → Bool
is_accounted e = elim e.place [
  | held ↦ is_running e.future
  | done ↦ is_settled e.future
  | _ ↦ is_waiting e.future
]

abbrev pub IsAccounted : List Entry → Type 0
IsAccounted = All (λ e. is_accounted e ≡ true)

change-IsAccounted :
    (sequence : ℕ) (f : Entry → Entry) (es : List Entry)
    → ((e : Entry) → is_accounted e ≡ true → is_accounted (f e) ≡ true)
    → IsAccounted es
    → IsAccounted (change sequence f es)
change-IsAccounted sequence f [] fine h = tt
change-IsAccounted sequence f (e ∷ es) fine h =
    ground (arith, change-IsAccounted sequence f es fine h.1, fine e h.0)

append-IsAccounted :
    (es : List Entry) (e : Entry)
    → IsAccounted es
    → is_accounted e ≡ true
    → IsAccounted (es ++ e ∷ [])
append-IsAccounted [] e h new = (new, tt)
append-IsAccounted (x ∷ es) e h new = (h.0, append-IsAccounted es e h.1 new)

take-accounted :
    (entries : List Entry) (e : Entry)
    → is_accounted e ≡ true
    → is_accounted (take_entry entries e) ≡ true
take-accounted entries e h = ground (arith, h)

drain-accounted : (e : Entry) → is_accounted e ≡ true → is_accounted (drain_entry e) ≡ true
drain-accounted e h = ground (arith, h)

step-IsAccounted :
    (event : Event) (s : Scheduler) → IsAccounted s.entries → IsAccounted (step event s).entries
unfolding step
step-IsAccounted (submits priority now outcome) s h = elim (Bool-cases s.is_stopped) [
  | inl stopped ↦ rw stopped h
  | inr open_ ↦ rw open_ (append-IsAccounted s.entries _ h refl)
]
step-IsAccounted (puts sequence) s h =
    change-IsAccounted sequence _ s.entries (λ e fine. ground (arith, fine)) h
step-IsAccounted (cancels sequence) s h =
    change-IsAccounted sequence _ s.entries (λ e fine. ground (arith, fine)) h
step-IsAccounted (takes sequence) s h =
    change-IsAccounted sequence _ s.entries (take-accounted s.entries) h
step-IsAccounted (finishes sequence) s h =
    change-IsAccounted sequence _ s.entries (λ e fine. ground (arith, fine)) h
step-IsAccounted (drains sequence) s h = elim (Bool-cases s.is_stopped) [
  | inl stopped ↦ rw stopped (change-IsAccounted sequence drain_entry s.entries drain-accounted h)
  | inr open_ ↦ rw open_ h
]
step-IsAccounted shuts_down s h = h

pub run-IsAccounted :
    (es : List Event) (s : Scheduler) → IsAccounted s.entries → IsAccounted (run es s).entries
unfolding run
run-IsAccounted [] s h = h
run-IsAccounted (e ∷ es) s h = run-IsAccounted es (step e s) (step-IsAccounted e s h)

queue_length-change :
    (sequence : ℕ) (f : Entry → Entry) (es : List Entry)
    → queue_length (change sequence f es) ≤ queue_length es + 1
queue_length-change sequence f [] = omega arith
queue_length-change sequence f (e ∷ es) = ground (arith, queue_length-change sequence f es)

queue_length-leaves :
    (sequence : ℕ) (f : Entry → Entry) (es : List Entry)
    → ((e : Entry) → is_queued (f e).place ≡ true → is_queued e.place ≡ true)
    → queue_length (change sequence f es) ≤ queue_length es
queue_length-leaves sequence f [] leaves = omega arith
queue_length-leaves sequence f (e ∷ es) leaves =
    ground (arith, queue_length-leaves sequence f es leaves, leaves e)

queue_length-append :
    (es : List Entry) (e : Entry)
    → is_queued e.place ≡ false
    → queue_length (es ++ e ∷ []) ≡ queue_length es
queue_length-append [] e out = ground (arith, out)
queue_length-append (x ∷ es) e out = omega (arith, queue_length-append es e out)

abbrev IsBounded : Scheduler → Type 0
IsBounded s = (0 < s.queue_size) × (queue_length s.entries ≤ s.queue_size)

roomy :
    (s : Scheduler) → 0 < s.queue_size → has_room s ≡ true → queue_length s.entries < s.queue_size
roomy s bounded room = ground (arith, bounded, room)

step-IsBounded : (event : Event) (s : Scheduler) → IsBounded s → IsBounded (step event s)
unfolding step
step-IsBounded (submits priority now outcome) s h = elim (Bool-cases s.is_stopped) [
  | inl stopped ↦ rw stopped h
  | inr open_ ↦ rw open_ (
    h.0,
    omega (
      arith,
      h.1,
      queue_length-append s.entries
          (record {
            task = record {
              priority = priority;
              created_at = now;
              sequence = s.sequence + 1;
              outcome = outcome;
            };
            place = entering;
            future = pending;
          })
          refl,
    ),
  )
]
step-IsBounded (puts sequence) s h = elim (Bool-cases (has_room s)) [
  | inl room ↦ rw room (
    h.0,
    omega (arith, roomy s h.0 room, queue_length-change sequence (put_entry true) s.entries),
  )
  | inr full ↦ rw full (
    h.0,
    omega (
      arith,
      h.1,
      queue_length-leaves sequence (put_entry false) s.entries (λ e q. ground (arith, q)),
    ),
  )
]
step-IsBounded (cancels sequence) s h = (
  h.0,
  omega
      (arith, h.1, queue_length-leaves sequence cancel_entry s.entries (λ e q. ground (arith, q))),
)
step-IsBounded (takes sequence) s h = (
  h.0,
  omega (
    arith,
    h.1,
    queue_length-leaves sequence (take_entry s.entries) s.entries (λ e q. ground (arith, q)),
  ),
)
step-IsBounded (finishes sequence) s h = (
  h.0,
  omega
      (arith, h.1, queue_length-leaves sequence finish_entry s.entries (λ e q. ground (arith, q))),
)
step-IsBounded (drains sequence) s h = elim (Bool-cases s.is_stopped) [
  | inl stopped ↦ rw stopped (
    h.0,
    omega
        (arith, h.1, queue_length-leaves sequence drain_entry s.entries (λ e q. ground (arith, q))),
  )
  | inr open_ ↦ rw open_ h
]
step-IsBounded shuts_down s h = h

run-IsBounded : (events : List Event) (s : Scheduler) → IsBounded s → IsBounded (run events s)
unfolding run
run-IsBounded [] s h = h
run-IsBounded (e ∷ es) s h = run-IsBounded es (step e s) (step-IsBounded e s h)

same_size : (e : Event) (s : Scheduler) → (step e s).queue_size ≡ s.queue_size
unfolding step
same_size (submits priority now outcome) s = ground arith
same_size (puts sequence) s = refl
same_size (cancels sequence) s = refl
same_size (takes sequence) s = refl
same_size (finishes sequence) s = refl
same_size (drains sequence) s = ground arith
same_size shuts_down s = refl

run-queue_size : (events : List Event) (s : Scheduler) → (run events s).queue_size ≡ s.queue_size
unfolding run
run-queue_size [] s = refl
run-queue_size (e ∷ es) s = run-queue_size es (step e s) ∙ same_size e s

-- Under every interleaving the queue of a scheduler with a bound never holds more tasks than it.
pub run-queue_bounded :
    (size : ℕ) (events : List Event)
    → 0 < size
    → queue_length (run events (create size)).entries ≤ size
run-queue_bounded size events bounded =
    let (_, within) = run-IsBounded events (create size) (bounded, omega arith) in
    omega (arith, within, run-queue_size events (create size))
