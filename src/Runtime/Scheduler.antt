-- ===== src/Runtime/Scheduler.antt =====
-- runtime/core/src/cy_exec/core/task_scheduler.py, class `TaskScheduler`, under every interleaving of
-- its callers and workers.
--
-- A submitted task is one entry, with the place that it has reached and the state of its future; the
-- priority queue is the entries that are queued. Each function is what one thread does in one step:
-- `submit` is its test of the stop flag (`begin_submit`) and its `put` (`put`, at the moment when it
-- finds room or its timeout ends); a worker's round is `take_task` and `finish`, a round of its
-- clean-up `drain_task`. A `get` that finds the queue emptied by another worker waits, and is no step.
-- A priority is a number. What the callable does is part of its task.
pub mod Soundness
pub mod Draining
mod Examples
use cyrene_reactor.Prelude.Keys.{nat_eq, ◌==◌}
use cyrene_reactor.Prelude.{
  ◌++◌, some, none, not, ◌||◌, ◌+◌, [], ◌&&◌, Option, ltb, ◌∷◌, false, true, map, if◌then◌else◌,
  List, Bool, ℕ,
}

pub data Error : Type 0 where
  raised : ℕ → Error
  stopped_before_execution : Error

pub data Future : Type 0 where
  pending running cancelled : Future
  result : ℕ → Future
  exception : Error → Future

pub data Outcome : Type 0 where
  returns raises : ℕ → Outcome

pub data Place : Type 0 where
  entering queued held done refused : Place

pub record ScheduledTask : Type 0 where
  pub priority : ℕ
  pub created_at : ℕ
  pub sequence : ℕ
  pub outcome : Outcome

pub record Entry : Type 0 where
  pub task : ScheduledTask
  pub place : Place
  pub future : Future

pub record Scheduler : Type 0 where
  pub queue_size : ℕ
  pub sequence : ℕ
  pub is_stopped : Bool
  pub entries : List Entry

-- `__init__`
abbrev pub create : ℕ → Scheduler
create size = record { queue_size = size; sequence = 0; is_stopped = false; entries = [] }

abbrev pub is_queued : Place → Bool
is_queued queued = true
is_queued _ = false

-- `self._queue.qsize()`
abbrev pub queue_length : List Entry → ℕ
queue_length [] = 0
queue_length (e ∷ es) = (if is_queued e.place then 1 else 0) + queue_length es

-- The order of `ScheduledTask`: the fields that are compared.
abbrev pub is_before : ScheduledTask → ScheduledTask → Bool
is_before a b =
    ltb a.priority b.priority || (a.priority == b.priority && ltb a.created_at b.created_at)

abbrev is_first : ScheduledTask → List Entry → Bool
is_first task [] = true
is_first task (e ∷ es) = not (is_queued e.place && is_before e.task task) && is_first task es

-- The step of one task.
abbrev pub change : ℕ → (Entry → Entry) → List Entry → List Entry
change sequence step [] = []
change sequence step (e ∷ es) =
    let rest = change sequence step es in
    if e.task.sequence == sequence then step e ∷ es else e ∷ rest

-- The first step of `submit`, which raises after the stop; `none` is that `RuntimeError`.
unfoldable pub begin_submit : ℕ → ℕ → Outcome → Scheduler → Option ℕ × Scheduler
begin_submit priority now outcome s = if s.is_stopped then (none, s) else (
  some (s.sequence + 1),
  record s {
    sequence = s.sequence + 1;
    entries =
        s.entries
        ++ record {
          task = record {
            priority = priority;
            created_at = now;
            sequence = s.sequence + 1;
            outcome = outcome;
          };
          place = entering;
          future = pending;
        }
          ∷ [];
  },
)

abbrev pub put_entry : Bool → Entry → Entry
put_entry has_room e = elim e.place [
  | entering ↦ record e { place = if has_room then queued else refused }
  | _ ↦ e
]

-- Whether the queue takes another task; a size of 0 is no bound.
abbrev pub has_room : Scheduler → Bool
has_room s = s.queue_size == 0 || ltb (queue_length s.entries) s.queue_size

-- `put`, or the `SchedulerBusy` of a queue that is still full.
unfoldable pub put : ℕ → Scheduler → Scheduler
put sequence s = record s { entries = change sequence (put_entry (has_room s)) s.entries }

abbrev pub cancel_entry : Entry → Entry
cancel_entry e = elim e.future [ pending ↦ record e { future = cancelled } | _ ↦ e ]

-- `Future.cancel`, called by whoever holds the future.
unfoldable pub cancel : ℕ → Scheduler → Scheduler
cancel sequence s = record s { entries = change sequence cancel_entry s.entries }

-- `get` and `set_running_or_notify_cancel`
abbrev pub take_entry : List Entry → Entry → Entry
take_entry entries e =
    if is_queued e.place && is_first e.task entries
    then elim e.future [
      | pending ↦ record e { place = held; future = running }
      | _ ↦ record e { place = done }
    ]
    else e

unfoldable pub take_task : ℕ → Scheduler → Scheduler
take_task sequence s = record s { entries = change sequence (take_entry s.entries) s.entries }

abbrev settle : Outcome → Future
settle (returns value) = result value
settle (raises error) = exception (raised error)

abbrev pub finish_entry : Entry → Entry
finish_entry e = elim e.place [
  | held ↦ record e { place = done; future = settle e.task.outcome }
  | _ ↦ e
]

-- `set_result` or `set_exception`
unfoldable pub finish : ℕ → Scheduler → Scheduler
finish sequence s = record s { entries = change sequence finish_entry s.entries }

abbrev pub drain_entry : Entry → Entry
drain_entry e =
    if is_queued e.place
    then elim e.future [
      | pending ↦ record e { place = done; future = exception stopped_before_execution }
      | _ ↦ record e { place = done }
    ]
    else e

-- One round of a worker's clean-up.
unfoldable pub drain_task : ℕ → Scheduler → Scheduler
drain_task sequence s =
    if s.is_stopped then record s { entries = change sequence drain_entry s.entries } else s

-- The rounds of the workers' clean-up for these tasks, each by whichever worker got it.
pub drain_tasks : List ℕ → Scheduler → Scheduler
drain_tasks [] s = s
drain_tasks (sequence ∷ rest) s = drain_tasks rest (drain_task sequence s)

abbrev pub sequences : List Entry → List ℕ
sequences [] = []
sequences (e ∷ es) = e.task.sequence ∷ sequences es

-- The clean-up run to its end, while nobody puts another task. A round leaves a task that is not
-- queued as it is, and changes no other task, so that the order of the rounds does not matter: it is
-- that of the submissions here, and the queue's order in the code.
unfoldable pub drain : Scheduler → Scheduler
unfolding drain_tasks
drain s = drain_tasks (sequences s.entries) s

-- `shutdown`, which then waits for the workers, with a timeout, or not at all.
unfoldable pub shutdown : Scheduler → Scheduler
shutdown s = record s { is_stopped = true }
