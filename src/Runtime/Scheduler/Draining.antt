-- ===== src/Runtime/Scheduler/Draining.antt =====
-- What the workers' clean-up leaves after the stop.
use cyrene_reactor.Prelude.Keys.{nat_eq, beq_refl, beq_other, ◌==◌}
use mathlib.Core.Path.{subst}
use cyrene_reactor.Prelude.{
  ◌∙◌, ◌+◌, ◌≤◌, refl, ◌<◌, map, inr, [], inl, ◌++◌, Bool-cases, All, false, true, ◌∷◌, arith, ◌≡◌,
  Bool, List, ℕ, ap, sym,
}
use cyrene_reactor.Runtime.Scheduler.{
  create, drain, take_task, shutdown, drain_task, finish, drain_entry, change, cancel, put,
  begin_submit, Scheduler, Entry, queued, done, drain_tasks, sequences,
}
use cyrene_reactor.Runtime.Scheduler.Soundness.{
  Event, submits, puts, cancels, takes, finishes, drains, shuts_down, step, run, is_settled,
  IsAccounted, run-IsAccounted,
}

-- The numbers rise, from above `low` on.
abbrev Rises : ℕ → List ℕ → Type 0
Rises low [] = Unit
Rises low (n ∷ ns) = (low < n) × Rises n ns

abbrev AreIssued : ℕ → List ℕ → Type 0
AreIssued last ns = Rises 0 ns × All (λ n. n ≤ last) ns

Rises-append :
    (low last : ℕ) (ns : List ℕ)
    → low ≤ last
    → Rises low ns
    → All (λ n. n ≤ last) ns
    → Rises low (ns ++ (last + 1) ∷ [])
Rises-append low last [] h v w = (omega (arith, h), tt)
Rises-append low last (n ∷ ns) h v w = (v.0, Rises-append n last ns w.0 v.1 w.1)

below-append :
    (last : ℕ) (ns : List ℕ)
    → All (λ n. n ≤ last) ns
    → All (λ n. n ≤ last + 1) (ns ++ (last + 1) ∷ [])
below-append last [] w = (omega arith, tt)
below-append last (n ∷ ns) w = (omega (arith, w.0), below-append last ns w.1)

sequences-append :
    (es : List Entry) (e : Entry) → sequences (es ++ e ∷ []) ≡ sequences es ++ e.task.sequence ∷ []
sequences-append [] e = refl
sequences-append (x ∷ es) e = ap (◌∷◌ x.task.sequence) (sequences-append es e)

change-hit :
    (f : Entry → Entry) (e : Entry) (es : List Entry) → change e.task.sequence f (e ∷ es) ≡ f e ∷ es
change-hit f e es = rw (beq_refl e.task.sequence) refl

change-miss :
    (sequence : ℕ) (f : Entry → Entry) (e : Entry) (es : List Entry)
    → (e.task.sequence == sequence) ≡ false
    → change sequence f (e ∷ es) ≡ e ∷ change sequence f es
change-miss sequence f e es miss = rw miss refl

-- A step of one task that keeps its sequence.
sequences-change :
    (sequence : ℕ) (f : Entry → Entry) (es : List Entry)
    → ((e : Entry) → (f e).task.sequence ≡ e.task.sequence)
    → sequences (change sequence f es) ≡ sequences es
sequences-change sequence f [] same = refl
sequences-change sequence f (e ∷ es) same = elim (Bool-cases (e.task.sequence == sequence)) [
  | inl hit ↦ rw hit (ap (λ (n : ℕ). n ∷ sequences es) (same e))
  | inr miss ↦ rw miss (ap (◌∷◌ e.task.sequence) (sequences-change sequence f es same))
]

-- The sequences of all tasks are different: they rise in the order of the submissions, up to the
-- scheduler's counter.
abbrev IsIssued : Scheduler → Type 0
IsIssued s = AreIssued s.sequence (sequences s.entries)

change-IsIssued :
    (last sequence : ℕ) (f : Entry → Entry) (es : List Entry)
    → ((e : Entry) → (f e).task.sequence ≡ e.task.sequence)
    → AreIssued last (sequences es)
    → AreIssued last (sequences (change sequence f es))
change-IsIssued last sequence f es same h =
    subst (AreIssued last) (sym (sequences-change sequence f es same)) h

step-IsIssued : (event : Event) (s : Scheduler) → IsIssued s → IsIssued (step event s)
unfolding step begin_submit put cancel take_task finish drain_task shutdown
step-IsIssued (submits priority now outcome) s h = elim (Bool-cases s.is_stopped) [
  | inl stopped ↦ rw stopped h
  | inr open_ ↦ rw open_ (
      subst (AreIssued (s.sequence + 1)) (sym (sequences-append s.entries _)) (
        Rises-append 0 s.sequence (sequences s.entries) (omega arith) h.0 h.1,
        below-append s.sequence (sequences s.entries) h.1,
      ))
]
step-IsIssued (puts sequence) s h =
    change-IsIssued s.sequence sequence _ s.entries (λ e. ground arith) h
step-IsIssued (cancels sequence) s h =
    change-IsIssued s.sequence sequence _ s.entries (λ e. ground arith) h
step-IsIssued (takes sequence) s h =
    change-IsIssued s.sequence sequence _ s.entries (λ e. ground arith) h
step-IsIssued (finishes sequence) s h =
    change-IsIssued s.sequence sequence _ s.entries (λ e. ground arith) h
step-IsIssued (drains sequence) s h = elim (Bool-cases s.is_stopped) [
  | inl stopped ↦ rw stopped (change-IsIssued s.sequence sequence _ s.entries (λ e. ground arith) h)
  | inr open_ ↦ rw open_ h
]
step-IsIssued shuts_down s h = h

run-IsIssued : (events : List Event) (s : Scheduler) → IsIssued s → IsIssued (run events s)
unfolding run
run-IsIssued [] s h = h
run-IsIssued (e ∷ es) s h = run-IsIssued es (step e s) (step-IsIssued e s h)

-- The rounds after the stop, on the tasks.
abbrev change_all : List ℕ → List Entry → List Entry
change_all [] es = es
change_all (n ∷ ns) es = change_all ns (change n drain_entry es)

drain_tasks-entries :
    (ns : List ℕ) (s : Scheduler)
    → s.is_stopped ≡ true
    → (drain_tasks ns s).entries ≡ change_all ns s.entries
unfolding drain_tasks drain_task
drain_tasks-entries [] s stopped = refl
drain_tasks-entries (n ∷ ns) s stopped =
    let round : drain_task n s ≡ record s { entries = change n drain_entry s.entries } =
      rw stopped refl in
    ap (λ (x : Scheduler). (drain_tasks ns x).entries) round
    ∙ drain_tasks-entries ns (record s { entries = change n drain_entry s.entries }) stopped

drain_entry-sequence : (e : Entry) → (drain_entry e).task.sequence ≡ e.task.sequence
drain_entry-sequence e = ground arith

change_all-skip :
    (low : ℕ) (ns : List ℕ) (e : Entry) (es : List Entry)
    → e.task.sequence ≤ low
    → Rises low ns
    → change_all ns (e ∷ es) ≡ e ∷ change_all ns es
change_all-skip low [] e es h v = refl
change_all-skip low (n ∷ ns) e es h v =
    ap (change_all ns)
      (change-miss n drain_entry e es (beq_other e.task.sequence n (omega (arith, h, v.0))))
    ∙ change_all-skip n ns e (change n drain_entry es) (omega (arith, h, v.0)) v.1

change_all-map :
    (low : ℕ) (es : List Entry)
    → Rises low (sequences es)
    → change_all (sequences es) es ≡ map drain_entry es
change_all-map low [] v = refl
change_all-map low (e ∷ es) v =
    ap (change_all (sequences es)) (change-hit drain_entry e es)
    ∙ change_all-skip e.task.sequence (sequences es) (drain_entry e) es
        (omega (arith, drain_entry-sequence e)) v.1
    ∙ ap (◌∷◌ (drain_entry e)) (change_all-map e.task.sequence es v.1)

-- The end of a task that is neither on its way in nor with a worker.
abbrev pub is_concluded : Entry → Bool
is_concluded e = elim e.place [ queued ↦ false | done ↦ is_settled e.future | _ ↦ true ]

drain-concluded :
    (es : List Entry) → IsAccounted es → All (λ e. is_concluded e ≡ true) (map drain_entry es)
drain-concluded [] h = tt
drain-concluded (e ∷ es) h = (ground (arith, h.0), drain-concluded es h.1)

-- Whatever the interleaving was: after a stop and the rounds of the clean-up, which no other thread
-- disturbs, nothing is queued any more, and every task that is done has a settled future (a result,
-- an exception or a cancellation).
pub run-drain-concluded :
    (size : ℕ) (events : List Event)
    → All (λ e. is_concluded e ≡ true) (drain (shutdown (run events (create size)))).entries
unfolding drain shutdown
run-drain-concluded size events =
    let s = run events (create size) in
    let issued = run-IsIssued events (create size) (tt, tt) in
    let rounds =
      drain_tasks-entries (sequences s.entries) (shutdown s) refl
      ∙ change_all-map 0 s.entries issued.0 in
    subst (All (λ e. is_concluded e ≡ true)) (sym rounds)
      (drain-concluded s.entries (run-IsAccounted events (create size) tt))
