-- ===== src/Runtime/StreamBuffer/Schedule.antt =====
-- Every interleaving of the calls on one buffer, as a list of the steps that took the lock.
use cyrene_reactor.Prelude.{
  ℕ, ◌+◌, ◌≤◌, ◌≡◌, refl, Bool, true, false, Option, List, [], ◌∷◌, ◌++◌, arith, length,
  length-append, length-drop, length-take, take, drop, take-append-drop,
}
use mathlib.Core.List.{append_assoc}
use cyrene_reactor.Runtime.StreamBuffer.{
  Buffer, Progress, returned, raised, waiting, fresh, push_pass, push, pop_queue, pop_pass, close,
  drain, drain_count,
}

-- `resume` is a blocked `push` that was woken: its test of `_closed` lies behind it.
pub data Step (A : Type 0) : Type 0 where
  enter resume : A → Bool → Bool → Step A
  take_one : Bool → Bool → Step A
  shut : Step A
  empty_out : Option ℕ → Step A

-- A buffer with the items that it has accepted and delivered so far, oldest first.
pub record Run (A : Type 0) : Type 0 where
  pub buffer : Buffer A
  pub accepted : List A
  pub delivered : List A

module _ {A : Type 0} where
  note_push : List A → A → Progress Bool → List A
  note_push xs item (returned true) = xs ++ item ∷ []
  note_push xs item (returned false) = xs
  note_push xs item (raised r) = xs
  note_push xs item waiting = xs

  note_pop : List A → Progress A → List A
  note_pop xs (returned item) = xs ++ item ∷ []
  note_pop xs (raised r) = xs
  note_pop xs waiting = xs

  after_push : Run A → A → Buffer A × Progress Bool → Run A
  unfolding note_push
  after_push r item (b, p) = record r { buffer = b; accepted = note_push r.accepted item p }

  after_pop : Run A → Buffer A × Progress A → Run A
  unfolding note_pop
  after_pop r (b, p) = record r { buffer = b; delivered = note_pop r.delivered p }

  unfoldable pub step : Run A → Step A → Run A
  unfolding after_push after_pop
  step r (enter item block expired) = after_push r item (push r.buffer item block expired)
  step r (resume item block expired) = after_push r item (push_pass r.buffer item block expired)
  step r (take_one block expired) = after_pop r (pop_pass r.buffer block expired)
  step r shut = record r { buffer = close r.buffer }
  step r (empty_out max_items) =
      let (b, items) = drain r.buffer max_items in
      record r { buffer = b; delivered = r.delivered ++ items }

  unfoldable pub run : Run A → List (Step A) → Run A
  run r [] = r
  run r (s ∷ ss) = run (step r s) ss

  unfoldable pub begin : ℕ → ℕ → ℕ → Run A
  begin max_size num den = record { buffer = fresh max_size num den; accepted = []; delivered = [] }

  -- What holds of a buffer at every moment.
  pub record IsSound (r : Run A) : Type 0 where
    pub bounded : length r.buffer.queue ≤ r.buffer.max_size
    pub balanced : r.buffer.pushed ≡ r.buffer.popped + length r.buffer.queue
    pub fifo : r.accepted ≡ r.delivered ++ r.buffer.queue
    pub counted : r.buffer.pushed ≡ length r.accepted

  push_pass-IsSound :
      (r : Run A) (item : A) (block expired : Bool)
      → IsSound r
      → IsSound (after_push r item (push_pass r.buffer item block expired))
  unfolding push_pass after_push
  push_pass-IsSound r item block expired v = ground (
    arith,
    length-append r.buffer.queue (item ∷ []),
    length-append r.accepted (item ∷ []),
    append_assoc r.delivered r.buffer.queue (item ∷ []),
  )

  push-IsSound :
      (r : Run A) (item : A) (block expired : Bool)
      → IsSound r
      → IsSound (after_push r item (push r.buffer item block expired))
  unfolding push after_push
  push-IsSound r item block expired v = ground (arith, push_pass-IsSound r item block expired v)

  pop_queue-IsSound :
      (queue : List A) (r : Run A) (block expired : Bool)
      → r.buffer.queue ≡ queue
      → IsSound r
      → IsSound (after_pop r (pop_queue queue r.buffer block expired))
  unfolding pop_queue after_pop
  pop_queue-IsSound [] r block expired e v = ground arith
  pop_queue-IsSound (item ∷ rest) r block expired e v =
      ground (arith, append_assoc r.delivered (item ∷ []) rest)

  drain-IsSound :
      (r : Run A) (max_items : Option ℕ) → IsSound r → IsSound (step r (empty_out max_items))
  unfolding step drain
  drain-IsSound r max_items v =
      let n = drain_count max_items (length r.buffer.queue) in
      ground (
        arith,
        length-drop n r.buffer.queue,
        length-take n r.buffer.queue,
        append_assoc r.delivered (take n r.buffer.queue) (drop n r.buffer.queue),
        take-append-drop n r.buffer.queue,
      )

  pub step-IsSound : (r : Run A) (s : Step A) → IsSound r → IsSound (step r s)
  unfolding step
  step-IsSound r (enter item block expired) v = push-IsSound r item block expired v
  step-IsSound r (resume item block expired) v = push_pass-IsSound r item block expired v
  step-IsSound r (take_one block expired) v =
      unfold pop_pass in pop_queue-IsSound r.buffer.queue r block expired refl v
  step-IsSound r shut v = unfold close in ground arith
  step-IsSound r (empty_out max_items) v = unfold step in drain-IsSound r max_items v

  begin-IsSound : (max_size num den : ℕ) → IsSound (begin max_size num den)
  unfolding begin fresh
  begin-IsSound max_size num den = ground arith

  run-IsSound : (r : Run A) (ss : List (Step A)) → IsSound r → IsSound (run r ss)
  unfolding run
  run-IsSound r [] v = v
  run-IsSound r (s ∷ ss) v = run-IsSound (step r s) ss (step-IsSound r s v)

  -- Under every interleaving of pushes, woken pushes, pops, drains and closes on a new buffer:
  -- the queue never exceeds `max_size`, `pushed` is `popped` plus the queue's length and counts
  -- the accepted items, and the accepted items are the delivered ones followed by the queue, in
  -- order: nothing is lost, repeated or overtaken.
  pub run-begin-IsSound :
      (max_size num den : ℕ) (ss : List (Step A)) → IsSound (run (begin max_size num den) ss)
  run-begin-IsSound max_size num den ss =
      run-IsSound (begin max_size num den) ss (begin-IsSound max_size num den)
