-- ===== src/Runtime/StreamBuffer/Closing.antt =====
-- What `pop` does on a closed buffer.
use cyrene_reactor.Prelude.{◌≡◌, ◌⊎◌, inl, inr, refl, Bool, List, [], ◌∷◌}
use cyrene_reactor.Runtime.StreamBuffer.{
  Buffer, returned, raised, drained, pop_queue, pop_pass, close,
}

module _ {A : Type 0} where
  -- A closed buffer still delivers its items, oldest first; only then does `pop` raise, and no
  -- `pop` on it ever waits.
  pub pop_closed :
      (b : Buffer A) (block expired : Bool)
      → ((b.queue ≡ []) × (pop_pass (close b) block expired ≡ (close b, raised drained)))
        ⊎ ((item : A) × (rest : List A) × (b.queue ≡ item ∷ rest)
            × ((pop_pass (close b) block expired).1 ≡ returned item)
            × ((pop_pass (close b) block expired).0.queue ≡ rest))
  unfolding pop_pass close
  pop_closed b block expired = split b.queue refl
    where
      split :
          (queue : List A)
          → b.queue ≡ queue
          → ((b.queue ≡ []) × (pop_pass (close b) block expired ≡ (close b, raised drained)))
            ⊎ ((item : A) × (rest : List A) × (b.queue ≡ item ∷ rest)
                × ((pop_pass (close b) block expired).1 ≡ returned item)
                × ((pop_pass (close b) block expired).0.queue ≡ rest))
      split [] e = inl (e, rw (e, pop_queue))
      split (item ∷ rest) e = inr (item, rest, e, rw (e, pop_queue), rw (e, pop_queue))
