-- ===== src/Runtime/Telemetry/Percentiles.antt =====
-- The percentiles of a snapshot: within the latencies that it has, and in their order.
use native.Mathlib.Decide.{dec_lt}
use cyrene_reactor.Prelude.{
  Bool-cases, inl, inr, leb, leb→le, leb_false→lt, ◌%◌, min, ◌/◌, ◌-◌, zero, ◌+◌, suc, [], ◌*◌,
  arith, ◌≡◌, ◌∷◌, ◌<◌, length, All, ◌≤◌, List, ℕ,
}
use native.Mathlib.Nat.{mul-le-mul_left, mul-le-mul_right}
use cyrene_reactor.Runtime.Telemetry.{
  List, ℕ, Telemetry, snapshot, percentile, sorted, insert, item,
}

abbrev pub IsWithin : ℕ → ℕ → ℕ → Type 0
IsWithin low high x = (low ≤ x) × (x ≤ high)

insert-IsWithin :
    (low high x : ℕ) (xs : List ℕ)
    → IsWithin low high x
    → All (IsWithin low high) xs
    → All (IsWithin low high) (insert x xs)
unfolding insert
insert-IsWithin low high x [] h hs = (h, tt)
insert-IsWithin low high x (y ∷ ys) h hs = ground (arith, insert-IsWithin low high x ys h)

sorted-IsWithin :
    (low high : ℕ) (xs : List ℕ) → All (IsWithin low high) xs → All (IsWithin low high) (sorted xs)
unfolding sorted
sorted-IsWithin low high [] hs = tt
sorted-IsWithin low high (x ∷ xs) hs =
    insert-IsWithin low high x (sorted xs) hs.0 (sorted-IsWithin low high xs hs.1)

item-IsWithin :
    (low high : ℕ) (xs : List ℕ) (i : ℕ)
    → All (IsWithin low high) xs
    → i < length xs
    → IsWithin low high (item xs i)
unfolding item
item-IsWithin low high [] i hs inside = omega (arith, inside)
item-IsWithin low high (x ∷ xs) zero hs inside = hs.0
item-IsWithin low high (x ∷ xs) (suc i) hs inside =
    item-IsWithin low high xs i hs.1 (omega (arith, inside))

-- A step from `a` towards `b` of less than a hundred hundredths.
between_items :
    (low high a b r : ℕ)
    → IsWithin low high a
    → IsWithin low high b
    → r < 100
    → IsWithin (100 * low) (100 * high) (100 * a + r * (b - a))
between_items low high a b r ha hb small =
    let step : r * (b - a) ≤ 100 * (b - a) = mul-le-mul_right (b - a) (omega (arith, small)) in
    (omega (arith, ha.0, step), omega (arith, ha.1, hb.1, step))

percentile-IsWithin :
    (low high : ℕ) (xs : List ℕ) (p : ℕ)
    → All (IsWithin low high) xs
    → 1 ≤ length xs
    → p ≤ 100
    → IsWithin (100 * low) (100 * high) (percentile xs p)
unfolding percentile
percentile-IsWithin low high [] p hs some_item whole = omega (arith, some_item)
percentile-IsWithin low high (x ∷ xs) p hs some_item whole =
    let position : length xs * p ≤ length xs * 100 = mul-le-mul_left (length xs) whole in
    let lower = (length xs * p) / 100 in
    let upper = min (lower + 1) (length xs) in
    between_items low high (item (x ∷ xs) lower) (item (x ∷ xs) upper) ((length xs * p) % 100)
      (item-IsWithin low high (x ∷ xs) lower hs (omega (arith, position)))
      (item-IsWithin low high (x ∷ xs) upper hs (omega arith)) (omega arith)

-- No item is below the one before it, and none below `low`.
abbrev Rises : ℕ → List ℕ → Type 0
Rises low [] = Unit
Rises low (x ∷ xs) = (low ≤ x) × Rises x xs

insert-Rises : (low x : ℕ) (xs : List ℕ) → low ≤ x → Rises low xs → Rises low (insert x xs)
unfolding insert
insert-Rises low x [] h hs = (h, tt)
insert-Rises low x (y ∷ ys) h hs = elim (Bool-cases (leb x y)) [
  | inl e ↦ rw e (h, (leb→le x y e, hs.1))
  | inr e ↦ rw e (hs.0, insert-Rises y x ys (omega (arith, leb_false→lt x y e)) hs.1)
]

sorted-Rises : (xs : List ℕ) → Rises 0 (sorted xs)
unfolding sorted
sorted-Rises [] = tt
sorted-Rises (x ∷ xs) = insert-Rises 0 x (sorted xs) (omega arith) (sorted-Rises xs)

item-Rises : (low : ℕ) (xs : List ℕ) (i : ℕ) → Rises low xs → i < length xs → low ≤ item xs i
unfolding item
item-Rises low [] i hs inside = omega (arith, inside)
item-Rises low (x ∷ xs) zero hs inside = hs.0
item-Rises low (x ∷ xs) (suc i) hs inside =
    omega (arith, hs.0, item-Rises x xs i hs.1 (omega (arith, inside)))

items-Rise :
    (low : ℕ) (xs : List ℕ) (i j : ℕ) → Rises low xs → i ≤ j → j < length xs → item xs i ≤ item xs j
unfolding item
items-Rise low [] i j hs before inside = omega (arith, inside)
items-Rise low (x ∷ xs) zero zero hs before inside = omega arith
items-Rise low (x ∷ xs) zero (suc j) hs before inside =
    item-Rises x xs j hs.1 (omega (arith, inside))
items-Rise low (x ∷ xs) (suc i) zero hs before inside = omega (arith, before)
items-Rise low (x ∷ xs) (suc i) (suc j) hs before inside =
    items-Rise x xs i j hs.1 (omega (arith, before)) (omega (arith, inside))

-- Between the items of a list that rises, a later position has no lower value.
positions-Rise :
    (xs : List ℕ) (last a b : ℕ)
    → Rises 0 xs
    → length xs ≡ suc last
    → a ≤ b
    → b ≤ last * 100
    → 100 * item xs (a / 100) + (a % 100) * (item xs (min (a / 100 + 1) last) - item xs (a / 100))
      ≤ 100 * item xs (b / 100) + (b % 100) * (item xs (min (b / 100 + 1) last) - item xs (b / 100))
positions-Rise xs last a b hs size before inside = elim (dec_lt (a / 100) (b / 100)) [
  | yes earlier ↦
      let upper = min (a / 100 + 1) last in
      let step : (a % 100) * (item xs upper - item xs (a / 100))
          ≤ 100 * (item xs upper - item xs (a / 100)) =
        mul-le-mul_right (item xs upper - item xs (a / 100)) (omega arith) in
      let near =
        items-Rise 0 xs (a / 100) upper hs (omega (arith, before, inside)) (omega (arith, size)) in
      let far =
        items-Rise 0 xs upper (b / 100) hs (omega (arith, earlier)) (omega (arith, size, inside)) in
      omega (arith, step, near, far)
  | no later ↦
      let same : a / 100 ≡ b / 100 = omega (arith, before, later) in
      let small : a % 100 ≤ b % 100 = omega (arith, before, same) in
      rw same (
        omega
          (arith, mul-le-mul_right (item xs (min (b / 100 + 1) last) - item xs (b / 100)) small))
]

percentile-Rises :
    (xs : List ℕ) (p q : ℕ) → Rises 0 xs → p ≤ q → q ≤ 100 → percentile xs p ≤ percentile xs q
unfolding percentile
percentile-Rises [] p q hs before whole = omega arith
percentile-Rises (x ∷ xs) p q hs before whole =
    positions-Rise (x ∷ xs) (length xs) (length xs * p) (length xs * q) hs (omega arith)
      (mul-le-mul_left (length xs) before) (mul-le-mul_left (length xs) whole)

length-insert : (x : ℕ) (xs : List ℕ) → length (insert x xs) ≡ suc (length xs)
unfolding insert
length-insert x [] = omega arith
length-insert x (y ∷ ys) = ground (arith, length-insert x ys)

length-sorted : (xs : List ℕ) → length (sorted xs) ≡ length xs
unfolding sorted
length-sorted [] = omega arith
length-sorted (x ∷ xs) = omega (arith, length-insert x (sorted xs), length-sorted xs)

-- When a telemetry has latencies, in whatever order they came, and all of them are between two bounds,
-- the three percentiles of its snapshot (in hundredths) lie between the bounds and rise from the 50th
-- over the 95th to the 99th.
pub snapshot-IsWithin :
    (low high : ℕ) (t : Telemetry)
    → All (IsWithin low high) t.latencies
    → 1 ≤ length t.latencies
    → (100 * low ≤ (snapshot t).latency_p50_ms)
      × ((snapshot t).latency_p50_ms ≤ (snapshot t).latency_p95_ms)
      × ((snapshot t).latency_p95_ms ≤ (snapshot t).latency_p99_ms)
      × ((snapshot t).latency_p99_ms ≤ 100 * high)
unfolding snapshot
snapshot-IsWithin low high t hs some_item =
    let within = sorted-IsWithin low high t.latencies hs in
    let rising = sorted-Rises t.latencies in
    let at_least : 1 ≤ length (sorted t.latencies) =
      omega (arith, length-sorted t.latencies, some_item) in
    (
      (percentile-IsWithin low high (sorted t.latencies) 50 within at_least (omega arith)).0,
      percentile-Rises (sorted t.latencies) 50 95 rising (omega arith) (omega arith),
      percentile-Rises (sorted t.latencies) 95 99 rising (omega arith) (omega arith),
      (percentile-IsWithin low high (sorted t.latencies) 99 within at_least (omega arith)).1,
    )
