-- ===== src/Product/Store/Timeline/Paging.antt =====
-- What the reads of the timeline return.
use cyrene_reactor.Product.Store.{Store, DiagnosticRow}
use cyrene_reactor.Product.Store.Timeline.{
  bounded, diagnostics_of, events_of, Store, list_deployment_diagnostics, list_deployment_events,
  order_by, insert_sorted,
}
use cyrene_reactor.Product.Store.Timeline.Numbering.{
  diagnostic_number, event_number, IsTimeline, upto,
}
use cyrene_reactor.Prelude.{
  drop_nil, drop-drop, zero, sym, suc, ◌∙◌, ◌-◌, ap, ltb, ◌+◌, ◌++◌, length, drop, take, map, false,
  refl, true, if◌then◌else◌, [], ◌<◌, ◌≡◌, keep, ◌≤◌, ◌∷◌, Bool, List, ℕ,
}
use mathlib.Core.Path.{subst}
use native.Mathlib.Omega.{arith}
use native.Mathlib.Decide.{dec_lt}
use mathlib.Core.List.{head-eq_of_cons-eq, tail-eq_of_cons-eq}

take_nil {ℓ} : {A : Type ℓ} (n : ℕ) → take {A = A} n [] ≡ []
take_nil zero = refl
take_nil (suc n) = refl

module _ {R : Type 0} (number : R → ℕ) where
  -- The numbers rise, from above `from` on.
  abbrev Rises : ℕ → List R → Type 0
  Rises from [] = Unit
  Rises from (r ∷ rs) = (from < number r) × Rises (number r) rs

  Rises-weaken : (a b : ℕ) (rs : List R) → a ≤ b → Rises b rs → Rises a rs
  Rises-weaken a b [] h v = tt
  Rises-weaken a b (r ∷ rs) h v = (omega arith, v.1)

  Rises-keep : (p : R → Bool) (from : ℕ) (rs : List R) → Rises from rs → Rises from (keep p rs)
  Rises-keep p from [] v = tt
  Rises-keep p from (r ∷ rs) v =
      let rest = Rises-keep p (number r) rs v.1 in
      elim (p r) as (λ b. Rises from (if b then r ∷ keep p rs else keep p rs)) [
        | true ↦ (v.0, rest)
        | false ↦ Rises-weaken from (number r) (keep p rs) (omega arith) rest
      ]

  Rises-upto : (from : ℕ) (rs : List R) → map number rs ≡ upto from (length rs) → Rises from rs
  unfolding upto
  Rises-upto from [] e = tt
  Rises-upto from (r ∷ rs) e =
      let first = head-eq_of_cons-eq e in
      (omega arith, rw first (Rises-upto (from + 1) rs (tail-eq_of_cons-eq e)))

  insert_sorted-head :
      (r : R) (rs : List R) → Rises (number r) rs → insert_sorted number r rs ≡ r ∷ rs
  unfolding insert_sorted
  insert_sorted-head r [] v = refl
  insert_sorted-head r (x ∷ rs) v = ground arith

  order_by-Rises : (from : ℕ) (rs : List R) → Rises from rs → order_by number rs ≡ rs
  unfolding order_by
  order_by-Rises from [] v = refl
  order_by-Rises from (r ∷ rs) v =
      rw (order_by-Rises (number r) rs v.1) (insert_sorted-head r rs v.1)

  keep-drop :
      (after from : ℕ) (rs : List R)
      → map number rs ≡ upto from (length rs)
      → keep (λ r. ltb after (number r)) rs ≡ drop (after - from) rs
  unfolding upto
  keep-drop after from [] e = sym (drop_nil (after - from))
  keep-drop after from (r ∷ rs) e =
      let first : number r ≡ from + 1 = head-eq_of_cons-eq e in
      let rest = keep-drop after (from + 1) rs (tail-eq_of_cons-eq e) in
      elim (dec_lt from after) [
        | yes before ↦ rw first (skip before rest)
        | no reached ↦ rw first (hold reached rest)
      ]
    where
      kept : List R
      kept = keep (λ x. ltb after (number x)) rs

      skip :
          from < after
          → kept ≡ drop (after - (from + 1)) rs
          → (if ltb after (from + 1) then r ∷ kept else kept) ≡ drop (after - from) (r ∷ rs)
      skip before rest =
          let n : after - from ≡ suc (after - (from + 1)) = omega arith in rw n (ground arith)

      hold :
          ¬ (from < after)
          → kept ≡ drop (after - (from + 1)) rs
          → (if ltb after (from + 1) then r ∷ kept else kept) ≡ drop (after - from) (r ∷ rs)
      hold reached rest =
          let n : after - from ≡ 0 = omega arith in
          let m : after - (from + 1) ≡ 0 = omega arith in rw n (ground (arith, rw m at rest))

  -- Numbered rows read after a number are the rows with that many left out.
  page-drop :
      (after : ℕ) (rs : List R)
      → map number rs ≡ upto 0 (length rs)
      → order_by number (keep (λ r. ltb after (number r)) rs) ≡ drop after rs
  page-drop after rs e =
      order_by-Rises 0 _ (Rises-keep (λ r. ltb after (number r)) 0 rs (Rises-upto 0 rs e))
      ∙ keep-drop after 0 rs e
      ∙ ap (λ (n : ℕ). drop n rs) (omega arith)

-- In a store whose timelines are numbered, the events of a deployment are listed in the order in which they were appended.
pub list_deployment_events_lem :
    (s : Store) (id : ℕ) → IsTimeline s → list_deployment_events s id ≡ events_of s id
unfolding list_deployment_events events_of
list_deployment_events_lem s id v =
    order_by-Rises event_number 0 _ (Rises-upto event_number 0 _ (v.events id))

-- In a store whose timelines are numbered, a page of diagnostics is the stretch of the deployment's stored records, in the order in which
-- they were appended, that starts behind the first `after` and holds at most
-- `max(1, min(limit, 500))` of them.
pub list_deployment_diagnostics_lem :
    (s : Store) (id after limit : ℕ)
    → IsTimeline s
    → list_deployment_diagnostics s id after limit
      ≡ take (bounded limit) (drop after (diagnostics_of s id))
unfolding list_deployment_diagnostics diagnostics_of
list_deployment_diagnostics_lem s id after limit v =
    ap (take (bounded limit)) (page-drop diagnostic_number after _ (v.diagnostics id))

take-rest {ℓ} :
    {A : Type ℓ} (b c : ℕ) (xs : List A)
    → take b xs ++ take c (drop (length (take b xs)) xs) ≡ take (length (take b xs) + c) xs
take-rest zero c xs = ap (λ (n : ℕ). take n xs) (omega arith)
take-rest (suc b) c [] = take_nil c ∙ sym (take_nil (0 + c))
take-rest (suc b) c (x ∷ xs) =
    let n : suc (length (take b xs)) + c ≡ suc (length (take b xs) + c) = omega arith in
    rw n (ap (◌∷◌ x) (take-rest b c xs))

-- The number of the last record of a page, or the one that it was read behind.
abbrev pub last_number : ℕ → List DiagnosticRow → ℕ
last_number after [] = after
last_number after (r ∷ rs) = last_number r.sequence rs

abbrev IsRun : ℕ → List DiagnosticRow → Type 0
IsRun from rs = map diagnostic_number rs ≡ upto from (length rs)

IsRun-take : (b from : ℕ) (rs : List DiagnosticRow) → IsRun from rs → IsRun from (take b rs)
unfolding upto
IsRun-take zero from rs e = refl
IsRun-take (suc b) from [] e = refl
IsRun-take (suc b) from (r ∷ rs) e =
    λ i. head-eq_of_cons-eq e i ∷ IsRun-take b (from + 1) rs (tail-eq_of_cons-eq e) i

last_number-IsRun :
    (from : ℕ) (rs : List DiagnosticRow) → IsRun from rs → last_number from rs ≡ from + length rs
unfolding upto
last_number-IsRun from [] e = omega arith
last_number-IsRun from (r ∷ rs) e =
    let first : r.sequence ≡ from + 1 = head-eq_of_cons-eq e in
    let rest = last_number-IsRun (from + 1) rs (tail-eq_of_cons-eq e) in
    rw first (omega (arith, rest))

-- The rows left out are numbered up to the one that the page is read behind, unless none is left.
page-last_number :
    (b after from : ℕ) (rs : List DiagnosticRow)
    → IsRun from rs
    → last_number (from + after) (take b (drop after rs))
      ≡ from + after + length (take b (drop after rs))
unfolding upto
page-last_number b zero from rs e =
    let n : from + 0 ≡ from = omega arith in
    rw n (last_number-IsRun from (take b rs) (IsRun-take b from rs e))
page-last_number b (suc after) from [] e = rw (take_nil {A = DiagnosticRow} b) (omega arith)
page-last_number b (suc after) from (r ∷ rs) e =
    let n : from + suc after ≡ from + 1 + after = omega arith in
    rw n (page-last_number b after (from + 1) rs (tail-eq_of_cons-eq e))

page-cursor :
    (b after : ℕ) (rs : List DiagnosticRow)
    → IsRun 0 rs
    → last_number after (take b (drop after rs)) ≡ after + length (take b (drop after rs))
page-cursor b after rs e =
    let page = take b (drop after rs) in
    subst (λ (n : ℕ). last_number n page ≡ n + length page) (omega arith)
      (page-last_number b after 0 rs e)

-- In a store whose timelines are numbered, reading on behind a page, from the number of its last
-- record (or from the same number, if the page was empty), neither skips nor repeats a record: the
-- two pages together are one longer page.
pub pages_tile :
    (s : Store) (id after limit limit' : ℕ)
    → IsTimeline s
    → (let page = list_deployment_diagnostics s id after limit in
        page ++ list_deployment_diagnostics s id (last_number after page) limit'
        ≡ take (length page + bounded limit') (drop after (diagnostics_of s id)))
unfolding diagnostics_of
pages_tile s id after limit limit' v =
    let rows = diagnostics_of s id in
    let rest = drop after rows in
    let first = list_deployment_diagnostics_lem s id after limit v in
    let cursor = page-cursor (bounded limit) after rows (v.diagnostics id) in
    let second =
      list_deployment_diagnostics_lem s id (after + length (take (bounded limit) rest)) limit' v in
    rw first (
      rw cursor (
        rw second (
          rw (← drop-drop after (length (take (bounded limit) rest)) rows)
            (take-rest (bounded limit) (bounded limit') rest))))
