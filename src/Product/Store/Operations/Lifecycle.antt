-- ===== src/Product/Store/Operations/Lifecycle.antt =====
-- The phases of a package activation: a completed one is final.
use cyrene_reactor.Product.Receipts.{RuntimeStatus, Receipt}
use mathlib.Core.Path.{subst}
use cyrene_reactor.Prelude.{
  sym, ◌∙◌, true, Option-cases, arith, ℕ, [], ◌∷◌, false, some, ◌≡◌, List, Bool, String, refl, inl,
  inr, Bool-cases,
}
use cyrene_reactor.Prelude.Keys.{beq_other, nat_eq, beq→eq, string_eq, ◌==◌}
use cyrene_reactor.Prelude.Table
use cyrene_reactor.Product.Exec.{◌>>=◌, Result, ok, err, roll_back, transaction}
use cyrene_reactor.Product.Store.{
  RuntimeStatus, Receipt, Store, Operation, OperationPhase, operation_key,
}
use cyrene_reactor.Product.Store.Operations.{
  is_pending, rowcount, update_one, ◌==◌, update, package_runtime_operation,
  mark_package_runtime_unknown, persist_package_runtime_receipt, commit_package_runtime_outcome,
  complete_package_runtime_operation,
}

-- An update that passes over the row which a key finds, and keeps the keys.
get-update :
    (k : String) (where' : Operation → Bool) (set : Operation → Operation) (rows : List Operation)
    (r : Operation)
    → ((x : Operation) → (set x).request_id ≡ x.request_id)
    → Table.get operation_key k rows ≡ some r
    → where' r ≡ false
    → Table.get operation_key k (update where' set rows) ≡ some r
unfolding update Table.get
get-update k where' set [] r keeps found untouched = cc
get-update k where' set (x ∷ rows) r keeps found untouched =
    let rest = get-update k where' set rows r keeps in
    elim (Bool-cases (x.request_id == k)) [
      | inl here ↦
          let same : some x ≡ some r = rw here at found in
          let passed : where' x ≡ false = cc in rw (passed, here) same
      | inr elsewhere ↦
          let later = rest (rw elsewhere at found) untouched in
          elim (Bool-cases (where' x)) [
            | inl hit ↦ rw (hit, keeps x, elsewhere) later
            | inr miss ↦ rw (miss, elsewhere) later
          ]
    ]

get-key :
    (k : String) (rows : List Operation) (r : Operation)
    → Table.get operation_key k rows ≡ some r
    → r.request_id ≡ k
unfolding Table.get
get-key k [] r found = cc
get-key k (x ∷ rows) r found = elim (Bool-cases (x.request_id == k)) [
  | inl here ↦
      let same : some x ≡ some r = rw here at found in let is_key = beq→eq x.request_id k here in cc
  | inr elsewhere ↦ get-key k rows r (rw elsewhere at found)
]

rolled_back :
    {A : Type 0} (P : Store → Type 0) (s : Store) (p : Result A × Store)
    → P s
    → P p.1
    → P (roll_back s p).1
rolled_back P s (ok a, t) before after = after
rolled_back P s (err e, t) before after = before

module _ (request : String) (r : Operation) (completed : r.phase ≡ OperationPhase.completed) where
  abbrev pub Kept : Store → Type 0
  Kept s = Table.get operation_key request s.operations ≡ some r

  update_one-Kept :
      (where' : Operation → Bool) (set : Operation → Operation) (refusal : String) (s : Store)
      → ((x : Operation) → (set x).request_id ≡ x.request_id)
      → where' r ≡ false
      → Kept s
      → Kept (update_one where' set refusal s).1
  unfolding update_one
  update_one-Kept where' set refusal s keeps untouched found =
      let after = get-update request where' set s.operations r keeps found untouched in
      elim (Bool-cases (rowcount where' s.operations == 1)) [
        | inl one ↦ rw one after
        | inr other ↦ rw other after
      ]

  persist-Kept :
      (other : String) (receipt : Receipt) (now : ℕ) (s : Store)
      → Kept s
      → Kept (persist_package_runtime_receipt other receipt now s).1
  unfolding persist_package_runtime_receipt transaction
  persist-Kept other receipt now s found =
      rolled_back Kept s _ found
        (update_one-Kept _ _ _ s (λ x. refl) (ground (arith, completed)) found)

  complete-Kept :
      (other : String) (now : ℕ) (s : Store)
      → Kept s
      → Kept (complete_package_runtime_operation other now s).1
  unfolding complete_package_runtime_operation transaction
  complete-Kept other now s found =
      rolled_back Kept s _ found
        (update_one-Kept _ _ _ s (λ x. refl) (ground (arith, completed)) found)

  pub mark-Kept :
      (other : String) (now : ℕ) (s : Store)
      → Kept s
      → Kept (mark_package_runtime_unknown other now s).1
  unfolding mark_package_runtime_unknown ◌>>=◌
  mark-Kept other now s found =
      get-update request _ _ s.operations r (λ x. refl) found (ground (arith, completed))

  not_pending :
      (other : String) (s : Store) (x : Operation)
      → Kept s
      → Table.get operation_key other s.operations ≡ some x
      → is_pending x.phase ≡ true
      → ¬ (r.request_id ≡ other)
  not_pending other s x found row pending same =
      let here : request ≡ other = sym (get-key request s.operations r found) ∙ same in
      let again : Table.get operation_key other s.operations ≡ some r =
        subst (λ k. Table.get operation_key k s.operations ≡ some r) here found in
      let both : some x ≡ some r = sym row ∙ again in
      let is_r : x ≡ r = cc in
      let no : false ≡ true =
        rw completed at (subst (λ y. is_pending y.phase ≡ true) is_r pending) in
      cc

  commit-Kept :
      (other : String) (status : RuntimeStatus) (receipt : Receipt) (now : ℕ) (s : Store)
      → Kept s
      → Kept (commit_package_runtime_outcome other status receipt now s).1
  unfolding commit_package_runtime_outcome transaction package_runtime_operation ◌>>=◌
  commit-Kept other status receipt now s found =
      elim (Option-cases (Table.get operation_key other s.operations)) [
        | inl missing ↦ rw missing found
        | inr (x, row) ↦ elim (Bool-cases (is_pending x.phase)) [
          | inl pending ↦
              rw (row, pending)
                (get-update request _ _ s.operations r (λ y. refl) found
                  (beq_other r.request_id other
                    (λ same. not_pending other s x found row pending same)))
          | inr final ↦ rw (row, final) found
        ]
      ]

-- A completed package operation is final: whichever of the four writes runs, for whichever request,
-- and whether it succeeds or raises, the operation is read back unchanged.
pub completed_is_final :
    (s : Store) (request other : String) (r : Operation) (status : RuntimeStatus)
    (receipt : Receipt) (now : ℕ)
    → package_runtime_operation s request ≡ some r
    → r.phase ≡ OperationPhase.completed
    → (package_runtime_operation (mark_package_runtime_unknown other now s).1 request ≡ some r)
      × (package_runtime_operation (persist_package_runtime_receipt other receipt now s).1 request
          ≡ some r)
      × (package_runtime_operation
            (commit_package_runtime_outcome other status receipt now s).1
            request
          ≡ some r)
      × (package_runtime_operation (complete_package_runtime_operation other now s).1 request
          ≡ some r)
unfolding package_runtime_operation
completed_is_final s request other r status receipt now found completed = (
  mark-Kept request r completed other now s found,
  persist-Kept request r completed other receipt now s found,
  commit-Kept request r completed other status receipt now s found,
  complete-Kept request r completed other now s found,
)
