-- ===== src/Product/Store/Operations/Completion.antt =====
-- `complete_package_runtime_operation`: when it ends well, the operation is completed.
use cyrene_reactor.Product.Exec.{err, Result, ok, transaction}
use cyrene_reactor.Prelude.Keys.{nat_eq, beq→eq, string_eq, ◌==◌}
use cyrene_reactor.Product.Store.{OperationPhase, Store, operation_key, Operation}
use cyrene_reactor.Prelude.{
  ap, sym, ◌&&◌, is_some, ℕ, inr, refl, inl, [], Bool-cases, arith, ◌∷◌, if◌then◌else◌, keep, some,
  length, none, Option, true, ◌≡◌, List, Bool, String,
}
use cyrene_reactor.Prelude.Table
use cyrene_reactor.Product.Store.Operations.{
  value_error, is_receipt_pending, transaction, package_runtime_operation, rowcount, update_one,
  complete_package_runtime_operation, ◌==◌, Operation, String, update,
}
use cyrene_reactor.Product.Store.Operations.Orderly.{IsOrderly}

-- The row of a request, read back after an update.
get-update :
    (k : String) (where' : Operation → Bool) (set : Operation → Operation) (rows : List Operation)
    → ((x : Operation) → (set x).request_id ≡ x.request_id)
    → Table.get operation_key k (update where' set rows)
      ≡ elim (Table.get operation_key k rows) as (λ x. Option Operation) [
        | none ↦ none
        | some r ↦ some (if where' r then set r else r)
      ]
unfolding update Table.get
get-update k where' set [] same = refl
get-update k where' set (r ∷ rows) same = ground (arith, get-update k where' set rows same, same r)

module _ (k : String) (where' : Operation → Bool)
    (of_request : (x : Operation) → where' x ≡ true → (x.request_id == k) ≡ true) where
  -- Rows that pass have the request's id, so there are none where it has no row.
  keep-missing :
      (rows : List Operation)
      → Table.get operation_key k rows ≡ none
      → length (keep where' rows) ≡ 0
  unfolding Table.get
  keep-missing [] missing = refl
  keep-missing (r ∷ rows) missing = ground (arith, keep-missing rows, of_request r)

  keep-found :
      (rows : List Operation)
      → IsOrderly rows
      → length (keep where' rows) ≡ 1
      → (r : Operation) × (Table.get operation_key k rows ≡ some r) × (where' r ≡ true)
  unfolding Table.get IsOrderly
  keep-found [] o one = absurd (omega (arith, one))
  keep-found (r ∷ rows) o one = elim (Bool-cases (where' r)) [
    | inl hit ↦ (r, rw (of_request r hit) refl, hit)
    | inr miss ↦
        let (x, found, passed) = keep-found rows o.3 (rw miss at one) in
        (x, ground (arith, o.0, found, string_eq.beq_iff r.request_id k), passed)
  ]

abbrev is_ready : String → Operation → Bool
is_ready request r = r.request_id == request && is_receipt_pending r.phase && is_some r.receipt

abbrev complete_at : ℕ → Operation → Operation
complete_at now r = record r { phase = OperationPhase.completed; updated_at = now }

completed-ok :
    (request : String) (now : ℕ) (s : Store) (u : Unit {0}) (s' : Store)
    → complete_package_runtime_operation request now s ≡ (ok u, s')
    → (length (keep (is_ready request) s.operations) ≡ 1)
      × (s'.operations ≡ update (is_ready request) (complete_at now) s.operations)
unfolding complete_package_runtime_operation update_one rowcount transaction
completed-ok request now s u s' done =
    elim (Bool-cases (length (keep (is_ready request) s.operations) == 1)) [
      | inl one ↦ (
        beq→eq (length (keep (is_ready request) s.operations)) 1 one,
        sym (ap (λ (p : Result (Unit {0}) × Store). p.1.operations) (rw one at done)),
      )
      | inr many ↦
          let no : err (value_error "PACKAGE_RUNTIME_RECEIPT_NOT_PERSISTED") ≡ ok u =
            ap (λ (p : Result (Unit {0}) × Store). p.0) (rw many at done) in
          cc
    ]

read-completed :
    (request : String) (now : ℕ) (rows rows' : List Operation) (r : Operation)
    → rows' ≡ update (is_ready request) (complete_at now) rows
    → Table.get operation_key request rows ≡ some r
    → is_ready request r ≡ true
    → Table.get operation_key request rows' ≡ some (complete_at now r)
read-completed request now rows rows' r after found ready =
    let read = get-update request (is_ready request) (complete_at now) rows (λ x. refl) in
    rw (after, read, found, ready) refl

is_ready-receipt :
    (request : String) (r : Operation) → is_ready request r ≡ true → is_some r.receipt ≡ true
is_ready-receipt request r ready = ground (arith, ready)

is_ready-request :
    (request : String) (r : Operation)
    → is_ready request r ≡ true
    → (r.request_id == request) ≡ true
is_ready-request request r ready = ground (arith, ready)

-- The operation is completed, and its row is the one that the request had.
pub complete-ok :
    (request : String) (now : ℕ) (s : Store) (u : Unit {0}) (s' : Store)
    → IsOrderly s.operations
    → complete_package_runtime_operation request now s ≡ (ok u, s')
    → (r : Operation) × (package_runtime_operation s request ≡ some r)
      × (is_some r.receipt ≡ true)
      × (package_runtime_operation s' request
          ≡ some (record r { phase = OperationPhase.completed; updated_at = now }))
unfolding package_runtime_operation
complete-ok request now s u s' o done =
    let (one, after) = completed-ok request now s u s' done in
    let (r, found, ready) =
      keep-found request (is_ready request) (is_ready-request request) s.operations o one in
    (
      r,
      found,
      is_ready-receipt request r ready,
      read-completed request now s.operations s'.operations r after found ready,
    )
