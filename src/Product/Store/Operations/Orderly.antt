-- ===== src/Product/Store/Operations/Orderly.antt =====
-- The invariant of the operations' table: the primary key, at most one pending operation to a
-- binding, and a receipt with every completed one.
use cyrene_reactor.Product.Receipts.{RuntimeStatus, Receipt}
use cyrene_reactor.Product.Exec.Keeps.{
  Keeps-pure, Keeps-raise, Keeps-if, Keeps-option, Keeps-gets, Keeps-bind, Keeps-transaction,
  Keeps-modify, Keeps,
}
use cyrene_reactor.Product.Exec.{transaction, ◌>>=◌, Exec}
use cyrene_reactor.Prelude.Keys.{nat_eq, ◌==◌, string_eq}
use cyrene_reactor.Prelude.{
  Option-cases, inr, inl, Bool-cases, ℕ, some, ◌++◌, refl, [], arith, find, true, All, String, ◌&&◌,
  none, is_some, ◌≡◌, if◌then◌else◌, ◌∷◌, List, Bool,
}
use cyrene_reactor.Prelude.Table
use cyrene_reactor.Product.Store.{Store, Operation, OperationPhase, operation_key}
use cyrene_reactor.Product.Store.Operations.{
  same_scope, new_operation, insert_operation, rowcount, package_runtime_operation,
  create_package_runtime_intent, commit_package_runtime_outcome, complete_package_runtime_operation,
  persist_package_runtime_receipt, update_one, mark_package_runtime_unknown, Exec, is_pending,
  pending_on, update,
}

abbrev pub is_settled : Operation → Bool
is_settled r = elim r.phase as (λ x. Bool) [
  | OperationPhase.completed ↦ is_some r.receipt
  | _ ↦ true
]

unfoldable pub IsOrderly : List Operation → Type 0
IsOrderly [] = Unit
IsOrderly (r ∷ rs) =
    (Table.get operation_key r.request_id rs ≡ none)
    × (if is_pending r.phase then find (pending_on r.binding_id) rs ≡ none else Unit)
    × (is_settled r ≡ true)
    × IsOrderly rs

-- A row that an update may change: a pending one, to one that is settled.
abbrev allowed : (Operation → Bool) → (Operation → Operation) → Operation → Bool
allowed where' set r = if where' r then is_pending r.phase && is_settled (set r) else true

module _ (where' : Operation → Bool) (set : Operation → Operation)
    (same_request : (x : Operation) → (set x).request_id ≡ x.request_id)
    (same_binding : (x : Operation) → (set x).binding_id ≡ x.binding_id) where
  update-get-none :
      (k : String) (rows : List Operation)
      → Table.get operation_key k rows ≡ none
      → Table.get operation_key k (update where' set rows) ≡ none
  unfolding update Table.get
  update-get-none k [] h = refl
  update-get-none k (r ∷ rows) h = ground (arith, update-get-none k rows, same_request r)

  update-find-none :
      (b : String) (rows : List Operation)
      → All (λ x. allowed where' set x ≡ true) rows
      → find (pending_on b) rows ≡ none
      → find (pending_on b) (update where' set rows) ≡ none
  unfolding update
  update-find-none b [] h e = refl
  update-find-none b (r ∷ rows) h e = ground (arith, update-find-none b rows h.1, same_binding r)

  update-IsOrderly :
      (rows : List Operation)
      → All (λ x. allowed where' set x ≡ true) rows
      → IsOrderly rows
      → IsOrderly (update where' set rows)
  unfolding update IsOrderly
  update-IsOrderly [] h o = tt
  update-IsOrderly (r ∷ rows) h o = ground (
    arith,
    update-IsOrderly rows h.1,
    update-get-none r.request_id rows,
    update-find-none r.binding_id rows h.1,
    same_request r,
    same_binding r,
  )

All-rows : (P : Operation → Type 0) → ((x : Operation) → P x) → (rows : List Operation) → All P rows
All-rows P h [] = tt
All-rows P h (r ∷ rows) = (h r, All-rows P h rows)

find-append :
    (b : String) (rows : List Operation) (r : Operation)
    → find (pending_on b) (rows ++ r ∷ []) ≡ elim (find (pending_on b) rows) [
      | some x ↦ some x
      | none ↦ if pending_on b r then some r else none
    ]
find-append b [] r = refl
find-append b (x ∷ rows) r = ground (arith, find-append b rows r)

append-IsOrderly :
    (rows : List Operation) (r : Operation)
    → IsOrderly rows
    → Table.get operation_key r.request_id rows ≡ none
    → find (pending_on r.binding_id) rows ≡ none
    → is_settled r ≡ true
    → IsOrderly (rows ++ r ∷ [])
unfolding IsOrderly Table.get
append-IsOrderly [] r o new alone settled = ground arith
append-IsOrderly (x ∷ rows) r o new alone settled = ground (
  arith,
  append-IsOrderly rows r,
  Table.get-append operation_key x.request_id rows r,
  find-append x.binding_id rows r,
  string_eq.beq_iff x.request_id r.request_id,
  string_eq.beq_iff r.request_id x.request_id,
  string_eq.beq_iff x.binding_id r.binding_id,
  string_eq.beq_iff r.binding_id x.binding_id,
)

-- The rows of a request whose only row is pending.
matches_pending :
    (k : String) (set : Operation → Operation) (rows : List Operation) (r : Operation)
    → ((x : Operation) → is_settled (set x) ≡ true)
    → IsOrderly rows
    → Table.get operation_key k rows ≡ some r
    → is_pending r.phase ≡ true
    → All (λ x. allowed (λ y. y.request_id == k) set x ≡ true) rows
unfolding IsOrderly Table.get
matches_pending k set [] r settled o found pending = tt
matches_pending k set (x ∷ rows) r settled o found pending = ground (
  arith,
  matches_pending k set rows r settled,
  matches_none k set rows,
  settled x,
  string_eq.beq_iff x.request_id k,
)
  where
    matches_none :
        (k : String) (set : Operation → Operation) (rows : List Operation)
        → Table.get operation_key k rows ≡ none
        → All (λ x. allowed (λ y. y.request_id == k) set x ≡ true) rows
    matches_none k set [] missing = tt
    matches_none k set (x ∷ rows) missing = ground (arith, matches_none k set rows)

abbrev pub KeepsOrder : {A : Type 0} → Exec Store A → Type 0
KeepsOrder = Keeps (λ s. IsOrderly s.operations)

pub mark-KeepsOrder :
    (request : String) (now : ℕ) → KeepsOrder (mark_package_runtime_unknown request now)
unfolding mark_package_runtime_unknown
mark-KeepsOrder request now = Keeps-modify _ (λ s o.
    update-IsOrderly _ _ (λ x. refl) (λ x. refl) s.operations
      (All-rows _ (λ x. ground arith) s.operations) o)

update_one-KeepsOrder :
    (where' : Operation → Bool) (set : Operation → Operation) (refusal : String)
    → ((x : Operation) → (set x).request_id ≡ x.request_id)
    → ((x : Operation) → (set x).binding_id ≡ x.binding_id)
    → ((x : Operation) → allowed where' set x ≡ true)
    → KeepsOrder (update_one where' set refusal)
unfolding update_one
update_one-KeepsOrder where' set refusal same_request same_binding fine = record {
  at = λ s o.
      let after =
        update-IsOrderly where' set same_request same_binding s.operations
          (All-rows _ fine s.operations) o in
      elim (Bool-cases (rowcount where' s.operations == 1)) [
        | inl one ↦ rw one after
        | inr many ↦ rw many after
      ];
}

pub persist-KeepsOrder :
    (request : String) (receipt : Receipt) (now : ℕ)
    → KeepsOrder (persist_package_runtime_receipt request receipt now)
unfolding persist_package_runtime_receipt
persist-KeepsOrder request receipt now =
    Keeps-transaction _ (update_one-KeepsOrder _ _ _ (λ x. refl) (λ x. refl) (λ x. ground arith))

pub complete-KeepsOrder :
    (request : String) (now : ℕ) → KeepsOrder (complete_package_runtime_operation request now)
unfolding complete_package_runtime_operation
complete-KeepsOrder request now =
    Keeps-transaction _ (update_one-KeepsOrder _ _ _ (λ x. refl) (λ x. refl) (λ x. ground arith))

pub commit-KeepsOrder :
    (request : String) (status : RuntimeStatus) (receipt : Receipt) (now : ℕ)
    → KeepsOrder (commit_package_runtime_outcome request status receipt now)
unfolding commit_package_runtime_outcome package_runtime_operation ◌>>=◌ transaction
commit-KeepsOrder request status receipt now = record {
  at = λ s o. elim (Option-cases (Table.get operation_key request s.operations)) [
    | inl missing ↦ rw missing o
    | inr (r, found) ↦ elim (Bool-cases (is_pending r.phase)) [
      | inl pending ↦
          rw (found, pending)
            (update-IsOrderly _ _ (λ x. refl) (λ x. refl) s.operations
              (matches_pending request outcome s.operations r (λ x. refl) o found pending) o)
      | inr final ↦ rw (found, final) o
    ]
  ];
}
  where
    outcome : Operation → Operation
    outcome r = record r {
      phase = OperationPhase.receipt_pending;
      runtime_status = some status;
      receipt = some receipt;
      updated_at = now;
    }

insert-KeepsOrder :
    (r : Operation)
    → is_pending r.phase ≡ true
    → is_settled r ≡ true
    → KeepsOrder (insert_operation r)
unfolding insert_operation
insert-KeepsOrder r pending settled = record {
  at = λ s o. ground (arith, append-IsOrderly s.operations r o, pending, settled);
}

pub create-KeepsOrder :
    (request binding package_id installation : String) (now : ℕ)
    → KeepsOrder (create_package_runtime_intent request binding package_id installation now)
unfolding create_package_runtime_intent new_operation
create-KeepsOrder request binding package_id installation now = Keeps-transaction _ (
    Keeps-bind _ _ (Keeps-gets _) (λ existing.
      Keeps-option existing _ _
        (Keeps-bind _ _ (Keeps-gets _) (λ pending. Keeps-if (is_some pending) _ _ (Keeps-raise _) (
          Keeps-bind _ _
            (insert-KeepsOrder (new_operation request binding package_id installation now) refl
              refl)
            (λ done. Keeps-gets _))))
        (λ r.
          Keeps-if (same_scope r binding package_id installation) _ _ (Keeps-pure _)
            (Keeps-raise _))))

pub get-settled :
    (k : String) (rows : List Operation) (r : Operation)
    → IsOrderly rows
    → Table.get operation_key k rows ≡ some r
    → is_settled r ≡ true
unfolding IsOrderly Table.get
get-settled k [] r o found = cc
get-settled k (x ∷ rows) r o found = elim (Bool-cases (x.request_id == k)) [
  | inl here ↦ let same : some x ≡ some r = rw here at found in let settled = o.2 in cc
  | inr elsewhere ↦ get-settled k rows r o.3 (rw elsewhere at found)
]
