-- ===== src/Product/Store/Operations.antt =====
-- store.py: `package_runtime_owner_operations`, the durable lifecycle of package activations.
pub mod Lifecycle
pub mod Orderly
pub mod Completion
mod Examples
use cyrene_reactor.Product.Receipts.{RuntimeStatus, Receipt}
use cyrene_reactor.Product.Errors.{value_error, integrity_error}
use cyrene_reactor.Prelude.Keys.{nat_eq, string_eq, ◌==◌}
use cyrene_reactor.Prelude.Table
use cyrene_reactor.Product.Exec.{◌>>◌, raise, pure, err, gets, ok, ◌>>=◌, modify, transaction, Exec}
use cyrene_reactor.Prelude.{
  ◌++◌, not, ◌||◌, ltb, [], is_some, some, ◌&&◌, false, length, ◌∷◌, if◌then◌else◌, keep, none,
  find, true, ℕ, Bool, Option, List, String,
}
use cyrene_reactor.Product.Store.{
  RuntimeStatus, Receipt, operation_key, Operation, OperationPhase, Store,
}

unfoldable pub package_runtime_operation : Store → String → Option Operation
package_runtime_operation s request = Table.get operation_key request s.operations

abbrev pub is_pending : OperationPhase → Bool
is_pending OperationPhase.intent = true
is_pending OperationPhase.unknown = true
is_pending OperationPhase.receipt_pending = true
is_pending OperationPhase.completed = false

abbrev pub pending_on : String → Operation → Bool
pending_on binding r = r.binding_id == binding && is_pending r.phase

unfoldable pub pending_package_runtime_operation : Store → String → Option Operation
pending_package_runtime_operation s binding = find (pending_on binding) s.operations

-- ORDER BY updated_at DESC, rowid DESC LIMIT 1
latest : List Operation → Option Operation
latest [] = none
latest (r ∷ rs) = elim (latest rs) [
  | none ↦ some r
  | some later ↦ if ltb later.updated_at r.updated_at then some r else some later
]

unfoldable pub latest_package_runtime_operation : Store → String → Option Operation
unfolding latest
latest_package_runtime_operation s binding =
    latest (keep (λ r. r.binding_id == binding) s.operations)

new_operation : String → String → String → String → ℕ → Operation
new_operation request binding package_id installation now = record {
  request_id = request;
  binding_id = binding;
  package_id = package_id;
  installation_id = installation;
  operation = "activate";
  phase = OperationPhase.intent;
  runtime_status = none;
  receipt = none;
  updated_at = now;
}

same_scope : Operation → String → String → String → Bool
same_scope r binding package_id installation =
    r.binding_id == binding
    && r.package_id == package_id
    && r.installation_id == installation
    && r.operation == "activate"

-- INSERT: the primary key and the partial unique index on pending operations.
insert_operation : Operation → Exec Store (Unit {0})
insert_operation r s =
    if is_some (Table.get operation_key r.request_id s.operations)
      || (is_pending r.phase && is_some (find (pending_on r.binding_id) s.operations))
    then (err integrity_error, s)
    else (ok tt, record s { operations = s.operations ++ r ∷ [] })

unfoldable pub create_package_runtime_intent :
    String → String → String → String → ℕ → Exec Store (Option Operation)
unfolding new_operation same_scope insert_operation
create_package_runtime_intent request binding package_id installation now = transaction (do
  existing ← gets (λ s. package_runtime_operation s request)
  elim existing [
    | some r ↦
        (if same_scope r binding package_id installation
          then pure (some r)
          else raise (value_error "PACKAGE_RUNTIME_REQUEST_SCOPE_CONFLICT"))
    | none ↦ do
      pending ← gets (λ s. pending_package_runtime_operation s binding)
      if is_some pending
          then raise (value_error "PACKAGE_RUNTIME_BINDING_OPERATION_PENDING")
          else do
            insert_operation (new_operation request binding package_id installation now)
            gets (λ s. package_runtime_operation s request)
  ])

-- UPDATE ... WHERE request_id = ? AND ...: the rows in place, and `cursor.rowcount`.
update : (Operation → Bool) → (Operation → Operation) → List Operation → List Operation
update where' set [] = []
update where' set (r ∷ rs) =
    let rest = update where' set rs in (if where' r then set r else r) ∷ rest

rowcount : (Operation → Bool) → List Operation → ℕ
rowcount where' rows = length (keep where' rows)

update_one : (Operation → Bool) → (Operation → Operation) → String → Exec Store (Unit {0})
unfolding update rowcount
update_one where' set refusal s =
    let s' = record s { operations = update where' set s.operations } in
    if rowcount where' s.operations == 1 then (ok tt, s') else (err (value_error refusal), s')

abbrev is_intent : OperationPhase → Bool
is_intent OperationPhase.intent = true
is_intent _ = false

abbrev is_open : OperationPhase → Bool
is_open OperationPhase.intent = true
is_open OperationPhase.unknown = true
is_open _ = false

abbrev is_receipt_pending : OperationPhase → Bool
is_receipt_pending OperationPhase.receipt_pending = true
is_receipt_pending _ = false

unfoldable pub mark_package_runtime_unknown : String → ℕ → Exec Store (Unit {0})
unfolding update
mark_package_runtime_unknown request now = modify (λ s. record s {
  operations =
      update (λ r. r.request_id == request && is_intent r.phase && not (is_some r.receipt))
        (λ r. record r { phase = OperationPhase.unknown; updated_at = now }) s.operations;
})

unfoldable pub persist_package_runtime_receipt : String → Receipt → ℕ → Exec Store (Unit {0})
unfolding update_one
persist_package_runtime_receipt request receipt now = transaction (
    update_one (λ r. r.request_id == request && is_open r.phase && not (is_some r.receipt))
      (λ r. record r {
        phase = OperationPhase.receipt_pending;
        receipt = some receipt;
        updated_at = now;
      })
      "PACKAGE_RUNTIME_INTENT_NOT_PENDING")

unfoldable pub commit_package_runtime_outcome :
    String → RuntimeStatus → Receipt → ℕ → Exec Store (Unit {0})
unfolding update
commit_package_runtime_outcome request runtime_status receipt now = transaction (do
  row ← gets (λ s. package_runtime_operation s request)
  elim row [
    | none ↦ raise (value_error "PACKAGE_RUNTIME_INTENT_NOT_PENDING")
    | some r ↦
        (if is_pending r.phase
          then modify (λ s. record s {
            operations =
                update (λ r. r.request_id == request)
                  (λ r. record r {
                    phase = OperationPhase.receipt_pending;
                    runtime_status = some runtime_status;
                    receipt = some receipt;
                    updated_at = now;
                  })
                  s.operations;
          })
          else raise (value_error "PACKAGE_RUNTIME_INTENT_NOT_PENDING"))
  ])

unfoldable pub complete_package_runtime_operation : String → ℕ → Exec Store (Unit {0})
unfolding update_one
complete_package_runtime_operation request now = transaction (
    update_one (λ r. r.request_id == request && is_receipt_pending r.phase && is_some r.receipt)
      (λ r. record r { phase = OperationPhase.completed; updated_at = now })
      "PACKAGE_RUNTIME_RECEIPT_NOT_PERSISTED")
