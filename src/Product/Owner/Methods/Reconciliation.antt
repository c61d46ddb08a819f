-- ===== src/Product/Owner/Methods/Reconciliation.antt =====
-- `PackageRuntimeOwner.reconcile`.
use cyrene_reactor.Product.Owner.Texts.{safe_code}
use cyrene_reactor.Product.Store.Operations.{
  commit_package_runtime_outcome, package_runtime_operation, complete_package_runtime_operation,
}
use cyrene_reactor.Product.Store.{Store}
use cyrene_reactor.Product.Exec.{lift, gets, ◌>>=◌, raise, ◌>>◌, Exec}
use cyrene_reactor.Product.Receipts.{Receipt, RuntimeStatus}
use cyrene_reactor.Product.Errors.{Raised}
use cyrene_reactor.Product.Owner.{
  commit_package_runtime_outcome, package_id, package_runtime_operation, code_of, scope_matches,
  safe_code, is_value, complete_package_runtime_operation, fail, require, same_value, StatusAnswer,
  run_script, Clock, Script, Store, ReconciliationCall, Receipt, Exec, Operation, RuntimeStatus,
  receipt_to_private_document,
}
use cyrene_reactor.Prelude.{◌&&◌, none, some, if◌then◌else◌, ℕ, true, Bool, String, Option}
use cyrene_reactor.Product.Owner.Methods.{
  String, Raised, receipt_to_private_document, Option, Platform, Owner, check_scope, status,
  validate_actual, except, is_owner_failure,
}

module _ (platform : Platform) (owner : Owner) where
  abbrev same_reference : Option RuntimeStatus → RuntimeStatus → Bool
  same_reference none actual = true
  same_reference (some previous) actual = same_value actual.connection_ref previous.connection_ref

  -- The callback of `reconcile`.
  unfoldable pub reconciliation_callback :
      String → Operation → ReconciliationCall → ℕ → Exec Store (Unit {0})
  unfolding validate_actual receipt_to_private_document
  reconciliation_callback request r call now = do
    require (is_value call.broker_receipt.request_id request)
        "PACKAGE_RUNTIME_RECEIPT_SCOPE_MISMATCH" 409
    require (scope_matches call.broker_receipt.scope owner.binding_id r.installation_id)
        "PACKAGE_RUNTIME_RECEIPT_SCOPE_MISMATCH" 409
    validate_actual platform owner call.runtime_status r.installation_id
    require (same_reference r.runtime_status call.runtime_status)
        "PACKAGE_RUNTIME_CONNECTION_REF_MISMATCH" 409
    require
        (is_value call.installation.installation_id r.installation_id
          && is_value call.installation.package_id package_id
          && is_value call.installation.state "INSTALLED")
        "PACKAGE_RUNTIME_INSTALLATION_MISMATCH" 409
    document ← lift (receipt_to_private_document call.broker_receipt)
    commit_package_runtime_outcome request call.runtime_status document now

  unfoldable pub reconciliation_failed : Raised → Exec Store (Unit {0})
  reconciliation_failed error =
      if is_owner_failure error
      then raise error
      else fail (safe_code (code_of error "PACKAGE_RUNTIME_RECONCILIATION_FAILED")) 409

  unfoldable pub run_reconciliation :
      String → Operation → Script ReconciliationCall → ℕ → Exec Store (Unit {0})
  unfolding reconciliation_callback reconciliation_failed
  run_reconciliation request r script now =
      except
        (run_script (reconciliation_callback request r) script
          >> complete_package_runtime_operation request now)
        reconciliation_failed

  -- `reconcile`; the client's script is given the rebuilt receipt.
  unfoldable pub reconcile :
      String → (Receipt → Script ReconciliationCall) → Clock → Exec Store StatusAnswer
  unfolding check_scope run_reconciliation
  reconcile request client clock = do
    existing ← gets (λ s. package_runtime_operation s request)
    elim existing [
      | none ↦ fail "PACKAGE_RUNTIME_REQUEST_NOT_FOUND" 404
      | some r ↦ do
        check_scope platform owner r r.installation_id
        elim r.receipt [
          | none ↦ fail "PACKAGE_RUNTIME_OUTCOME_UNKNOWN" 409
          | some document ↦ elim (platform.rebuild document) [
            | none ↦ fail "PACKAGE_RUNTIME_RECEIPT_INVALID" 503
            | some receipt ↦
                run_reconciliation request r (client receipt) clock.completed_at
                >> status platform owner clock.read_at
          ]
        ]
    ]
