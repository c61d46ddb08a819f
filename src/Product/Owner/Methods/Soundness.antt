-- ===== src/Product/Owner/Methods/Soundness.antt =====
-- Whatever the SDK's client does, the owner's methods keep the operations orderly.
use cyrene_reactor.Product.Owner.Methods.Reconciliation.{
  reconcile, reconciliation_callback, reconciliation_failed, run_reconciliation,
}
use cyrene_reactor.Product.Store.Operations.{mark_package_runtime_unknown}
use cyrene_reactor.Product.Receipts.{RuntimeStatus, Receipt}
use cyrene_reactor.Product.Owner.{
  mark_package_runtime_unknown, is_intent, persists, Clock, ReconciliationCall, persists_intent,
  Operation, ActivationCall, RuntimeStatus, Receipt, Script,
}
use cyrene_reactor.Product.Store.{Operation, Store}
use cyrene_reactor.Product.Errors.{Raised}
use cyrene_reactor.Prelude.{[], ◌∷◌, List, is_some, not, ◌&&◌, none, some, Option, String, ℕ}
use cyrene_reactor.Product.Exec.Keeps.{
  Keeps, Keeps-bind, Keeps-pure, Keeps-raise, Keeps-gets, Keeps-if, Keeps-option,
}
use cyrene_reactor.Product.Store.Operations.Orderly.{
  KeepsOrder, IsOrderly, mark-KeepsOrder, complete-KeepsOrder,
}
use cyrene_reactor.Product.Owner.Methods.{
  activate_valid, is_owner_failure, reported, record_outcome, check_scope, run_activation,
  activate_again, activation_failed, recover, Platform, mark_and_read, validate_actual, activate,
  status, Owner, activation_callback,
}
use cyrene_reactor.Product.Owner.Methods.Keeping.{
  run_script-KeepsOrder, except-KeepsOrder, require-KeepsOrder, owner_rules,
}

-- `status` writes only by `mark_package_runtime_unknown`.
module _ {P : Store → Type 0}
    (mark_kept : (request : String) (now : ℕ) → Keeps P (mark_package_runtime_unknown request now))
    (platform : Platform) (owner : Owner) where
  mark_and_read-Keeps :
      (request : String) (now : ℕ) → Keeps P (mark_and_read platform owner request now)
  unfolding mark_and_read
  mark_and_read-Keeps request now = Keeps-bind _ _ (mark_kept request now) (λ done.
      Keeps-bind _ _ (Keeps-gets _)
        (λ marked. Keeps-option marked _ _ (Keeps-pure _) (λ m. Keeps-pure _)))

  pub status-Keeps : (now : ℕ) → Keeps P (status platform owner now)
  unfolding status
  status-Keeps now = Keeps-bind _ _ (Keeps-gets _) (λ pending.
      Keeps-option pending _ _
        (Keeps-bind _ _ (Keeps-gets _)
          (λ latest. Keeps-option latest _ _ (Keeps-pure _) (λ r. Keeps-pure _)))
        (λ r.
          Keeps-if (is_intent r.phase && not (is_some r.receipt)) _ _
            (mark_and_read-Keeps r.request_id now) (Keeps-pure _)))

module _ (platform : Platform) (owner : Owner) where
  validate_actual-KeepsOrder :
      (actual : RuntimeStatus) (installation : String)
      → KeepsOrder (validate_actual platform owner actual installation)
  unfolding validate_actual
  validate_actual-KeepsOrder actual installation = search (owner_rules) depth 8

  pub activation_callback-KeepsOrder :
      (request installation : String) (q : ActivationCall) (now : ℕ)
      → KeepsOrder (activation_callback platform owner request installation q now)
  unfolding activation_callback
  activation_callback-KeepsOrder request installation (persists_intent actual scope) now =
      search (owner_rules) depth 8
  activation_callback-KeepsOrder request installation (persists none receipt) now =
      search (owner_rules) depth 8
  activation_callback-KeepsOrder request installation (persists (some st) receipt) now =
      search (owner_rules, validate_actual-KeepsOrder) depth 8

  reconciliation_callback-KeepsOrder :
      (request : String) (r : Operation) (q : ReconciliationCall) (now : ℕ)
      → KeepsOrder (reconciliation_callback platform owner request r q now)
  unfolding reconciliation_callback
  reconciliation_callback-KeepsOrder request r q now =
      search (owner_rules, validate_actual-KeepsOrder) depth 14

  status-KeepsOrder : (now : ℕ) → KeepsOrder (status platform owner now)
  status-KeepsOrder = status-Keeps mark-KeepsOrder platform owner

  record_outcome-KeepsOrder :
      (request : String) (document : Option Receipt) (now : ℕ)
      → KeepsOrder (record_outcome platform owner request document now)
  unfolding record_outcome
  record_outcome-KeepsOrder request none now = search (owner_rules) depth 8
  record_outcome-KeepsOrder request (some document) now = search (owner_rules) depth 8

  recover-KeepsOrder :
      (request installation : String) (e : Raised) (now : ℕ)
      → KeepsOrder (recover platform owner request installation e now)
  unfolding recover
  recover-KeepsOrder request installation e now =
      search (owner_rules, record_outcome-KeepsOrder) depth 8

  reported-KeepsOrder :
      (request installation : String) (now : ℕ) (e : Raised)
      → KeepsOrder (reported platform owner request installation now e)
  unfolding reported
  reported-KeepsOrder request installation now e =
      Keeps-bind _ _ (recover-KeepsOrder request installation e now) (λ persisted. Keeps-raise _)

  activation_failed-KeepsOrder :
      (request installation : String) (now : ℕ) (e : Raised)
      → KeepsOrder (activation_failed platform owner request installation now e)
  unfolding activation_failed
  activation_failed-KeepsOrder request installation now e =
      Keeps-if (is_owner_failure e) _ _ (Keeps-raise _)
        (reported-KeepsOrder request installation now e)

  run_activation-KeepsOrder :
      (request installation : String) (script : Script ActivationCall) (clock : Clock)
      → KeepsOrder (run_activation platform owner request installation script clock)
  unfolding run_activation
  run_activation-KeepsOrder request installation script clock =
      except-KeepsOrder _ (activation_failed-KeepsOrder request installation clock.recovered_at) _ (
        Keeps-bind _ _
          (run_script-KeepsOrder _ (activation_callback-KeepsOrder request installation) script)
          (λ done. complete-KeepsOrder request clock.completed_at))

  reconciliation_failed-KeepsOrder :
      (e : Raised) → KeepsOrder (reconciliation_failed platform owner e)
  unfolding reconciliation_failed
  reconciliation_failed-KeepsOrder e =
      Keeps-if (is_owner_failure e) _ _ (Keeps-raise _) (Keeps-raise _)

  run_reconciliation-KeepsOrder :
      (request : String) (r : Operation) (script : Script ReconciliationCall) (now : ℕ)
      → KeepsOrder (run_reconciliation platform owner request r script now)
  unfolding run_reconciliation
  run_reconciliation-KeepsOrder request r script now =
      except-KeepsOrder _ reconciliation_failed-KeepsOrder _ (
        Keeps-bind _ _
          (run_script-KeepsOrder _ (reconciliation_callback-KeepsOrder request r) script)
          (λ done. complete-KeepsOrder request now))

  activate_again-KeepsOrder :
      (request installation : String) (r : Operation) (now : ℕ)
      → KeepsOrder (activate_again platform owner request installation r now)
  unfolding activate_again check_scope
  activate_again-KeepsOrder request installation r now = search (owner_rules) depth 14

  activate_valid-KeepsOrder :
      (request installation : String) (script : Script ActivationCall) (clock : Clock)
      → KeepsOrder (activate_valid platform owner request installation script clock)
  unfolding activate_valid
  activate_valid-KeepsOrder request installation script clock =
      Keeps-bind _ _ (Keeps-gets _) (λ existing.
        Keeps-option existing _ _
          (Keeps-bind _ _ (Keeps-gets _) (λ pending.
            Keeps-if (is_some pending) _ _ (Keeps-raise _) (
              Keeps-bind _ _ (run_activation-KeepsOrder request installation script clock)
                (λ done. status-KeepsOrder clock.read_at))))
          (λ r. activate_again-KeepsOrder request installation r clock.recovered_at))

  activate-KeepsOrder :
      (request installation : String) (script : Script ActivationCall) (clock : Clock)
      → KeepsOrder (activate platform owner request installation script clock)
  unfolding activate
  activate-KeepsOrder request installation script clock =
      search (owner_rules, activate_valid-KeepsOrder) depth 8

  reconcile-KeepsOrder :
      (request : String) (client : Receipt → Script ReconciliationCall) (clock : Clock)
      → KeepsOrder (reconcile platform owner request client clock)
  unfolding reconcile check_scope
  reconcile-KeepsOrder request client clock = Keeps-bind _ _ (Keeps-gets _) (λ existing.
      Keeps-option existing _ _ (Keeps-raise _) (λ r.
        Keeps-bind _ _ (require-KeepsOrder _ _ _) (λ scoped.
          Keeps-option r.receipt _ _ (Keeps-raise _) (λ document.
            Keeps-option (platform.rebuild document) _ _ (Keeps-raise _) (λ receipt.
              Keeps-bind _ _
                (run_reconciliation-KeepsOrder request r (client receipt) clock.completed_at)
                (λ done. status-KeepsOrder clock.read_at))))))

-- The calls that reach an owner, each with what the client does in it.
pub data OwnerCall : Type 0 where
  activates : String → String → Script ActivationCall → Clock → OwnerCall
  reconciles : String → (Receipt → Script ReconciliationCall) → Clock → OwnerCall
  reads_status : ℕ → OwnerCall

module _ (platform : Platform) where
  abbrev pub perform : Owner → OwnerCall → Store → Store
  perform owner (activates request installation script clock) s =
      (activate platform owner request installation script clock s).1
  perform owner (reconciles request client clock) s =
      (reconcile platform owner request client clock s).1
  perform owner (reads_status now) s = (status platform owner now s).1

  -- Calls of any owners of one store.
  abbrev pub run : List (Owner × OwnerCall) → Store → Store
  run [] s = s
  run ((owner, call) ∷ rest) s = run rest (perform owner call s)

  perform-IsOrderly :
      (owner : Owner) (call : OwnerCall) (s : Store)
      → IsOrderly s.operations
      → IsOrderly (perform owner call s).operations
  perform-IsOrderly owner (activates request installation script clock) s o =
      (activate-KeepsOrder platform owner request installation script clock).at s o
  perform-IsOrderly owner (reconciles request client clock) s o =
      (reconcile-KeepsOrder platform owner request client clock).at s o
  perform-IsOrderly owner (reads_status now) s o = (status-KeepsOrder platform owner now).at s o

  -- Whatever the client does in each call, and whether the calls return or raise: after any calls of
  -- any owners on an orderly store, no two operations have one request id, no two operations that are
  -- pending have one binding, and every completed operation has its receipt.
  pub run-IsOrderly :
      (owner_calls : List (Owner × OwnerCall)) (s : Store)
      → IsOrderly s.operations
      → IsOrderly (run owner_calls s).operations
  run-IsOrderly [] s o = o
  run-IsOrderly ((owner, call) ∷ rest) s o =
      run-IsOrderly rest (perform owner call s) (perform-IsOrderly owner call s o)
