-- ===== src/Product/Owner/Methods.antt =====
-- `PackageRuntimeOwner.__init__` to `_public_state`.
--
-- `client.source_id` is the one that `__init__` requires.
pub mod Reconciliation
pub mod Keeping
pub mod Soundness
pub mod Outcome
pub mod Activation
use cyrene_reactor.Product.Store.Operations.{
  commit_package_runtime_outcome, persist_package_runtime_receipt, create_package_runtime_intent,
  latest_package_runtime_operation, pending_package_runtime_operation, package_runtime_operation,
  complete_package_runtime_operation, mark_package_runtime_unknown,
}
use cyrene_reactor.Prelude.Keys.{string_eq, ◌==◌}
use cyrene_reactor.Product.Receipts.{RuntimeStatus, Value, Receipt}
use cyrene_reactor.Product.Owner.Texts.{
  control_url_from_connection_ref, has_ink, safe_code, is_safe_request_id, is_binding_id, Url,
}
use cyrene_reactor.Product.Store.{Operation, Store}
use cyrene_reactor.Product.Exec.{lift, pure, gets, ◌>>◌, raise, ◌>>=◌, err, ok, Result, Exec}
use cyrene_reactor.Product.Errors.{owner_failure, Raised}
use cyrene_reactor.Prelude.{
  is_some, false, ◌&&◌, not, true, some, none, if◌then◌else◌, Bool, ℕ, Option, String,
}
use cyrene_reactor.Product.Owner.{
  commit_package_runtime_outcome, persist_package_runtime_receipt, persists, not_configured,
  receipt_of, create_package_runtime_intent, control_url_from_connection_ref, state_of,
  latest_package_runtime_operation, unknown_state, code_of, is_intent, is_scope, package_id,
  scope_matches, has_ink, pending_package_runtime_operation, safe_code, package_runtime_operation,
  same_value, is_safe_request_id, is_completed, complete_package_runtime_operation,
  mark_package_runtime_unknown, fail, is_value, ◌==◌, persists_intent, text, PublicState, require,
  ReconciliationCall, ActivationCall, StatusAnswer, pending_receipt_document,
  receipt_to_private_document, RuntimeStatus, Value, Operation, Receipt, is_binding_id, Url, Store,
  ℕ, Exec, Raised, Option, String, Script, calls, finishes, throws, run_script, Clock,
}

-- `except PackageRuntimeOwnerFailure`
abbrev pub is_owner_failure : Raised → Bool
is_owner_failure (owner_failure code n) = true
is_owner_failure _ = false

-- Python's `str.isalnum` and `str.isspace` of a code point and `urlsplit`, and the SDK's constructor
-- of a receipt from a stored document (`none` where it raises).
pub record Platform : Type 0 where
  pub isalnum : ℕ → Bool
  pub isspace : ℕ → Bool
  pub urlsplit : String → Option Url
  pub rebuild : Receipt → Option Receipt

pub record Owner : Type 0 where
  pub binding_id : String
  pub source_id : String

-- `__init__`, given the client's `source_id`.
pub create_owner : Option String → String → Result Owner
create_owner source binding =
    if is_binding_id binding
    then elim source [
      | none ↦ err (owner_failure "PACKAGE_RUNTIME_SOURCE_MISMATCH" 503)
      | some id ↦
          if id == "cyrene-reactor"
          then ok (record { binding_id = binding; source_id = id })
          else err (owner_failure "PACKAGE_RUNTIME_SOURCE_MISMATCH" 503)
    ]
    else err (owner_failure "PACKAGE_RUNTIME_BINDING_NOT_CONFIGURED" 503)

-- try: ... except Exception as exc: ...
module _ {A : Type 0} where
  abbrev pub handled : (Raised → Exec Store A) → Result A × Store → Result A × Store
  handled handler (ok a, s) = (ok a, s)
  handled handler (err e, s) = handler e s

  unfoldable pub except : Exec Store A → (Raised → Exec Store A) → Exec Store A
  except body handler s = handled handler (body s)

module _ (platform : Platform) (owner : Owner) where
  -- `_check_scope`
  pub check_scope : Operation → String → Exec Store (Unit {0})
  check_scope r installation =
      require
        (r.binding_id == owner.binding_id
          && r.package_id == package_id
          && r.installation_id == installation
          && r.operation == "activate")
        "PACKAGE_RUNTIME_REQUEST_SCOPE_CONFLICT" 409

  -- `_public_state`
  pub public_state : Operation → PublicState
  public_state r = record {
    binding_id = owner.binding_id;
    request_id = r.request_id;
    installation_id = r.installation_id;
    phase = r.phase;
    blocked = not (is_completed r.phase);
    runtime_state = elim r.runtime_status [ none ↦ Value.other | some status ↦ status.state ];
  }

  abbrev is_reference : Value → Bool
  is_reference (text ref) =
      not (ref == "") && is_some (control_url_from_connection_ref platform.urlsplit ref)
  is_reference _ = false

  abbrev is_nonempty : Value → Bool
  is_nonempty (text t) = not (t == "")
  is_nonempty _ = false

  -- `_validate_actual`
  pub validate_actual : RuntimeStatus → String → Exec Store (Unit {0})
  validate_actual status installation =
      require
        (is_value status.binding_id owner.binding_id
          && is_value status.installation_id installation
          && is_value status.state "RUNNING"
          && is_nonempty status.connection_ref)
        "PACKAGE_RUNTIME_ACTUAL_STATE_MISMATCH" 409
      >> require (is_reference status.connection_ref) "PACKAGE_RUNTIME_CONNECTION_REF_INVALID" 409

  -- `persist_intent` and `persist` of `_activate_locked`.
  pub activation_callback : String → String → ActivationCall → ℕ → Exec Store (Unit {0})
  unfolding validate_actual receipt_to_private_document
  activation_callback request installation (persists_intent actual scope) now =
      if actual == request && is_scope scope owner.binding_id installation
      then create_package_runtime_intent request owner.binding_id package_id installation now
        >> pure tt
      else fail "PACKAGE_RUNTIME_REQUEST_SCOPE_CONFLICT" 409
  activation_callback request installation (persists none receipt) now =
      fail "PACKAGE_RUNTIME_OUTCOME_INVALID" 502
  activation_callback request installation (persists (some status) receipt) now = do
    validate_actual status installation
    document ← lift (receipt_to_private_document receipt)
    commit_package_runtime_outcome request status document now

  abbrev is_still_intent : Option Operation → Bool
  is_still_intent none = false
  is_still_intent (some r) = is_intent r.phase

  -- The exception's receipt is persisted, or the outcome is unknown.
  record_outcome : String → Option Receipt → ℕ → Exec Store Bool
  record_outcome request (some document) now =
      persist_package_runtime_receipt request document now >> pure true
  record_outcome request none now = mark_package_runtime_unknown request now >> pure false

  -- `persisted_receipt`; a phase other than INTENT is left as it is.
  pub recover : String → String → Raised → ℕ → Exec Store Bool
  unfolding pending_receipt_document record_outcome
  recover request installation error now = do
    current ← gets (λ s. package_runtime_operation s request)
    if is_still_intent current
        then record_outcome request
            (pending_receipt_document (receipt_of error) request owner.source_id owner.binding_id
              installation)
            now
        else pure false

  -- What is raised for any other exception than the owner's own.
  reported : String → String → ℕ → Raised → Exec Store (Unit {0})
  unfolding recover
  reported request installation now error = do
    persisted ← recover request installation error now
    fail (safe_code (code_of error "PACKAGE_RUNTIME_ACTIVATION_FAILED"))
        (if persisted then 409 else 502)

  pub activation_failed : String → String → ℕ → Raised → Exec Store (Unit {0})
  unfolding reported
  activation_failed request installation now error =
      if is_owner_failure error then raise error else reported request installation now error

  mark_and_read : String → ℕ → Exec Store StatusAnswer
  unfolding public_state
  mark_and_read request now = do
    mark_package_runtime_unknown request now
    marked ← gets (λ s. package_runtime_operation s request)
    elim marked [ none ↦ pure unknown_state | some m ↦ pure (state_of (public_state m)) ]

  -- `status`
  unfoldable pub status : ℕ → Exec Store StatusAnswer
  unfolding public_state mark_and_read
  status now = do
    pending ← gets (λ s. pending_package_runtime_operation s owner.binding_id)
    elim pending [
      | none ↦ do
        latest ← gets (λ s. latest_package_runtime_operation s owner.binding_id)
        elim latest [ none ↦ pure not_configured | some r ↦ pure (state_of (public_state r)) ]
      | some r ↦
          (if is_intent r.phase && not (is_some r.receipt)
            then mark_and_read r.request_id now
            else pure (state_of (public_state r)))
    ]

  -- The client's call and the durable completion.
  pub run_activation : String → String → Script ActivationCall → Clock → Exec Store (Unit {0})
  unfolding activation_callback activation_failed
  run_activation request installation script clock =
      except
        (run_script (activation_callback request installation) script
          >> complete_package_runtime_operation request clock.completed_at)
        (activation_failed request installation clock.recovered_at)

  -- A request that the store knows.
  pub activate_again : String → String → Operation → ℕ → Exec Store StatusAnswer
  unfolding check_scope public_state
  activate_again request installation r now = do
    check_scope r installation
    if is_completed r.phase
        then pure (state_of (public_state r))
        else if is_some r.receipt
        then fail "PACKAGE_RUNTIME_RECONCILE_REQUIRED" 409
        else if is_intent r.phase
        then mark_package_runtime_unknown request now >> fail "PACKAGE_RUNTIME_OUTCOME_UNKNOWN" 409
        else fail "PACKAGE_RUNTIME_OUTCOME_UNKNOWN" 409

  -- A request whose texts are fine.
  pub activate_valid : String → String → Script ActivationCall → Clock → Exec Store StatusAnswer
  unfolding run_activation activate_again
  activate_valid request installation script clock = do
    existing ← gets (λ s. package_runtime_operation s request)
    elim existing [
      | some r ↦ activate_again request installation r clock.recovered_at
      | none ↦ do
        pending ← gets (λ s. pending_package_runtime_operation s owner.binding_id)
        if is_some pending
            then fail "PACKAGE_RUNTIME_BINDING_OPERATION_PENDING" 409
            else run_activation request installation script clock >> status clock.read_at
    ]

  -- `activate`
  unfoldable pub activate :
      String → String → Script ActivationCall → Clock → Exec Store StatusAnswer
  unfolding activate_valid
  activate request installation script clock =
      require (is_safe_request_id platform.isalnum request) "PACKAGE_RUNTIME_REQUEST_ID_INVALID" 422
      >> require (has_ink platform.isspace installation) "PACKAGE_RUNTIME_INSTALLATION_ID_REQUIRED"
          422
      >> activate_valid request installation script clock
