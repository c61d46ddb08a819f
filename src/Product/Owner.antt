-- ===== src/Product/Owner.antt =====
-- package_runtime_owner.py, class `PackageRuntimeOwner`: the activation of a package on one binding
-- over the durable operations of the store.
--
-- The SDK's client is an interaction: a `Script` says which callbacks the client calls, when, and how
-- it goes on with what a callback returned or raised, so it stands for any client. `Clock` holds the
-- times that the store stamps after the client's call. The lock makes `activate` one step.
pub mod Texts
pub mod Methods
pub mod Admission
mod Examples
use cyrene_reactor.Prelude.Keys.{nat_eq, string_eq, ◌==◌}
use cyrene_reactor.Prelude.{
  is_some, none, some, false, ltb, not, ◌&&◌, true, Option, if◌then◌else◌, Bool, String, ℕ,
}
use cyrene_reactor.Product.Errors.{
  value_error, foreign, owner_failure, binding_failure, sdk_error, Raised,
}
use cyrene_reactor.Product.Exec.{Exec, Result, ok, err, ◌>>=◌, ◌>>◌, gets, pure, raise, lift}
use cyrene_reactor.Product.Receipts.{
  Value, RuntimeStatus, Installation, Scope, Receipt, text, boolean, number,
}
use cyrene_reactor.Product.Store.{Store, Operation, OperationPhase}
use cyrene_reactor.Product.Store.Operations.{
  package_runtime_operation, pending_package_runtime_operation, latest_package_runtime_operation,
  create_package_runtime_intent, mark_package_runtime_unknown, persist_package_runtime_receipt,
  commit_package_runtime_outcome, complete_package_runtime_operation,
}
use Texts.{
  is_safe_request_id, has_ink, safe_code, is_binding_id, control_url_from_connection_ref, Url,
}

-- A client's call: callbacks with a question `Q`, then its return or what it raises.
pub data Script (Q : Type 0) : Type 0 where
  calls : Q → ℕ → (Result (Unit {0}) → Script Q) → Script Q
  finishes : Script Q
  throws : Raised → Script Q

module _ {Q : Type 0} where
  unfoldable pub run_script : (Q → ℕ → Exec Store (Unit {0})) → Script Q → Exec Store (Unit {0})
  run_script callback (calls q now next) s =
      let done = callback q now s in run_script callback (next done.0) done.1
  run_script callback finishes s = (ok tt, s)
  run_script callback (throws error) s = (err error, s)

-- What `activate_and_persist` asks of its callbacks: `persist_intent` with the SDK's scope, and
-- `persist`, whose status may be no mapping.
pub data ActivationCall : Type 0 where
  persists_intent : String → Scope → ActivationCall
  persists : Option RuntimeStatus → Receipt → ActivationCall

-- What `reconcile_binding_operation_and_persist` hands to `reconcile`.
pub record ReconciliationCall : Type 0 where
  pub runtime_status : RuntimeStatus
  pub installation : Installation
  pub broker_receipt : Receipt

pub record PublicState : Type 0 where
  pub binding_id : String
  pub request_id : String
  pub installation_id : String
  pub phase : OperationPhase
  pub blocked : Bool
  pub runtime_state : Value

-- The answer of `status`: a record's public state, or the state without one.
pub data StatusAnswer : Type 0 where
  state_of : PublicState → StatusAnswer
  unknown_state not_configured : StatusAnswer

pub record Clock : Type 0 where
  pub completed_at : ℕ
  pub recovered_at : ℕ
  pub read_at : ℕ

abbrev pub package_id : String
package_id = "cyrene.serving.vllm-runtime"

-- `value == text`, for a field's value.
abbrev pub is_value : Value → String → Bool
is_value (text t) expected = t == expected
is_value (boolean _) expected = false
is_value (number _) expected = false
is_value Value.other expected = false

-- Equality of fields' values; `other` stands for many, and none of them counts as equal.
abbrev pub same_value : Value → Value → Bool
same_value (text a) (text b) = a == b
same_value (number a) (number b) = a == b
same_value (boolean true) (boolean true) = true
same_value (boolean false) (boolean false) = true
same_value _ _ = false

abbrev pub is_scope : Scope → String → String → Bool
is_scope scope binding installation =
    scope.binding_id == binding
    && scope.package_id == package_id
    && scope.installation_id == installation
    && scope.operation == "activate"

abbrev pub is_completed : OperationPhase → Bool
is_completed OperationPhase.completed = true
is_completed _ = false

abbrev pub is_intent : OperationPhase → Bool
is_intent OperationPhase.intent = true
is_intent _ = false

abbrev pub fail : {A : Type 0} → String → ℕ → Exec Store A
fail code status = raise (owner_failure code status)

abbrev pub require : Bool → String → ℕ → Exec Store (Unit {0})
require test code status = if test then pure tt else fail code status

-- `_receipt_to_private_document`
pub receipt_to_private_document : Receipt → Result Receipt
receipt_to_private_document receipt =
    if receipt.is_dataclass && is_some receipt.scope
    then ok receipt
    else err (owner_failure "PACKAGE_RUNTIME_RECEIPT_INVALID" 502)

abbrev is_token : Value → Bool
is_token (text t) = not (t == "")
is_token (boolean _) = false
is_token (number _) = false
is_token Value.other = false

abbrev is_boolean : Value → Bool
is_boolean (boolean _) = true
is_boolean (text _) = false
is_boolean (number _) = false
is_boolean Value.other = false

abbrev is_false : Value → Bool
is_false (boolean b) = not b
is_false (text _) = false
is_false (number _) = false
is_false Value.other = false

abbrev is_positive : Value → Bool
is_positive (number n) = ltb 0 n
is_positive (text _) = false
is_positive (boolean _) = false
is_positive Value.other = false

abbrev pub scope_matches : Option Scope → String → String → Bool
scope_matches none binding installation = false
scope_matches (some scope) binding installation = is_scope scope binding installation

pub is_pending_receipt : Receipt → String → String → String → String → Bool
is_pending_receipt receipt request source binding installation =
    receipt.is_dataclass
    && is_value receipt.request_id request
    && is_value receipt.source_id source
    && scope_matches receipt.scope binding installation
    && is_token receipt.operation_token
    && is_boolean receipt.already_in_flight
    && is_false receipt.already_completed
    && is_positive receipt.catalog_generation
    && is_positive receipt.gate_generation
    && is_value receipt.protocol_version "cyrene.runtime-maintenance.binding-operations.v1"

-- `_pending_receipt_document` of the exception's attribute `pending_binding_operation`.
pub pending_receipt_document : Option Receipt → String → String → String → String → Option Receipt
unfolding is_pending_receipt
pending_receipt_document none request source binding installation = none
pending_receipt_document (some receipt) request source binding installation =
    if is_pending_receipt receipt request source binding installation then some receipt else none

-- An exception's attributes, as the handlers read them.
abbrev pub receipt_of : Raised → Option Receipt
receipt_of (sdk_error code receipt) = receipt
receipt_of _ = none

abbrev pub code_of : Raised → String → String
code_of (sdk_error (some code) receipt) default = code
code_of (binding_failure code) default = code
code_of _ default = default
