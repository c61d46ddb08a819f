-- ===== src/Product/Owner/Examples.antt =====
-- An owner of the binding "local" on a client that persists the intent and the outcome of one
-- activation, and the admission of the runtime that it leaves.
use cyrene_reactor.Prelude.Table
use cyrene_reactor.Product.Owner.Texts.{
  is_safe_request_id, has_ink, safe_code, is_sha256, is_package_version, required_string,
  is_binding_id, decimal, IsPortOf, control_url-IsPortOf, control_url_from_connection_ref, Url,
}
use cyrene_reactor.Product.Owner.Methods.{except, Owner, Platform, activate, status}
use cyrene_reactor.Product.Exec.{◌>>=◌, transaction, err, ok, Result}
use cyrene_reactor.Product.Errors.{binding_failure, sdk_error, owner_failure}
use cyrene_reactor.Product.Store.Operations.{
  complete_package_runtime_operation, commit_package_runtime_outcome,
  persist_package_runtime_receipt, mark_package_runtime_unknown, create_package_runtime_intent,
  latest_package_runtime_operation, pending_package_runtime_operation, package_runtime_operation,
}
use cyrene_reactor.Prelude.Keys.{nat_eq, ◌==◌}
use cyrene_reactor.Product.Owner.{
  complete_package_runtime_operation, commit_package_runtime_outcome,
  persist_package_runtime_receipt, mark_package_runtime_unknown, create_package_runtime_intent,
  latest_package_runtime_operation, run_script, finishes, throws, persists,
  pending_package_runtime_operation, persists_intent, owner_failure, OperationPhase, calls, boolean,
  package_id, number, package_runtime_operation, state_of, Store, ActivationCall, text, Scope, ◌==◌,
  StatusAnswer, Clock, Script,
}
use cyrene_reactor.Product.Receipts.{Installation, Value, RuntimeStatus, Receipt}
use cyrene_reactor.Prelude.{
  false, [], ◌||◌, refl, none, ◌∷◌, true, Option, some, List, is_some, ltb, ℕ, ◌≡◌, String,
}
use cyrene_reactor.Product.Owner.Methods.Soundness.{
  OwnerCall, run, run-IsOrderly, activates, reads_status,
}
use cyrene_reactor.Product.Owner.Methods.Activation.{activate-asks_once, activate-IsDone}
use cyrene_reactor.Product.Owner.Admission.{
  Authority, Engine, read, package_runtime_engine, Client, Call, call_authority, Metadata,
  call_runtime_status, call_get_installation, request_metadata,
}
use cyrene_reactor.Product.Owner.Admission.Soundness.{IsAdmitted, package_runtime_engine-IsAdmitted}
use cyrene_reactor.Product.Store.Operations.Orderly.{IsOrderly}
use cyrene_reactor.Product.Store.{OperationPhase, Store, Operation, empty}

abbrev split : String → Option Url
split ref = some (record {
  scheme = "cyrene-http-v1";
  hostname = some "127.0.0.1";
  port = some 8000;
  username = none;
  password = none;
  path = "";
  query = "";
  fragment = "";
})

abbrev reference : String
reference = "cyrene-http-v1://127.0.0.1:8000"

reference_opens : control_url_from_connection_ref split reference ≡ some "http://127.0.0.1:8000"
unfolding control_url_from_connection_ref decimal
reference_opens = refl

control_url-IsPortOf_example : (port : ℕ) × IsPortOf reference "http://127.0.0.1:8000" port
control_url-IsPortOf_example =
    control_url-IsPortOf split reference "http://127.0.0.1:8000" reference_opens

abbrev platform : Platform
platform = record {
  isalnum = λ c. ltb 47 c;
  isspace = λ c. c == 32;
  urlsplit = split;
  rebuild = λ r. some r;
}

abbrev owner : Owner
owner = record { binding_id = "local"; source_id = "cyrene-reactor" }

abbrev scope : Scope
scope = record {
  binding_id = "local";
  package_id = package_id;
  installation_id = "inst-1";
  operation = "activate";
}

abbrev receipt : Receipt
receipt = record {
  is_dataclass = true;
  request_id = text "r1";
  source_id = text "cyrene-reactor";
  protocol_version = text "cyrene.runtime-maintenance.binding-operations.v1";
  catalog_generation = number 1;
  scope = some scope;
  operation_token = text "t";
  gate_generation = number 1;
  already_in_flight = boolean false;
  already_completed = boolean false;
}

abbrev running_status : RuntimeStatus
running_status = record {
  binding_id = text "local";
  installation_id = text "inst-1";
  state = text "RUNNING";
  connection_ref = text reference;
  generation = number 3;
}

abbrev good_client : Script ActivationCall
good_client =
    calls (persists_intent "r1" scope) 1
      (λ intent. calls (persists (some running_status) receipt) 2 (λ outcome. finishes))

-- It raises with a pending receipt after the intent.
abbrev failing_client : Script ActivationCall
failing_client =
    calls (persists_intent "r1" scope) 1
      (λ intent. throws (sdk_error (some "TIMEOUT") (some receipt)))

abbrev clock : Clock
clock = record { completed_at = 3; recovered_at = 4; read_at = 5 }

abbrev activated : Result StatusAnswer × Store
activated = activate platform owner "r1" "inst-1" good_client clock empty

abbrev answer : StatusAnswer
answer = state_of (record {
  binding_id = "local";
  request_id = "r1";
  installation_id = "inst-1";
  phase = OperationPhase.completed;
  blocked = false;
  runtime_state = text "RUNNING";
})

activation_answers : activated ≡ (ok answer, activated.1)
unfolding activate ◌>>=◌ is_safe_request_id has_ink Table.get transaction run_script except status
    package_runtime_operation pending_package_runtime_operation latest_package_runtime_operation
    create_package_runtime_intent mark_package_runtime_unknown persist_package_runtime_receipt
    commit_package_runtime_outcome complete_package_runtime_operation safe_code
    control_url_from_connection_ref decimal
activation_answers = refl

empty-IsOrderly : IsOrderly empty.operations
unfolding IsOrderly
empty-IsOrderly = tt

activate-IsDone_example :
    (r : Operation) × (package_runtime_operation activated.1 "r1" ≡ some r)
    × (is_some r.receipt ≡ true)
    × (r.phase ≡ OperationPhase.completed)
activate-IsDone_example =
    activate-IsDone platform owner "r1" "inst-1" good_client clock empty answer activated.1
      empty-IsOrderly activation_answers

failure_is_refused :
    (activate platform owner "r1" "inst-1" failing_client clock empty).0
    ≡ err (owner_failure "TIMEOUT" 409)
unfolding activate ◌>>=◌ is_safe_request_id has_ink Table.get transaction run_script except status
    package_runtime_operation pending_package_runtime_operation latest_package_runtime_operation
    create_package_runtime_intent mark_package_runtime_unknown persist_package_runtime_receipt
    commit_package_runtime_outcome complete_package_runtime_operation safe_code
    control_url_from_connection_ref decimal
failure_is_refused = refl

activated_is_known :
    (is_some (package_runtime_operation activated.1 "r1")
      || is_some (pending_package_runtime_operation activated.1 "local"))
    ≡ true
unfolding activate ◌>>=◌ is_safe_request_id has_ink Table.get transaction run_script except status
    package_runtime_operation pending_package_runtime_operation latest_package_runtime_operation
    create_package_runtime_intent mark_package_runtime_unknown persist_package_runtime_receipt
    commit_package_runtime_outcome complete_package_runtime_operation safe_code
    control_url_from_connection_ref decimal
activated_is_known = refl

activate-asks_once_example :
    activate platform owner "r1" "inst-1" good_client clock activated.1
    ≡ activate platform owner "r1" "inst-1" failing_client clock activated.1
activate-asks_once_example =
    activate-asks_once platform owner "r1" "inst-1" good_client failing_client clock activated.1
      activated_is_known

abbrev history : List (Owner × OwnerCall)
history =
    (owner, activates "r1" "inst-1" failing_client clock)
    ∷ (owner, reads_status 9)
    ∷ (owner, activates "r2" "inst-1" good_client clock)
    ∷ []

run-IsOrderly_example : IsOrderly (run platform history empty).operations
run-IsOrderly_example = run-IsOrderly platform history empty empty-IsOrderly

abbrev digest : Value
digest = text "sha256:0123456789abcdef0123456789abcdef0123456789abcdef0123456789abcdef"

abbrev authority : Authority
authority = record {
  authority = text "platform_package_runtime";
  protocol_version = text "cy-package-runtime.control.v1";
  catalog_generation = number 7;
  capabilities = some (text "read" ∷ []);
}

abbrev installation : Installation
installation = record {
  installation_id = text "inst-1";
  package_id = text package_id;
  package_version = text "0.1.0";
  state = text "INSTALLED";
  record_version = number 1;
  capabilities = some (text "execution.engine.v1" ∷ []);
  has_verification = true;
  manifest_digest = digest;
  artifact_digest = digest;
  archive_digest = digest;
}

abbrev metadata : Metadata
metadata =
    ("package_id", text package_id)
    ∷ ("package_version", text "0.1.0")
    ∷ ("capability", text "execution.engine.v1")
    ∷ ("interface_version", text "1")
    ∷ ("transport", text "http")
    ∷ []

abbrev client : Client
client = record {
  source_id = some "cyrene-reactor";
  configured = true;
  opened = true;
  on_authority = λ calls. read authority;
  generation = λ calls. number 7;
  on_status = λ calls. read running_status;
  on_installation = λ calls. read installation;
  on_metadata = λ calls. read metadata;
}

abbrev engine : Engine
engine = record { binding_id = "local"; control_url = "http://127.0.0.1:8000" }

abbrev admission_calls : List Call
admission_calls =
    call_authority
    ∷ call_runtime_status
    ∷ request_metadata
    ∷ call_get_installation "inst-1"
    ∷ call_runtime_status
    ∷ call_authority
    ∷ []

engine_is_admitted : package_runtime_engine split "local" client [] ≡ (ok engine, admission_calls)
unfolding package_runtime_engine is_binding_id required_string is_package_version is_sha256
    control_url_from_connection_ref decimal ◌>>=◌
engine_is_admitted = refl

package_runtime_engine-IsAdmitted_example :
    (status : RuntimeStatus) × (latest : RuntimeStatus) × (installation : Installation)
    × (metadata : Metadata) × (id : String) × (version : String) × (generation : ℕ) × IsAdmitted
        "local" client engine admission_calls status latest installation metadata id version
        generation
package_runtime_engine-IsAdmitted_example =
    package_runtime_engine-IsAdmitted split "local" client engine admission_calls engine_is_admitted

-- A client whose status changes its generation once the metadata were asked for.
abbrev restarting : Client
restarting = record client {
  on_status = λ calls. elim calls [
    | request_metadata ∷ _ ↦ read (record running_status { generation = number 8 })
    | _ ↦ read running_status
  ];
}

restart_is_noticed :
    (package_runtime_engine split "local" restarting []).0
    ≡ err (binding_failure "PACKAGE_RUNTIME_RECEIPT_CHANGED")
unfolding package_runtime_engine is_binding_id required_string is_package_version is_sha256
    control_url_from_connection_ref decimal ◌>>=◌
restart_is_noticed = refl
