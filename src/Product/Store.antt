-- ===== src/Product/Store.antt =====
-- product/src/cyrene_reactor_product/store.py, class `ReactorStore`: its tables.
--
-- A table is the list of its rows in `rowid` order (Prelude/Table). A JSON document is the value
-- that it was made from: pydantic reads back what it wrote. `with self._connection` is
-- `transaction`. The lock makes each method one step.
pub mod Deployments
pub mod Imports
pub mod Drafts
pub mod Timeline
pub mod Operations
pub mod Soundness
use cyrene_reactor.Product.Receipts.{Receipt, RuntimeStatus}
use cyrene_reactor.Prelude.{ℕ, String, Option, List, [], Bool, ◌≡◌}
use cyrene_reactor.Product.Domain.{
  Deployment, Endpoint, DeploymentDraft, ModelImport, DeploymentPhase, Diagnostic,
}

-- `idempotency`, with the primary key (scope, key).
pub record Replay : Type 0 where
  pub scope : String
  pub key : String
  pub request_hash : String
  pub resource_id : ℕ

pub record Evidence : Type 0 where
  pub deployment_id : ℕ
  pub execution_ref : String

pub record ImportScope : Type 0 where
  pub id : ℕ
  pub organization_id : String
  pub workspace_id : String

pub record DeploymentEvent : Type 0 where
  pub deployment_id : ℕ
  pub sequence : ℕ
  pub phase : DeploymentPhase
  pub message : String
  pub occurred_at : ℕ
  pub failure_code : Option String

pub record DiagnosticRow : Type 0 where
  pub deployment_id : ℕ
  pub record_index : ℕ
  pub sequence : ℕ
  pub document : Diagnostic

pub record Cursor : Type 0 where
  pub deployment_id : ℕ
  pub runtime_sequence : ℕ

pub data OperationPhase : Type 0 where
  intent unknown receipt_pending completed : OperationPhase

-- `package_runtime_owner_operations`; a JSON text is a number that stands for it.
pub record Operation : Type 0 where
  pub request_id : String
  pub binding_id : String
  pub package_id : String
  pub installation_id : String
  pub operation : String
  pub phase : OperationPhase
  pub runtime_status : Option RuntimeStatus
  pub receipt : Option Receipt
  pub updated_at : ℕ

pub record Store : Type 0 where
  pub deployments : List Deployment
  pub endpoints : List Endpoint
  pub drafts : List DeploymentDraft
  pub evidence : List Evidence
  pub model_imports : List ModelImport
  pub import_scopes : List ImportScope
  pub idempotency : List Replay
  pub events : List DeploymentEvent
  pub diagnostics : List DiagnosticRow
  pub cursors : List Cursor
  pub operations : List Operation

abbrev pub deployment_key : Deployment → ℕ
deployment_key r = r.id

abbrev pub endpoint_key : Endpoint → ℕ
endpoint_key r = r.id

abbrev pub draft_key : DeploymentDraft → ℕ
draft_key r = r.id

abbrev pub evidence_key : Evidence → ℕ
evidence_key r = r.deployment_id

abbrev pub import_key : ModelImport → ℕ
import_key r = r.id

abbrev pub scope_key : ImportScope → ℕ
scope_key r = r.id

abbrev pub replay_key : Replay → String × String
replay_key r = (r.scope, r.key)

abbrev pub diagnostic_key : DiagnosticRow → ℕ × ℕ
diagnostic_key r = (r.deployment_id, r.record_index)

abbrev pub cursor_key : Cursor → ℕ
cursor_key r = r.deployment_id

abbrev pub operation_key : Operation → String
operation_key r = r.request_id

-- A new database.
abbrev pub empty : Store
empty = record {
  deployments = [];
  endpoints = [];
  drafts = [];
  evidence = [];
  model_imports = [];
  import_scopes = [];
  idempotency = [];
  events = [];
  diagnostics = [];
  cursors = [];
  operations = [];
}
