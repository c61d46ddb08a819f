-- ===== src/Product/Service.antt =====
-- product/src/cyrene_reactor_product/service.py, class `ReactorService`: what its commands share.
--
-- The state is the store, the log of what was asked of the serving engines and of the activity
-- broker (newest first), and how often the clock was read and an id was drawn. The engines, the
-- broker, the clock, the ids and the hashes are a `Host`: an engine's answer is a function of the
-- log, so it may depend on all that has happened.
pub mod Launch
pub mod Stopping
pub mod Reading
pub mod Creating
pub mod Importing
pub mod Diagnostics
pub mod Soundness
pub mod Runs
pub mod Samples
use Prim.Native.String
use cyrene_reactor.Prelude.{
  ℕ, ◌+◌, String, Option, none, some, List, [], ◌∷◌, Bool, true, false, if◌then◌else◌, not,
}
use cyrene_reactor.Prelude.Keys.{◌==◌, string_eq}
use cyrene_reactor.Prelude.Table
use cyrene_reactor.Product.Domain.{
  ArtifactRef, ModelVersion, ModelComposition, NodeRef, EngineHandle, EngineObservation, Deployment,
  Endpoint, Diagnostic, DeploymentPhase, CreateDeploymentRequest, CreateModelImportRequest,
  ModelImportResult, is_full_model,
}
use cyrene_reactor.Product.Errors.{
  Code, Detail, ReactorProductError, ServingEngineFailure, Raised, product_error, engine_failure,
  product, value_error, integrity_error, foreign, owner_failure, binding_failure, sdk_error,
}
use cyrene_reactor.Product.Exec.{
  Result, ok, err, Exec, pure, raise, lift, gets, modify, ◌>>=◌, ◌>>◌,
}
use cyrene_reactor.Product.Store.{Store, DeploymentEvent}
use cyrene_reactor.Product.Store.Imports.{TaskId, TaskState}
use cyrene_reactor.Product.Store.Deployments.{get_deployment, get_endpoint}
use cyrene_reactor.Product.Store.Timeline.{append_deployment_event, append_deployment_diagnostics}

pub data Keyword : Type 0 where
  start_keyword inspect_keyword stop_keyword : Keyword

pub data Note : Type 0 where
  admit transition : TaskState → Note
  complete : Note

-- One thing that the service asked for.
pub data Call : Type 0 where
  prepare : ℕ → Call
  start : ℕ → ArtifactRef → Option NodeRef → Option ModelVersion → Call
  verify_served_model : ℕ → EngineHandle → Call
  inspect stop : String → String → ℕ → String → Option ModelVersion → Call
  import_model : CreateModelImportRequest → Call
  diagnostics : String → ℕ → ℕ → Call
  activity : Note → TaskId → Call

-- What a runtime reports of its output, read with `record.get` and `str`.
pub record RuntimeRecord : Type 0 where
  pub timestamp : String
  pub level : String
  pub stream : String
  pub code : Option String
  pub message : String
  pub request_id : Option String
  pub operation_id : Option String
  pub truncated : Bool

-- `none` is an item that is no object, and a `nextSequence` that is no integer.
pub record RuntimePage : Type 0 where
  pub items : List (Option RuntimeRecord)
  pub diagnostics_degraded : Bool
  pub next_sequence : Option ℕ

-- `ServingExecutionPort`; `accepts` says whether a method takes the keyword `model_version`.
pub record Engine : Type 0 where
  pub accepts : Keyword → Bool
  pub on_prepare : List Call → Result (Option EngineHandle)
  pub on_start : List Call → Result EngineHandle
  pub on_verify : Option (List Call → Result (Unit {0}))
  pub on_inspect : List Call → Result EngineObservation
  pub on_stop : List Call → Result (Unit {0})
  pub on_import : List Call → Result ModelImportResult
  pub on_diagnostics : Option (List Call → Result (Option RuntimePage))

-- The broker's SDK may refuse before it runs the callback, and may raise after.
pub record Activity : Type 0 where
  pub before : List Call → Result (Unit {0})
  pub after : List Call → Result (Unit {0})

pub record Host : Type 0 where
  pub engine : Engine
  pub engines : Option (List (String × Engine))
  pub activity_source : Option Activity
  pub grants : List (String × (String × String))
  pub now : ℕ → ℕ
  pub new_id : ℕ → ℕ
  pub isoformat : ℕ → String
  pub request_hash : CreateDeploymentRequest → String
  pub import_hash : CreateModelImportRequest → String
  pub scope_hash : String × String → String

pub record State : Type 0 where
  pub store : Store
  pub calls : List Call
  pub clock : ℕ
  pub drawn : ℕ

abbrev pub concat : String → String → String
concat a b = String.◌++◌ a b

-- `str(exc)`
pub text : Detail → String
text Detail.fixed = ""
text (Detail.said s) = s
text (Detail.no_model_version_keyword operation) =
    concat "COMPOSED_MODEL_BACKEND_UNSUPPORTED: engine "
      (concat operation " must accept model_version")
text (Detail.identity_mismatch id) =
    concat "MODEL_VERSION_IDENTITY_MISMATCH: engine did not load " id
text (Detail.cleanup_failed first second) =
    let a = text first in let b = text second in concat a (concat "; cleanup failed: " b)

-- `f"{value}"`
abbrev pub shown : Option String → String
shown none = "None"
shown (some s) = s

-- The store's part of a step.
pub on_store : {A : Type 0} → Exec Store A → Exec State A
on_store m s = let (r, st) = m s.store in (r, record s { store = st })

-- A question to the host, noted before it is answered.
pub ask : {A : Type 0} → Call → (List Call → Result A) → Exec State A
ask c answer s = let calls = c ∷ s.calls in (answer calls, record s { calls = calls })

-- What `try` yields where an engine's failure is caught.
pub data Attempt (A : Type 0) : Type 0 where
  done : A → Attempt A
  failed : ServingEngineFailure → Attempt A

abbrev pub caught : {A : Type 0} → Result A → Result (Attempt A)
caught (ok a) = ok (done a)
caught (err (engine_failure e)) = ok (failed e)
caught (err (product e)) = err (product e)
caught (err integrity_error) = err integrity_error
caught (err (value_error e)) = err (value_error e)
caught (err (owner_failure code status)) = err (owner_failure code status)
caught (err (binding_failure code)) = err (binding_failure code)
caught (err (sdk_error code receipt)) = err (sdk_error code receipt)
caught (err (foreign e)) = err (foreign e)

pub try : {A : Type 0} → Exec State A → Exec State (Attempt A)
try m s = let (r, s') = m s in (caught r, s')

pub require : {A : Type 0} → Code → ℕ → Option A → Exec State A
require code status none = raise (product_error code status)
require code status (some a) = pure a

pub require_deployment : ℕ → Exec State Deployment
unfolding require
require_deployment id = do
  found ← gets (λ s. get_deployment s.store id)
  require Code.deployment_not_found 404 found

pub require_endpoint : ℕ → Exec State Endpoint
unfolding require
require_endpoint id = do
  found ← gets (λ s. get_endpoint s.store id)
  require Code.endpoint_not_found 404 found

-- `self._require_endpoint(deployment.endpoint_id) if deployment.endpoint_id else None`
pub endpoint_of : Deployment → Exec State (Option Endpoint)
unfolding require_endpoint
endpoint_of d = elim d.endpoint_id [
  | none ↦ pure none
  | some id ↦ do endpoint ← require_endpoint id; pure (some endpoint)
]

pub serving_artifact : Deployment → Exec State ArtifactRef
unfolding require
serving_artifact d = require Code.model_version_invalid 422 d.model_artifact

-- Only a composed deployment passes its version on.
pub runtime_model_version : Deployment → Option ModelVersion
runtime_model_version d = if is_full_model d.composition then none else d.model_version

-- The identity that a readback must show: the version's id, or the artifact's digest.
pub serving_identity : Deployment → Exec State String
unfolding serving_artifact runtime_model_version
serving_identity d = elim (runtime_model_version d) [
  | some v ↦ pure v.id
  | none ↦ do artifact ← serving_artifact d; pure artifact.digest
]

abbrev keyword_name : Keyword → String
keyword_name start_keyword = "start"
keyword_name inspect_keyword = "inspect"
keyword_name stop_keyword = "stop"

pub keyword_failure : Keyword → ServingEngineFailure
keyword_failure keyword = record {
  detail = Detail.no_model_version_keyword (keyword_name keyword);
  execution_ref = none;
  endpoint_url = none;
  status = 422;
  retryable = false;
}

pub require_model_version_keyword : Engine → Keyword → Exec State (Unit {0})
unfolding keyword_failure
require_model_version_keyword engine keyword =
    if engine.accepts keyword then pure tt else raise (engine_failure (keyword_failure keyword))

-- The guard in front of a call, which only a composed version needs.
pub require_for : Option ModelVersion → Engine → Keyword → Exec State (Unit {0})
unfolding require_model_version_keyword
require_for none engine keyword = pure tt
require_for (some v) engine keyword = require_model_version_keyword engine keyword

module _ (h : Host) where
  pub utc_now : Exec State ℕ
  utc_now s = (ok (h.now s.clock), record s { clock = s.clock + 1 })

  pub uuid4 : Exec State ℕ
  uuid4 s = (ok (h.new_id s.drawn), record s { drawn = s.drawn + 1 })

  find_engine : String → List (String × Engine) → Option Engine
  find_engine binding [] = none
  find_engine binding ((name, engine) ∷ rest) =
      if name == binding then some engine else find_engine binding rest

  -- `_engine`
  pub engine_for : String → Exec State Engine
  unfolding find_engine require
  engine_for binding = elim h.engines [
    | none ↦ pure h.engine
    | some engines ↦ require Code.binding_permission_denied 403 (find_engine binding engines)
  ]

  -- A write that the activity broker follows: `persist` itself when there is no broker.
  pub tracked : {A : Type 0} → Note → TaskId → Exec State A → Exec State A
  unfolding ask
  tracked note task persist = elim h.activity_source [
    | none ↦ persist
    | some source ↦ do
      ask (activity note task) source.before
      result ← persist
      gets (λ s. s.calls) >>= λ calls. lift (source.after calls)
      pure result
  ]

  -- `_append_deployment_event`
  pub append_event : ℕ → DeploymentPhase → String → Option String → Exec State (Unit {0})
  unfolding utc_now on_store
  append_event id phase message failure_code = do
    occurred_at ← utc_now
    on_store (append_deployment_event id phase message occurred_at failure_code)
    pure tt

  pub product_diagnostic : ℕ → ℕ → String → String → Option String → Diagnostic
  product_diagnostic id time level message code = record {
    timestamp = h.isoformat time;
    level = level;
    source = "product";
    stream = "combined";
    code = code;
    message = message;
    request_id = none;
    operation_id = none;
    resource_id = id;
    truncated = false;
  }

  pub record_deployment_diagnostic : ℕ → String → String → Option String → Exec State (Unit {0})
  unfolding utc_now on_store product_diagnostic
  record_deployment_diagnostic id message level code = do
    time ← utc_now
    on_store (append_deployment_diagnostics id (product_diagnostic id time level message code ∷ []))
    pure tt
