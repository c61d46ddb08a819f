-- ===== src/Product/Service/Launch.antt =====
-- service.py, `_launch`: one try at serving a deployment, with the clean-up after a failure.
--
-- The Python `try` has three places where an engine can fail: before there is a handle, in the
-- clean-up of a start that did not echo the version, and in the readback of the started model.
-- `attempt` names them; only the last one leaves a process that `cleanup_started_execution` stops.
pub mod Soundness
pub mod Reporting
pub mod Ready
pub mod Cleanup
mod Examples
use cyrene_reactor.Product.Store.Imports.{TaskId}
use cyrene_reactor.Product.Store.Deployments.{save_pair, save_deployment}
use cyrene_reactor.Prelude.Keys.{string_eq, ◌==◌}
use cyrene_reactor.Product.Exec.{raise, pure, ◌>>◌, ◌>>=◌, Exec}
use cyrene_reactor.Product.Errors.{
  product, engine_failure, Code, Detail, ReactorProductError, ServingEngineFailure,
}
use cyrene_reactor.Product.Domain.{
  DeploymentPhase, ArtifactRef, ObservedState, EndpointState, Endpoint, EngineHandle, ModelVersion,
  Deployment,
}
use cyrene_reactor.Prelude.{if◌then◌else◌, true, false, ◌+◌, none, some, String, Bool, ℕ, Option}
use cyrene_reactor.Product.Service.{
  record_deployment_diagnostic, shown, text, concat, TaskId, tracked, engine_for, require_for,
  require_model_version_keyword, endpoint_of, uuid4, ◌==◌, on_store, serving_artifact, append_event,
  ask, try, utc_now, runtime_model_version, Exec, ServingEngineFailure, EngineHandle, ModelVersion,
  Deployment, ℕ, Option, State, Host, Engine, Call, Note, Attempt, done, failed, Keyword,
  start_keyword, stop_keyword,
}

-- The endpoint that a step writes: the known one with its version raised, or a new one.
abbrev created : Option Endpoint → ℕ → ℕ
created none now = now
created (some previous) now = previous.created_at

abbrev next_version : Option Endpoint → ℕ
next_version none = 1
next_version (some previous) = previous.resource_version + 1

abbrev previous_model : Option Endpoint → Option String
previous_model none = none
previous_model (some previous) = previous.model

pub endpoint_with :
    ℕ → Deployment → EndpointState → String → Option String → ℕ → Option Endpoint → Endpoint
endpoint_with id d state url model now previous = record {
  id = id;
  deployment_id = d.id;
  state = state;
  url = url;
  model = model;
  created_at = created previous now;
  updated_at = now;
  resource_version = next_version previous;
}

pub with_failure : Deployment → ReactorProductError → ℕ → Deployment
with_failure d error now = record d {
  observed_state = ObservedState.failed;
  failure =
      some (record { code = error.code; message = error.detail; retryable = error.retryable });
  updated_at = now;
  resource_version = d.resource_version + 1;
}

pub with_ready : Deployment → ℕ → ℕ → Deployment
with_ready d endpoint_id now = record d {
  observed_state = ObservedState.ready;
  endpoint_id = some endpoint_id;
  updated_at = now;
  failure = none;
  resource_version = d.resource_version + 1;
}

pub start_error : Deployment → ServingEngineFailure → ReactorProductError
start_error d exc = record {
  code = Code.serving_start_failed;
  detail = exc.detail;
  status = exc.status;
  retryable = exc.retryable;
  resource_ref = some d.id;
}

-- `getattr(handle, "model_version_id", None) != model_version["id"]`
pub echoes : ModelVersion → EngineHandle → Bool
echoes v handle = elim handle.model_version_id [ none ↦ false | some id ↦ id == v.id ]

-- The identity that a stop names: the version's id, or the artifact's digest.
abbrev pub identity_of : Option ModelVersion → ArtifactRef → String
identity_of none model = model.digest
identity_of (some v) model = v.id

abbrev pub stop_call : EngineHandle → ℕ → String → Option ModelVersion → Call
stop_call handle id identity version =
    Call.stop handle.execution_ref handle.endpoint_url id identity version

pub mismatch : EngineHandle → Detail → Bool → ServingEngineFailure
mismatch handle detail retryable = record {
  detail = detail;
  execution_ref = some handle.execution_ref;
  endpoint_url = some handle.endpoint_url;
  status = 409;
  retryable = retryable;
}

module _ (h : Host) where
  -- `endpoint_id or uuid4()`
  endpoint_id_for : Deployment → Exec State ℕ
  endpoint_id_for d = elim d.endpoint_id [ some id ↦ pure id | none ↦ uuid4 h ]

  prepared_deployment : Deployment → EngineHandle → Exec State Deployment
  unfolding endpoint_id_for endpoint_with
  prepared_deployment d prepared = do
    now ← utc_now h
    previous ← endpoint_of d
    id ← endpoint_id_for d
    let pending =
          endpoint_with id d EndpointState.provisioning prepared.endpoint_url prepared.model now
            previous in
        do
          let d' = record d { endpoint_id = some id } in
              do on_store (save_pair d' pending (some prepared.execution_ref)); pure d'

  -- `_fail_composed_identity`
  fail_composed_identity :
      Engine → Deployment → ModelVersion → EngineHandle → Exec State EngineHandle
  unfolding mismatch
  fail_composed_identity engine d v handle = do
    cleanup ← try (do
      require_model_version_keyword engine stop_keyword
      ask (stop_call handle d.id v.id (some v)) engine.on_stop)
    elim cleanup [
      | done _ ↦ raise (engine_failure (mismatch handle (Detail.identity_mismatch v.id) false))
      | failed exc ↦ raise (
          engine_failure (
            mismatch handle (Detail.cleanup_failed (Detail.identity_mismatch v.id) exc.detail)
              exc.retryable))
    ]

  -- The start itself: a composed model must be echoed.
  start_with : Option ModelVersion → Deployment → ArtifactRef → Engine → Exec State EngineHandle
  unfolding fail_composed_identity echoes
  start_with none d model engine = ask (Call.start d.id model d.node_ref none) engine.on_start
  start_with (some v) d model engine = do
    require_model_version_keyword engine start_keyword
    handle ← ask (Call.start d.id model d.node_ref (some v)) engine.on_start
    if echoes v handle then pure handle else fail_composed_identity engine d v handle

  pub start_serving : Deployment → ArtifactRef → Engine → Exec State EngineHandle
  unfolding start_with
  start_serving d model engine = start_with (runtime_model_version d) d model engine

  -- `_verify_started_model_identity`, after the event that says so.
  pub probe : Deployment → Engine → EngineHandle → Exec State (Unit {0})
  probe d engine handle = do
    append_event h d.id DeploymentPhase.probing "Waiting for inference readiness probe" none
    elim engine.on_verify [
      | none ↦ pure tt
      | some verify ↦ ask (Call.verify_served_model d.id handle) verify
    ]

  -- `_cleanup_started_execution`
  pub cleanup_started_execution :
      Engine → Deployment → EngineHandle → ArtifactRef → Exec State (Option Detail)
  cleanup_started_execution engine d handle model = do
    let version = runtime_model_version d in
        do
          stopped ← try (do
            require_for version engine stop_keyword
            ask (stop_call handle d.id (identity_of version model) version) engine.on_stop)
          elim stopped [ done _ ↦ pure none | failed exc ↦ pure (some exc.detail) ]

  with_cleanup : ServingEngineFailure → Option Detail → ServingEngineFailure
  with_cleanup exc none = exc
  with_cleanup exc (some detail) = record exc {
    detail = Detail.cleanup_failed exc.detail detail;
    retryable = true;
  }

  -- The `try` of `_launch`, with the clean-up that its handler begins with.
  pub attempt_on : Deployment → ArtifactRef → Engine → Exec State (Attempt EngineHandle)
  unfolding start_serving probe cleanup_started_execution with_cleanup
  attempt_on d model engine = do
    started ← try (start_serving d model engine)
    elim started [
      | failed exc ↦ pure (failed exc)
      | done handle ↦ do
        probed ← try (probe d engine handle)
        elim probed [
          | done _ ↦ pure (done handle)
          | failed exc ↦ do
            cleanup ← cleanup_started_execution engine d handle model
            pure (failed (with_cleanup exc cleanup))
        ]
    ]

  pub attempt : Deployment → Exec State (Attempt EngineHandle)
  unfolding attempt_on
  attempt d = do
    model ← serving_artifact d
    engine ← engine_for h d.serving_binding_id
    attempt_on d model engine

  -- `persist_failure`, for a failure that says where its execution is and for one that does not.
  save_failed_endpoint : Deployment → Deployment → String → String → Exec State (Unit {0})
  unfolding endpoint_id_for endpoint_with
  save_failed_endpoint d failure ref url = do
    now ← utc_now h
    previous ← endpoint_of d
    id ← endpoint_id_for d
    on_store (
        save_pair (record failure { endpoint_id = some id })
          (endpoint_with id d EndpointState.unhealthy url (previous_model previous) now previous)
          (some ref))

  persist_failure : Deployment → Deployment → Option String → Option String → Exec State (Unit {0})
  unfolding save_failed_endpoint
  persist_failure d failure (some ref) (some url) = save_failed_endpoint d failure ref url
  persist_failure d failure (some ref) none = on_store (save_deployment failure)
  persist_failure d failure none _ = on_store (save_deployment failure)

  pub conclude_failure : Deployment → ServingEngineFailure → Exec State Deployment
  unfolding persist_failure start_error with_failure
  conclude_failure d exc =
      let error = start_error d exc in
      do
        now ← utc_now h
        tracked h Note.complete (TaskId.deployment_task d.id)
            (persist_failure d (with_failure d error now) exc.execution_ref exc.endpoint_url)
        append_event h d.id DeploymentPhase.failed (text exc.detail)
            (some "REACTOR_SERVING_START_FAILED")
        record_deployment_diagnostic h d.id (concat "Serving startup failed: " (text exc.detail))
            "error" (some "REACTOR_SERVING_START_FAILED")
        raise (product error)

  pub conclude_ready : Deployment → EngineHandle → Exec State Deployment
  unfolding endpoint_id_for endpoint_with with_ready
  conclude_ready d handle = do
    now ← utc_now h
    previous ← endpoint_of d
    id ← endpoint_id_for d
    let endpoint =
          endpoint_with id d EndpointState.ready handle.endpoint_url handle.model now previous in
        do
          let ready = with_ready d id now in
              do
                tracked h Note.complete (TaskId.deployment_task d.id)
                    (on_store (save_pair ready endpoint (some handle.execution_ref)))
                append_event h d.id DeploymentPhase.ready
                    (concat "Model identity verified: " (shown handle.model)) none
                record_deployment_diagnostic h d.id
                    (concat "Deployment ready: " (shown handle.model)) "info"
                    (some "REACTOR.DEPLOYMENT.READY")
                pure ready

  pub launch : Deployment → Exec State Deployment
  unfolding prepared_deployment attempt conclude_failure conclude_ready
  launch d₀ = do
    append_event h d₀.id DeploymentPhase.loading
        (concat "Serving process starting on " d₀.serving_binding_id) none
    engine ← engine_for h d₀.serving_binding_id
    prepared ← ask (Call.prepare d₀.id) engine.on_prepare
    d ← elim prepared [ none ↦ pure d₀ | some handle ↦ prepared_deployment d₀ handle ]
    outcome ← attempt d
    elim outcome [ failed exc ↦ conclude_failure d exc | done handle ↦ conclude_ready d handle ]
