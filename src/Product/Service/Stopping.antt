-- ===== src/Product/Service/Stopping.antt =====
-- service.py, `_stop_deployment`.
pub mod Soundness
use cyrene_reactor.Product.Store.Deployments.{get_execution_ref, save_pair, save_deployment}
use cyrene_reactor.Product.Exec.{raise, pure, gets, ◌>>◌, ◌>>=◌, Exec}
use cyrene_reactor.Product.Store.Imports.{TaskId, TaskState}
use cyrene_reactor.Product.Errors.{product, Code, ReactorProductError, ServingEngineFailure}
use cyrene_reactor.Prelude.{none, if◌then◌else◌, some, false, String, true, Option, Bool, ◌+◌, ℕ}
use cyrene_reactor.Product.Domain.{
  DeploymentPhase, EndpointState, DesiredState, ObservedState, Endpoint, Deployment,
}
use cyrene_reactor.Product.Service.{
  ask, record_deployment_diagnostic, serving_identity, require_for, append_event,
  runtime_model_version, try, TaskId, engine_for, tracked, serving_artifact, require_deployment,
  endpoint_of, utc_now, on_store, Exec, TaskState, ServingEngineFailure, ℕ, Endpoint, Deployment,
  State, Host, Engine, Call, Note, Attempt, done, failed, Keyword, stop_keyword,
}

pub with_stopping : Deployment → ℕ → Deployment
with_stopping d now = record d {
  desired_state = DesiredState.stopped;
  observed_state = ObservedState.stopping;
  updated_at = now;
  resource_version = d.resource_version + 1;
}

pub with_stopped : Deployment → ℕ → Deployment
with_stopped d now = record d {
  observed_state = ObservedState.stopped;
  updated_at = now;
  resource_version = d.resource_version + 1;
}

pub with_retired : Endpoint → ℕ → Endpoint
with_retired e now = record e {
  state = EndpointState.retired;
  updated_at = now;
  resource_version = e.resource_version + 1;
}

pub stop_error : Deployment → ServingEngineFailure → ReactorProductError
stop_error d exc = record {
  code = Code.serving_stop_failed;
  detail = exc.detail;
  status = 409;
  retryable = true;
  resource_ref = some d.id;
}

-- A deployment with a task at the broker already moves it, any other one is admitted.
abbrev stop_note : ObservedState → Note
stop_note ObservedState.starting = Note.transition TaskState.canceling
stop_note ObservedState.stopping = Note.transition TaskState.canceling
stop_note _ = Note.admit TaskState.canceling

abbrev pub is_stopped : ObservedState → Bool
is_stopped ObservedState.stopped = true
is_stopped _ = false

module _ (h : Host) where
  -- The call of the engine, made where there are an execution and an endpoint.
  pub release : Deployment → Option String → Option Endpoint → Exec State (Unit {0})
  release d (some ref) (some endpoint) = do
    model ← serving_artifact d
    engine ← engine_for h d.serving_binding_id
    let version = runtime_model_version d in
        do
          require_for version engine stop_keyword
          identity ← serving_identity d
          ask (Call.stop ref endpoint.url d.id identity version) engine.on_stop
  release d (some ref) none = pure tt
  release d none _ = pure tt

  persist_stopped : Deployment → Option Endpoint → ℕ → Exec State (Unit {0})
  unfolding with_retired
  persist_stopped d none now = on_store (save_deployment d)
  persist_stopped d (some endpoint) now = on_store (save_pair d (with_retired endpoint now) none)

  pub conclude_stop : Deployment → Option Endpoint → Exec State Deployment
  unfolding persist_stopped with_stopped
  conclude_stop stopping endpoint = do
    now ← utc_now h
    let stopped = with_stopped stopping now in
        do
          tracked h Note.complete (TaskId.deployment_task stopping.id)
              (persist_stopped stopped endpoint now)
          append_event h stopping.id DeploymentPhase.released
              "Deployment stopped and resources released" none
          record_deployment_diagnostic h stopping.id "Deployment stopped and resources released"
              "info" (some "REACTOR.DEPLOYMENT.RELEASED")
          pure stopped

  pub begin_stop : Deployment → Exec State Deployment
  unfolding with_stopping
  begin_stop d = do
    now ← utc_now h
    let stopping = with_stopping d now in
        do
          tracked h (stop_note d.observed_state) (TaskId.deployment_task d.id)
              (on_store (save_deployment stopping))
          append_event h d.id DeploymentPhase.stopping "Stopping deployment" none
          pure stopping

  pub stop_running : Deployment → Exec State Deployment
  unfolding begin_stop release conclude_stop stop_error
  stop_running d = do
    stopping ← begin_stop d
    endpoint ← endpoint_of d
    ref ← gets (λ s. get_execution_ref s.store d.id)
    released ← try (release d ref endpoint)
    elim released [
      | failed exc ↦ raise (product (stop_error d exc))
      | done _ ↦ conclude_stop stopping endpoint
    ]

  pub stop_deployment : ℕ → Exec State Deployment
  unfolding stop_running
  stop_deployment id = do
    d ← require_deployment id
    if is_stopped d.observed_state then pure d else stop_running d
