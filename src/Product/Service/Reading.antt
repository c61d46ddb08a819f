-- ===== src/Product/Service/Reading.antt =====
-- service.py, `get_deployment` and `get_endpoint`: reading reconciles with the engine's evidence.
pub mod Soundness
pub mod Races
mod Examples
use cyrene_reactor.Product.Store.Deployments.{save_pair, get_execution_ref}
use cyrene_reactor.Prelude.Keys.{nat_eq, ◌==◌}
use cyrene_reactor.Product.Errors.{Detail, Code}
use cyrene_reactor.Product.Exec.{gets, ◌>>◌, pure, ◌>>=◌, Exec}
use cyrene_reactor.Prelude.{
  some, not, none, if◌then◌else◌, false, String, ◌+◌, Option, true, ℕ, Bool,
}
use cyrene_reactor.Product.Domain.{
  ProductFailure, EndpointState, Endpoint, Deployment, EngineObservation, ObservedState,
}
use cyrene_reactor.Product.Service.{
  ask, serving_identity, require_for, on_store, utc_now, runtime_model_version, ◌==◌, Code,
  engine_for, require_endpoint, serving_artifact, require_deployment, Exec, ℕ, Endpoint, Deployment,
  EngineObservation, Bool, State, Host, Engine, Call, Keyword, inspect_keyword,
}

abbrev is_live : ObservedState → Bool
is_live ObservedState.ready = true
is_live ObservedState.degraded = true
is_live _ = false

abbrev pub observed_as : Bool → ObservedState
observed_as true = ObservedState.ready
observed_as false = ObservedState.degraded

abbrev pub endpoint_as : Bool → EndpointState
endpoint_as true = EndpointState.ready
endpoint_as false = EndpointState.unhealthy

abbrev agrees : Bool → ObservedState → EndpointState → Bool
agrees true ObservedState.ready EndpointState.ready = true
agrees false ObservedState.degraded EndpointState.unhealthy = true
agrees _ _ _ = false

abbrev failure_as : EngineObservation → Option ProductFailure
failure_as observation =
    if observation.ready
    then none
    else some (record {
      code = Code.execution_unavailable;
      message = Detail.said observation.detail;
      retryable = true;
    })

pub reconciled : Deployment → EngineObservation → ℕ → Deployment
reconciled d observation now = record d {
  observed_state = observed_as observation.ready;
  failure = failure_as observation;
  updated_at = now;
  resource_version = d.resource_version + 1;
}

pub reconciled_endpoint : Endpoint → EngineObservation → ℕ → Endpoint
reconciled_endpoint e observation now = record e {
  state = endpoint_as observation.ready;
  updated_at = now;
  resource_version = e.resource_version + 1;
}

-- The part under the lock: a deployment that another thread wrote meanwhile is left alone.
pub settle : ℕ → Deployment → Endpoint → Exec State Deployment
settle version d endpoint = do
  current ← require_deployment d.id
  if not (current.resource_version == version)
      then pure current
      else do on_store (save_pair d endpoint none); pure d

module _ (h : Host) where
  ask_engine : Deployment → Endpoint → String → Exec State EngineObservation
  ask_engine d endpoint ref = do
    model ← serving_artifact d
    engine ← engine_for h d.serving_binding_id
    let version = runtime_model_version d in
        do
          require_for version engine inspect_keyword
          identity ← serving_identity d
          ask (Call.inspect ref endpoint.url d.id identity version) engine.on_inspect

  -- The new pair, where the engine's evidence differs from what is stored.
  compare : Deployment → Endpoint → EngineObservation → Exec State (Option (Deployment × Endpoint))
  unfolding reconciled reconciled_endpoint
  compare d endpoint observation =
      if agrees observation.ready d.observed_state endpoint.state then pure none else do
        now ← utc_now h
        pure (some (reconciled d observation now, reconciled_endpoint endpoint observation now))

  observe_execution :
      Deployment → Endpoint → Option String → Exec State (Option (Deployment × Endpoint))
  unfolding ask_engine compare
  observe_execution d endpoint none = pure none
  observe_execution d endpoint (some ref) = do
    observation ← ask_engine d endpoint ref
    compare d endpoint observation

  observe_endpoint : Deployment → Option ℕ → Exec State (Option (Deployment × Endpoint))
  unfolding observe_execution
  observe_endpoint d none = pure none
  observe_endpoint d (some id) = do
    endpoint ← require_endpoint id
    ref ← gets (λ s. get_execution_ref s.store d.id)
    observe_execution d endpoint ref

  pub observe : Deployment → Exec State (Option (Deployment × Endpoint))
  unfolding observe_endpoint
  observe d = if is_live d.observed_state then observe_endpoint d d.endpoint_id else pure none

  -- `others` is what other threads do before the lock is taken.
  pub get_deployment : Exec State (Unit {0}) → ℕ → Exec State Deployment
  unfolding settle observe
  get_deployment others id = do
    d ← require_deployment id
    observed ← observe d
    elim observed [
      | none ↦ pure d
      | some (d', endpoint) ↦ do others; settle d.resource_version d' endpoint
    ]

  pub get_endpoint : Exec State (Unit {0}) → ℕ → Exec State Endpoint
  get_endpoint others id = do
    endpoint ← require_endpoint id
    get_deployment others endpoint.deployment_id
    require_endpoint id
