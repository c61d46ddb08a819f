-- ===== src/Product/Service/Reading/Examples.antt =====
-- A read of a degraded deployment whose engine is ready again, overtaken by another thread.
use cyrene_reactor.Prelude.Table
use cyrene_reactor.Product.Exec.{ok, Exec, Result, ◌>>=◌}
use cyrene_reactor.Product.Domain.{Deployment, ObservedState, EndpointState}
use cyrene_reactor.Prelude.{some, none, [], ◌≡◌, ◌∷◌, ◌⊎◌, refl}
use cyrene_reactor.Product.Domain.Samples.{full_deployment, chat_endpoint}
use cyrene_reactor.Product.Service.Samples.{at_start, host_that_loads}
use cyrene_reactor.Product.Service.{Deployment, State, Host}
use cyrene_reactor.Product.Store.Deployments.{get_execution_ref, get_endpoint, get_deployment}
use cyrene_reactor.Product.Service.Reading
use cyrene_reactor.Product.Service.Reading.{observe}
use cyrene_reactor.Product.Service.Reading.Races.{IsSettled, get_deployment_checks_version}

abbrev host : Host
host = host_that_loads none

abbrev degraded : Deployment
degraded = record full_deployment { observed_state = ObservedState.degraded; endpoint_id = some 4 }

abbrev with_degraded : State
with_degraded = record at_start {
  store = record at_start.store {
    deployments = degraded ∷ [];
    endpoints = record chat_endpoint { state = EndpointState.unhealthy } ∷ [];
    evidence = record { deployment_id = 1; execution_ref = "run-1" } ∷ [];
  };
}

-- Another thread has restarted the deployment while the engine was asked.
abbrev restarted : Deployment
restarted = record degraded { resource_version = 2; observed_state = ObservedState.starting }

abbrev restart : Exec State (Unit {0})
restart s = (ok tt, record s { store = record s.store { deployments = restarted ∷ [] } })

abbrev overtaken : Result Deployment × State
overtaken = Reading.get_deployment host restart 1 with_degraded

overtaken_answers : overtaken ≡ (ok restarted, overtaken.1)
unfolding Reading.get_deployment ◌>>=◌ Reading.require_deployment get_deployment Table.get
    Reading.require_endpoint get_endpoint get_execution_ref Reading.serving_artifact
    Reading.engine_for Reading.require_for Reading.runtime_model_version Reading.serving_identity
    Reading.ask Reading.utc_now
overtaken_answers = refl

get_deployment_checks_version_example :
    (d : Deployment) × (get_deployment with_degraded.store 1 ≡ some d)
    × (((observe host d with_degraded ≡ (ok none, overtaken.1)) × (restarted ≡ d))
        ⊎ ((d' : Deployment) × IsSettled host restart d with_degraded restarted overtaken.1 d'))
get_deployment_checks_version_example =
    get_deployment_checks_version host restart 1 with_degraded restarted overtaken.1
      overtaken_answers
