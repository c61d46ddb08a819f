-- ===== src/Product/Service/Launch/Examples.antt =====
-- Launches: one that loads another version than asked for, and one that succeeds.
use cyrene_reactor.Product.Store.Deployments.{save_pair}
use cyrene_reactor.Product.Store.Timeline.{append_deployment_diagnostics, append_deployment_event}
use cyrene_reactor.Product.Exec.{◌>>=◌, ok}
use cyrene_reactor.Product.Errors.{Detail, ServingEngineFailure}
use cyrene_reactor.Product.Domain.{ObservedState, Deployment, EngineHandle}
use cyrene_reactor.Prelude.{false, [], ◌∷◌, List, ◌≡◌, none, some, refl}
use cyrene_reactor.Product.Domain.Samples.{
  weights, composed_version, composed_deployment, full_deployment,
}
use cyrene_reactor.Product.Service.Samples.{loaded, engine_that_loads, host_that_loads, at_start}
use cyrene_reactor.Product.Service.{
  record_deployment_diagnostic, tracked, uuid4, endpoint_of, append_event, ask,
  require_model_version_keyword, try, serving_artifact, ok, ServingEngineFailure, EngineHandle,
  State, Host, Call, failed, engine_for, runtime_model_version,
}
use cyrene_reactor.Product.Service.Launch.{attempt, launch, stop_call, identity_of}
use cyrene_reactor.Product.Service.Launch.Cleanup.{attempt_stops_process}
use cyrene_reactor.Product.Service.Launch.Ready.{IsServed, launch_ready}

abbrev other_version : EngineHandle
other_version = loaded (some "v6")

abbrev wrong_host : Host
wrong_host = host_that_loads (some "v6")

abbrev start_of_composed : Call
start_of_composed = Call.start 2 weights none (some composed_version)

abbrev after_stop : State
after_stop = record at_start {
  calls = stop_call other_version 2 "v7" (some composed_version) ∷ start_of_composed ∷ [];
}

abbrev wrong_version : ServingEngineFailure
wrong_version = record {
  detail = Detail.identity_mismatch "v7";
  execution_ref = some "run-1";
  endpoint_url = some "http://node";
  status = 409;
  retryable = false;
}

attempt_fails :
    attempt wrong_host composed_deployment at_start ≡ (ok (failed wrong_version), after_stop)
unfolding attempt ◌>>=◌ serving_artifact engine_for try runtime_model_version
    require_model_version_keyword ask
attempt_fails = refl

engine_found :
    engine_for wrong_host "local" at_start ≡ (ok (engine_that_loads (some "v6")), at_start)
unfolding engine_for ◌>>=◌
engine_found = refl

attempt_stops_process_example :
    (rest : List Call) × (after_stop.calls
      ≡ stop_call other_version 2
          (identity_of (runtime_model_version composed_deployment) weights)
          (runtime_model_version composed_deployment)
        ∷ rest)
attempt_stops_process_example =
    attempt_stops_process wrong_host composed_deployment (engine_that_loads (some "v6")) weights
      other_version at_start wrong_version after_stop (λ k. refl) refl engine_found refl
      attempt_fails

abbrev host : Host
host = host_that_loads none

abbrev served : Deployment
served = record full_deployment {
  observed_state = ObservedState.ready;
  endpoint_id = some 4;
  updated_at = 7;
  resource_version = 2;
}

abbrev after_launch : State
after_launch = (launch host full_deployment at_start).1

launched : launch host full_deployment at_start ≡ (ok served, after_launch)
unfolding launch ◌>>=◌ append_event append_deployment_event engine_for ask serving_artifact try
    runtime_model_version endpoint_of uuid4 tracked save_pair record_deployment_diagnostic
    append_deployment_diagnostics
launched = refl

launch_ready_example : IsServed 1 served after_launch.store
launch_ready_example = launch_ready host full_deployment at_start served after_launch launched
