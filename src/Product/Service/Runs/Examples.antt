-- ===== src/Product/Service/Runs/Examples.antt =====
-- A short life of the service.
use cyrene_reactor.Product.Service.Diagnostics.{negsuc, pos}
use cyrene_reactor.Prelude.{[], length, ◌∷◌, false, some, none, List}
use cyrene_reactor.Product.Domain.{ModelComposition, CreateDeploymentRequest}
use cyrene_reactor.Product.Domain.Samples.{weights}
use cyrene_reactor.Product.Service.Samples.{host_that_loads}
use cyrene_reactor.Product.Service.Runs.{
  List, CreateDeploymentRequest, Command, execute_all, execute_all-IsSound, new_state,
}
use cyrene_reactor.Product.Store.Soundness.{IsSound}

abbrev request : CreateDeploymentRequest
request = record {
  name = "chat";
  model_artifact = some weights;
  composition = ModelComposition.full_model;
  model_version = none;
  serving_binding_id = "local";
  node_ref = none;
}

abbrev life : List Command
life =
    Command.create_deployment request (some "k1")
    ∷ Command.create_deployment request (some "k1")
    ∷ Command.deployment_diagnostics 4 (pos 0) 200
    ∷ Command.deployment_diagnostics 4 (negsuc 0) 200
    ∷ Command.stop_deployment 4
    ∷ Command.restart_deployment 4 (record { node_id = "n"; node_epoch = 1 }) 4
    ∷ []

execute_all-IsSound_example :
    IsSound (execute_all (host_that_loads none) (λ d. false) length life new_state).store
execute_all-IsSound_example = execute_all-IsSound (host_that_loads none) (λ d. false) length life
