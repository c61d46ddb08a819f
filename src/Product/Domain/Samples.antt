-- ===== src/Product/Domain/Samples.antt =====
-- Resources that the examples are about.
use cyrene_reactor.Prelude.{false, some, none}
use cyrene_reactor.Product.Domain.{
  ObservedState, ModelImportState, DesiredState, false, EndpointState, ModelComposition,
  ArtifactRef, ModelVersion, Deployment, Endpoint, ModelImport,
}

abbrev pub weights : ArtifactRef
weights = record {
  uri = "oci://models/base";
  digest = "sha256:aa";
  size_bytes = 10;
  kind = "model";
  manifest_digest = none;
}

abbrev pub composed_version : ModelVersion
composed_version = record {
  id = "v7";
  composition = ModelComposition.base_plus_lora;
  full_model_artifact = none;
  base_model_artifact = some weights;
  body = 0;
}

abbrev pub full_deployment : Deployment
full_deployment = record {
  id = 1;
  name = "chat";
  model_artifact = some weights;
  composition = ModelComposition.full_model;
  model_version = none;
  desired_state = DesiredState.active;
  observed_state = ObservedState.starting;
  serving_binding_id = "local";
  node_ref = none;
  endpoint_id = none;
  failure = none;
  created_at = 5;
  updated_at = 5;
  resource_version = 1;
}

abbrev pub composed_deployment : Deployment
composed_deployment = record full_deployment {
  id = 2;
  composition = ModelComposition.base_plus_lora;
  model_version = some composed_version;
}

abbrev pub chat_endpoint : Endpoint
chat_endpoint = record {
  id = 4;
  deployment_id = 1;
  state = EndpointState.ready;
  url = "http://node";
  model = some "chat";
  created_at = 5;
  updated_at = 5;
  resource_version = 1;
}

abbrev pub chat_import : ModelImport
chat_import = record {
  id = 3;
  name = "chat";
  serving_binding_id = "local";
  source = record {
    hugging_face = false;
    repository = none;
    revision = none;
    path = some "/models/chat";
  };
  credential_ref = none;
  state = ModelImportState.validating;
  model_artifact = none;
  validation = none;
  failure = none;
  created_at = 5;
  updated_at = 5;
  resource_version = 1;
}
