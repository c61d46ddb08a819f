-- ===== src/Product/Domain/Identity/Examples.antt =====
-- A composed request, validated.
use cyrene_reactor.Prelude.{refl, false, ◌≡◌, some, none}
use cyrene_reactor.Product.Domain.{ModelComposition, CreateDeploymentRequest, Document}
use cyrene_reactor.Product.Domain.Samples.{weights, composed_version}
use cyrene_reactor.Product.Domain.Identity.{
  model_version_artifact, canonical_model_version, some, CreateDeploymentRequest, none, Document,
  RequestBody, validate_request, valid, IsIdentified, validate_request-IsIdentified,
}

abbrev document : Document
document = record {
  id = some "v7";
  composition = some ModelComposition.base_plus_lora;
  full_model_artifact = none;
  base_model_artifact = some weights;
  body = 0;
}

abbrev body : RequestBody
body = record {
  name = "chat";
  model_artifact = none;
  composition = ModelComposition.full_model;
  composition_set = false;
  model_version = some document;
  serving_binding_id = "local";
  node_ref = none;
}

abbrev request : CreateDeploymentRequest
request = record {
  name = "chat";
  model_artifact = some weights;
  composition = ModelComposition.base_plus_lora;
  model_version = some composed_version;
  serving_binding_id = "local";
  node_ref = none;
}

validated : validate_request some body ≡ valid request
unfolding validate_request canonical_model_version model_version_artifact
validated = refl

validate_request-IsIdentified_example : IsIdentified request
validate_request-IsIdentified_example = validate_request-IsIdentified some body request validated
