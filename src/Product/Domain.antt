-- ===== src/Product/Domain.antt =====
-- product/src/cyrene_reactor_product/domain.py: the resources of the Product.
--
-- A UUID and a point in time are numbers. A field of a `Literal` type with one value is left out,
-- and so are the length and pattern limits of pydantic, which hold of a value once it is built.
pub mod Identity
pub mod Samples
use cyrene_reactor.Product.Errors.{Detail, Code}
use cyrene_reactor.Prelude.{ℕ, Bool, true, false, String, Option, List}

pub data DesiredState : Type 0 where
  active stopped : DesiredState

pub data ObservedState : Type 0 where
  starting ready degraded failed stopping stopped : ObservedState

pub data DeploymentPhase : Type 0 where
  queued importing loading probing ready stopping released failed : DeploymentPhase

pub data ModelComposition : Type 0 where
  full_model base_plus_lora : ModelComposition

pub data EndpointState : Type 0 where
  provisioning ready unhealthy retired : EndpointState

pub data ModelImportState : Type 0 where
  validating ready failed : ModelImportState

pub record ArtifactRef : Type 0 where
  pub uri : String
  pub digest : String
  pub size_bytes : ℕ
  pub kind : String
  pub manifest_digest : Option String

-- A `ModelVersionDocument` as it comes in: `id` if it is a string, `composition` if it is one of
-- the two, the artifacts at `fullModelArtifact` and `baseModel.artifact`, and the rest.
pub record Document : Type 0 where
  pub id : Option String
  pub composition : Option ModelComposition
  pub full_model_artifact : Option ArtifactRef
  pub base_model_artifact : Option ArtifactRef
  pub body : ℕ

-- A document that `canonical_model_version` has let through.
pub record ModelVersion : Type 0 where
  pub id : String
  pub composition : ModelComposition
  pub full_model_artifact : Option ArtifactRef
  pub base_model_artifact : Option ArtifactRef
  pub body : ℕ

pub record ProductFailure : Type 0 where
  pub code : Code
  pub message : Detail
  pub retryable : Bool

pub record NodeRef : Type 0 where
  pub node_id : String
  pub node_epoch : ℕ

pub record Deployment : Type 0 where
  pub id : ℕ
  pub name : String
  pub model_artifact : Option ArtifactRef
  pub composition : ModelComposition
  pub model_version : Option ModelVersion
  pub desired_state : DesiredState
  pub observed_state : ObservedState
  pub serving_binding_id : String
  pub node_ref : Option NodeRef
  pub endpoint_id : Option ℕ
  pub failure : Option ProductFailure
  pub created_at : ℕ
  pub updated_at : ℕ
  pub resource_version : ℕ

pub record Endpoint : Type 0 where
  pub id : ℕ
  pub deployment_id : ℕ
  pub state : EndpointState
  pub url : String
  pub model : Option String
  pub created_at : ℕ
  pub updated_at : ℕ
  pub resource_version : ℕ

-- A validated Create-Deployment command.
pub record CreateDeploymentRequest : Type 0 where
  pub name : String
  pub model_artifact : Option ArtifactRef
  pub composition : ModelComposition
  pub model_version : Option ModelVersion
  pub serving_binding_id : String
  pub node_ref : Option NodeRef

pub record ModelImportSource : Type 0 where
  pub hugging_face : Bool
  pub repository : Option String
  pub revision : Option String
  pub path : Option String

pub record ModelImportValidation : Type 0 where
  pub weights : Bool
  pub config : Bool
  pub tokenizer : Bool
  pub chat_template : Bool
  pub license : Option String
  pub provenance : String
  pub digest : String
  pub issues : List String

pub record ModelImportResult : Type 0 where
  pub model_artifact : ArtifactRef
  pub validation : ModelImportValidation

pub record ModelImport : Type 0 where
  pub id : ℕ
  pub name : String
  pub serving_binding_id : String
  pub source : ModelImportSource
  pub credential_ref : Option String
  pub state : ModelImportState
  pub model_artifact : Option ArtifactRef
  pub validation : Option ModelImportValidation
  pub failure : Option ProductFailure
  pub created_at : ℕ
  pub updated_at : ℕ
  pub resource_version : ℕ

pub record CreateModelImportRequest : Type 0 where
  pub name : String
  pub serving_binding_id : String
  pub source : ModelImportSource
  pub credential_ref : Option String
  pub trust_remote_code : Bool

pub record EngineHandle : Type 0 where
  pub execution_ref : String
  pub endpoint_url : String
  pub model : Option String
  pub model_version_id : Option String

pub record EngineObservation : Type 0 where
  pub ready : Bool
  pub detail : String

pub record ProductResourceRef : Type 0 where
  pub uri : String
  pub id : ℕ
  pub resource_version : ℕ

pub record DeploymentDraft : Type 0 where
  pub id : ℕ
  pub source_ref : ProductResourceRef
  pub model_version : ModelVersion
  pub started : Bool
  pub deployment_ref : Option ProductResourceRef
  pub created_at : ℕ

-- One diagnostic document before the store numbers it.
pub record Diagnostic : Type 0 where
  pub timestamp : String
  pub level : String
  pub source : String
  pub stream : String
  pub code : Option String
  pub message : String
  pub request_id : Option String
  pub operation_id : Option String
  pub resource_id : ℕ
  pub truncated : Bool

abbrev pub is_full_model : ModelComposition → Bool
is_full_model ModelComposition.full_model = true
is_full_model ModelComposition.base_plus_lora = false

abbrev pub same_composition : ModelComposition → ModelComposition → Bool
same_composition ModelComposition.full_model c = is_full_model c
same_composition ModelComposition.base_plus_lora ModelComposition.full_model = false
same_composition ModelComposition.base_plus_lora ModelComposition.base_plus_lora = true
