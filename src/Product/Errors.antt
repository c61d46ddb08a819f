-- ===== src/Product/Errors.antt =====
-- product/src/cyrene_reactor_product/errors.py: the two exceptions of the Product, and the others
-- that its code can meet.
use cyrene_reactor.Product.Receipts.{Receipt}
use cyrene_reactor.Prelude.{ℕ, Bool, String, Option}

-- `code`; the fixed `title` (and `detail`, where it is constant) that goes with a code is left out.
pub data Code : Type 0 where
  idempotency_conflict draft_not_found binding_not_granted scope_conflict : Code
  model_version_invalid binding_permission_denied trust_remote_code_forbidden : Code
  model_import_failed model_import_not_found serving_start_failed serving_stop_failed : Code
  version_conflict diagnostics_sequence_invalid deployment_not_found endpoint_not_found : Code
  execution_unavailable : Code

-- The text of an error: fixed by its code, given by an engine, or put together from such.
pub data Detail : Type 0 where
  fixed : Detail
  said no_model_version_keyword identity_mismatch : String → Detail
  cleanup_failed : Detail → Detail → Detail

pub record ReactorProductError : Type 0 where
  pub code : Code
  pub detail : Detail
  pub status : ℕ
  pub retryable : Bool
  pub resource_ref : Option ℕ

pub record ServingEngineFailure : Type 0 where
  pub detail : Detail
  pub execution_ref : Option String
  pub endpoint_url : Option String
  pub status : ℕ
  pub retryable : Bool

-- What a call can raise: the Product's errors, an engine's, a broken `PRIMARY KEY` or `UNIQUE`
-- constraint, a `ValueError` of the store or pydantic's `ValidationError`, the failures of package_runtime_owner.py (`owner_failure` is
-- `PackageRuntimeOwnerFailure`, `binding_failure` is `PackageRuntimeBindingFailure`), an exception of
-- the package runtime's SDK with its attributes `code` and `pending_binding_operation`, and any other
-- exception of code outside the repository.
pub data Raised : Type 0 where
  product : ReactorProductError → Raised
  engine_failure : ServingEngineFailure → Raised
  integrity_error : Raised
  value_error : String → Raised
  owner_failure : String → ℕ → Raised
  binding_failure : String → Raised
  sdk_error : Option String → Option Receipt → Raised
  foreign : ℕ → Raised

abbrev pub product_error : Code → ℕ → Raised
product_error code status = product (record {
  code = code;
  detail = Detail.fixed;
  status = status;
  retryable = Bool.false;
  resource_ref = Option.none;
})
