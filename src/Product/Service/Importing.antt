-- ===== src/Product/Service/Importing.antt =====
-- service.py, `create_model_import` and the reads of a model import.
pub mod Soundness
use cyrene_reactor.Product.Store.Deployments.{resolve_in, resolving}
use cyrene_reactor.Product.Exec.{pure, raise, gets, ◌>>◌, ◌>>=◌, Exec}
use cyrene_reactor.Product.Errors.{
  product, product_error, Code, ReactorProductError, ServingEngineFailure,
}
use cyrene_reactor.Prelude.{not, if◌then◌else◌, none, Option, some, String, ℕ}
use cyrene_reactor.Product.Domain.{
  ModelImportResult, ModelImportState, ModelImport, CreateModelImportRequest,
}
use cyrene_reactor.Product.Service.{
  ask, try, on_store, require, uuid4, TaskState, TaskId, engine_for, tracked, utc_now, concat, Exec,
  ReactorProductError, ServingEngineFailure, String, ℕ, CreateModelImportRequest, State, Host,
  Engine, Call, Note, Attempt, done, failed,
}
use cyrene_reactor.Product.Store.Imports.{
  granted, commit_model_import_intent, save_model_import, get_model_import_for_workspace, TaskState,
  TaskId, get_unscoped_model_import, Scope,
}

pub new_import : CreateModelImportRequest → ℕ → ℕ → ModelImport
new_import command id now = record {
  id = id;
  name = command.name;
  serving_binding_id = command.serving_binding_id;
  source = command.source;
  credential_ref = command.credential_ref;
  state = ModelImportState.validating;
  model_artifact = none;
  validation = none;
  failure = none;
  created_at = now;
  updated_at = now;
  resource_version = 1;
}

pub import_error : ModelImport → ServingEngineFailure → ReactorProductError
import_error m exc = record {
  code = Code.model_import_failed;
  detail = exc.detail;
  status = exc.status;
  retryable = exc.retryable;
  resource_ref = some m.id;
}

pub with_import_failure : ModelImport → ReactorProductError → ℕ → ModelImport
with_import_failure m error now = record m {
  state = ModelImportState.failed;
  failure =
      some (record { code = error.code; message = error.detail; retryable = error.retryable });
  updated_at = now;
  resource_version = 2;
}

pub with_import_result : ModelImport → ModelImportResult → ℕ → ModelImport
with_import_result m result now = record m {
  state = ModelImportState.ready;
  model_artifact = some result.model_artifact;
  validation = some result.validation;
  failure = none;
  updated_at = now;
  resource_version = 2;
}

-- `_require_model_import_for_scope`
pub require_model_import : Scope → ℕ → Exec State ModelImport
require_model_import none id = do
  found ← gets (λ s. get_unscoped_model_import s.store id)
  require Code.model_import_not_found 404 found
require_model_import (some (organization, workspace)) id = do
  found ← gets (λ s. get_model_import_for_workspace s.store id organization workspace)
  require Code.model_import_not_found 404 found

module _ (h : Host) where
  -- `_model_import_idempotency_scope`
  pub import_ledger : Scope → String
  import_ledger none = "model-import"
  import_ledger (some scope) = concat "model-import:workspace:" (h.scope_hash scope)

  pub conclude_import : ModelImport → Attempt ModelImportResult → Exec State ModelImport
  unfolding import_error with_import_failure with_import_result
  conclude_import m (failed exc) = do
    now ← utc_now h
    tracked h Note.complete (TaskId.import_task m.id)
        (on_store (save_model_import (with_import_failure m (import_error m exc) now)))
    raise (product (import_error m exc))
  conclude_import m (done result) = do
    now ← utc_now h
    tracked h Note.complete (TaskId.import_task m.id)
        (on_store (save_model_import (with_import_result m result now)))
    pure (with_import_result m result now)

  run_import : Engine → CreateModelImportRequest → ModelImport → Exec State ModelImport
  unfolding conclude_import
  run_import engine command m = do
    tracked h (Note.transition TaskState.running) (TaskId.import_task m.id) (pure tt)
    outcome ← try (ask (Call.import_model command) engine.on_import)
    conclude_import m outcome

  replay_import : ModelImport → Scope → ℕ → Exec State ModelImport
  unfolding require_model_import
  replay_import m scope id = do
    tracked h Note.complete (TaskId.import_task m.id) (pure tt)
    require_model_import scope id

  new_model_import :
      CreateModelImportRequest → Option String → Scope → String → Exec State ModelImport
  unfolding new_import run_import replay_import import_ledger
  new_model_import command key scope digest = do
    engine ← engine_for h command.serving_binding_id
    now ← utc_now h
    id ← uuid4 h
    let m = new_import command id now in
        do
          replay ← tracked h (Note.admit TaskState.accepted) (TaskId.import_task m.id) (
              on_store
                (commit_model_import_intent h.grants m key digest (import_ledger scope) scope))
          elim replay [
            | some other ↦ replay_import m scope other
            | none ↦ run_import engine command m
          ]

  pub create_model_import :
      CreateModelImportRequest → Option String → Scope → Exec State ModelImport
  unfolding new_model_import
  create_model_import command key scope =
      let digest = h.import_hash command in
      if command.trust_remote_code
      then raise (product_error Code.trust_remote_code_forbidden 422)
      else if not (granted h.grants command.serving_binding_id scope)
      then raise (product_error Code.binding_not_granted 403)
      else do
        replay ← on_store (resolving (λ s. resolve_in s (import_ledger scope) key digest))
        elim replay [
          | some id ↦ require_model_import scope id
          | none ↦ new_model_import command key scope digest
        ]
