-- ===== src/Product/Service/Creating.antt =====
-- service.py, `_create_deployment` and `restart_deployment`.
pub mod Soundness
use cyrene_reactor.Product.Errors.{Code, product_error}
use cyrene_reactor.Prelude.Keys.{nat_eq, ◌==◌}
use cyrene_reactor.Product.Store.Deployments.{
  create_intent, save_deployment, resolve_idempotency, resolving,
}
use cyrene_reactor.Product.Store.Imports.{TaskState, TaskId}
use cyrene_reactor.Product.Exec.{raise, pure, ◌>>=◌, ◌>>◌, Exec}
use cyrene_reactor.Prelude.{not, if◌then◌else◌, ◌+◌, none, some, Option, String, ℕ}
use cyrene_reactor.Product.Domain.{
  DeploymentPhase, ObservedState, NodeRef, DesiredState, Deployment, CreateDeploymentRequest,
}
use cyrene_reactor.Product.Service.{
  product_error, ◌==◌, engine_for, TaskState, uuid4, TaskId, require_deployment, on_store, utc_now,
  tracked, append_event, Exec, ℕ, Deployment, CreateDeploymentRequest, State, Host, Engine, Call,
  Note,
}
use cyrene_reactor.Product.Service.Reading
use cyrene_reactor.Product.Service.Stopping.{is_stopped, stop_deployment}
use cyrene_reactor.Product.Service.Launch.{launch}

pub new_deployment : CreateDeploymentRequest → ℕ → ℕ → Deployment
new_deployment command id now = record {
  id = id;
  name = command.name;
  model_artifact = command.model_artifact;
  composition = command.composition;
  model_version = command.model_version;
  desired_state = DesiredState.active;
  observed_state = ObservedState.starting;
  serving_binding_id = command.serving_binding_id;
  node_ref = command.node_ref;
  endpoint_id = none;
  failure = none;
  created_at = now;
  updated_at = now;
  resource_version = 1;
}

pub with_starting : Deployment → NodeRef → ℕ → Deployment
with_starting d node_ref now = record d {
  node_ref = some node_ref;
  desired_state = DesiredState.active;
  observed_state = ObservedState.starting;
  failure = none;
  updated_at = now;
  resource_version = d.resource_version + 1;
}

module _ (h : Host) where
  -- The persisted intent is queued and launched.
  dispatch : Deployment → String → Exec State Deployment
  dispatch d message = do
    append_event h d.id DeploymentPhase.queued message none
    tracked h (Note.transition TaskState.dispatching) (TaskId.deployment_task d.id) (launch h d)

  -- Another request won the race for the key between the two lookups.
  replay_late : Deployment → ℕ → Exec State Deployment
  replay_late d id = do
    tracked h Note.complete (TaskId.deployment_task d.id) (pure tt)
    Reading.get_deployment h (pure tt) id

  create_new : CreateDeploymentRequest → Option String → String → Exec State Deployment
  unfolding dispatch replay_late new_deployment
  create_new command key digest = do
    now ← utc_now h
    id ← uuid4 h
    let d = new_deployment command id now in
        do
          engine_for h d.serving_binding_id
          replay ←
              tracked h (Note.admit TaskState.accepted) (TaskId.deployment_task d.id)
                (on_store (create_intent d key digest))
          elim replay [ some other ↦ replay_late d other | none ↦ dispatch d "Deployment queued" ]

  pub create_deployment : CreateDeploymentRequest → Option String → Exec State Deployment
  unfolding create_new
  create_deployment command key =
      let digest = h.request_hash command in
      do
        replay ← on_store (resolving (λ s. resolve_idempotency s key digest))
        elim replay [
          | some id ↦ Reading.get_deployment h (pure tt) id
          | none ↦ create_new command key digest
        ]

  pub restart_from : Deployment → NodeRef → Exec State Deployment
  unfolding dispatch with_starting
  restart_from d node_ref = do
    now ← utc_now h
    let starting = with_starting d node_ref now in
        do
          tracked h (Note.admit TaskState.accepted) (TaskId.deployment_task d.id)
              (on_store (save_deployment starting))
          dispatch starting "Deployment restart queued"

  pub restart_deployment : ℕ → NodeRef → ℕ → Exec State Deployment
  unfolding restart_from
  restart_deployment id node_ref version = do
    d ← require_deployment id
    if not (d.resource_version == version)
        then raise (product_error Code.version_conflict 409)
        else do
          stopped ← (if is_stopped d.observed_state then pure d else stop_deployment h id)
          restart_from stopped node_ref
