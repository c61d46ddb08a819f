-- ===== src/Product/Service/Launch/Ready.antt =====
-- A launch that succeeds.
use cyrene_reactor.Product.Errors.{product, ServingEngineFailure}
use cyrene_reactor.Prelude.Keys.{beq_refl}
use cyrene_reactor.Product.Store.Deployments.Pairs.{
  get_endpoint-save_pair, get_deployment-save_pair, get_endpoint-frame, get_deployment-frame,
}
use mathlib.Core.Path.{subst}
use cyrene_reactor.Product.Store.Imports.{TaskId}
use cyrene_reactor.Product.Domain.{
  EngineHandle, EndpointState, Endpoint, ObservedState, DeploymentPhase, Deployment,
}
use cyrene_reactor.Product.Exec.{pure, ◌>>◌, gets, lift, ok, Result, ◌>>=◌, Exec}
use cyrene_reactor.Product.Store.{Store}
use cyrene_reactor.Prelude.{refl, sym, ◌∙◌, refl, sym, ◌∙◌, none, Option, some, String, ap, ◌≡◌, ℕ}
use cyrene_reactor.Product.Service.{
  ServingEngineFailure, shown, concat, Call, Activity, TaskId, DeploymentPhase, Deployment, Note,
  ◌>>=◌, Exec, Store, ℕ, State, Host, Attempt, done, failed, tracked, append_event,
  record_deployment_diagnostic, on_store, ask,
}
use cyrene_reactor.Product.Service.Launch.{
  start_error, prepared_deployment, save_pair, endpoint_with, with_ready, conclude_failure,
  conclude_ready, launch,
}
use cyrene_reactor.Product.Store.Deployments.{save_pair, get_deployment, get_endpoint}
use cyrene_reactor.Product.Exec.Inversion.{raise-fails, pure-ok, lift-ok, bind-ok}
use cyrene_reactor.Product.Service.Launch.Reporting.{SameTables, report-Keeps}

-- The deployment is stored as ready, with the ready endpoint that it names.
pub record IsServed (id : ℕ) (r : Deployment) (s : Store) : Type 0 where
  pub same : r.id ≡ id
  pub observed : r.observed_state ≡ ObservedState.ready
  pub stored : get_deployment s id ≡ some r
  pub endpoint : Endpoint
  pub named : r.endpoint_id ≡ some endpoint.id
  pub endpoint_stored : get_endpoint s endpoint.id ≡ some endpoint
  pub endpoint_ready : endpoint.state ≡ EndpointState.ready
  pub endpoint_owner : endpoint.deployment_id ≡ id

pub state_of :
    {A : Type 0} (m : Exec State A) (s : State) (r : Result A) (s' : State)
    → m s ≡ (r, s')
    → (m s).1 ≡ s'
state_of {A = A} m s r s' e = ap (λ (p : Result A × State). p.1) e

module _ (h : Host) where
  tracked-ok :
      {A : Type 0} (note : Note) (task : TaskId) (m : Exec State A) (s : State) (a : A) (s' : State)
      → tracked h note task m s ≡ (ok a, s')
      → (s₁ : State) × (s₂ : State) × (m s₁ ≡ (ok a, s₂)) × (s'.store ≡ s₂.store)
  unfolding tracked
  tracked-ok {A = A} note task m s a s' e = by_source h.activity_source e
    where
      by_source :
          (o : Option Activity)
          → (elim o as (λ x. Exec State A) [
            | none ↦ m
            | some source ↦ do
              ask (Call.activity note task) source.before
              result ← m
              gets (λ s. s.calls) >>= λ calls. lift (source.after calls)
              pure result
          ])
              s
            ≡ (ok a, s')
          → (s₁ : State) × (s₂ : State) × (m s₁ ≡ (ok a, s₂)) × (s'.store ≡ s₂.store)
      by_source none e = (s, s', e, refl)
      by_source (some source) e =
          let (u, s₁, e₁, k₁) = bind-ok _ _ s a s' e in
          let (result, s₂, e₂, k₂) = bind-ok _ _ s₁ a s' k₁ in
          let (w, s₃, e₃, k₃) = bind-ok _ _ s₂ a s' k₂ in
          let unchanged = lift-ok (λ (x : State). x.calls) source.after s₂ w s₃ e₃ in
          let (answer, ended) = pure-ok result s₃ a s' k₃ in
          (
            s₁,
            s₂,
            e₂ ∙ ap (λ (x : A). (ok x, s₂)) answer,
            ap (λ (x : State). x.store) (sym (unchanged ∙ ended)),
          )

  -- What is reported after a write, and the value that the reports end with.
  report : Deployment → EngineHandle → Deployment → Exec State Deployment
  report d handle ready = do
    append_event h d.id DeploymentPhase.ready
        (concat "Model identity verified: " (shown handle.model)) none
    record_deployment_diagnostic h d.id (concat "Deployment ready: " (shown handle.model)) "info"
        (some "REACTOR.DEPLOYMENT.READY")
    pure ready

  report-ok :
      (d : Deployment) (handle : EngineHandle) (ready : Deployment) (s : State) (r : Deployment)
      (s' : State)
      → report d handle ready s ≡ (ok r, s')
      → (ready ≡ r) × SameTables s.store s'.store
  unfolding report
  report-ok d handle ready s r s' e =
      let (u, s₁, e₁, k₁) = bind-ok _ _ s r s' e in
      let (v, s₂, e₂, k₂) = bind-ok _ _ s₁ r s' k₁ in
      (
        (pure-ok ready s₂ r s' k₂).0,
        subst (λ x. SameTables s.store x.store) (state_of (report d handle ready) s (ok r) s' e)
            ((report-Keeps h s.store d.id DeploymentPhase.ready _ _ _ _ ready).at s (refl, refl)),
      )

  stored_as :
      (d : Deployment) (id now : ℕ) (e : Endpoint) (ref : Option String) (t s' : Store)
      → SameTables (save_pair (with_ready d id now) e ref t).1 s'
      → get_deployment s' d.id ≡ some (with_ready d id now)
  unfolding with_ready
  stored_as d id now e ref t s' same =
      get_deployment-frame _ s' d.id same.0
      ∙ get_deployment-save_pair (with_ready d id now) e ref t d.id
      ∙ rw (beq_refl d.id) refl

  endpoint_stored_as :
      (d : Deployment) (id now : ℕ) (e : Endpoint) (ref : Option String) (t s' : Store)
      → SameTables (save_pair (with_ready d id now) e ref t).1 s'
      → get_endpoint s' e.id ≡ some e
  endpoint_stored_as d id now e ref t s' same =
      get_endpoint-frame _ s' e.id same.1 ∙ get_endpoint-save_pair (with_ready d id now) e ref t

  saved-IsServed :
      (d : Deployment) (id now : ℕ) (e : Endpoint) (ref : Option String) (t s' : Store)
      → e.id ≡ id
      → e.state ≡ EndpointState.ready
      → e.deployment_id ≡ d.id
      → SameTables (save_pair (with_ready d id now) e ref t).1 s'
      → IsServed d.id (with_ready d id now) s'
  unfolding with_ready
  saved-IsServed d id now e ref t s' named ready owner same = record {
    same = refl;
    observed = refl;
    stored = stored_as d id now e ref t s' same;
    endpoint = e;
    named = rw named refl;
    endpoint_stored = endpoint_stored_as d id now e ref t s' same;
    endpoint_ready = ready;
    endpoint_owner = owner;
  }

  conclude :
      (d : Deployment) (handle : EngineHandle) (now id : ℕ) (previous : Option Endpoint)
      (s₃ : State) (u : Unit {0}) (s₄ : State) (r : Deployment) (s' : State)
      → tracked h Note.complete
          (TaskId.deployment_task d.id)
          (on_store (
            save_pair
              (with_ready d id now)
              (endpoint_with id d EndpointState.ready handle.endpoint_url handle.model now previous)
              (some handle.execution_ref)))
          s₃
        ≡ (ok u, s₄)
      → report d handle (with_ready d id now) s₄ ≡ (ok r, s')
      → IsServed d.id r s'.store
  unfolding endpoint_with on_store
  conclude d handle now id previous s₃ u s₄ r s' e₄ k₄ =
      let (t₁, t₂, saved, same) = tracked-ok _ _ _ s₃ u s₄ e₄ in
      let (answer, tables) = report-ok d handle (with_ready d id now) s₄ r s' k₄ in
      let endpoint =
        endpoint_with id d EndpointState.ready handle.endpoint_url handle.model now previous in
      let write = on_store (save_pair (with_ready d id now) endpoint (some handle.execution_ref)) in
      let written = ap (λ (x : State). x.store) (state_of write t₁ (ok u) t₂ saved) in
      subst (λ x. IsServed d.id x s'.store) answer
        (saved-IsServed d id now endpoint (some handle.execution_ref) t₁.store s'.store refl refl
          refl (subst (λ x. SameTables x s'.store) (same ∙ sym written) tables))

  conclude_ready-IsServed :
      (d : Deployment) (handle : EngineHandle) (s : State) (r : Deployment) (s' : State)
      → conclude_ready h d handle s ≡ (ok r, s')
      → IsServed d.id r s'.store
  unfolding conclude_ready report
  conclude_ready-IsServed d handle s r s' e =
      let (now, s₁, e₁, k₁) = bind-ok _ _ s r s' e in
      let (previous, s₂, e₂, k₂) = bind-ok _ _ s₁ r s' k₁ in
      let (id, s₃, e₃, k₃) = bind-ok _ _ s₂ r s' k₂ in
      let (u, s₄, e₄, k₄) = bind-ok _ _ s₃ r s' k₃ in
      conclude d handle now id previous s₃ u s₄ r s' e₄ k₄

  -- A start that fails is never an answer.
  conclude_failure-raises :
      (d : Deployment) (exc : ServingEngineFailure) (s : State) (r : Deployment) (s' : State)
      → ¬ (conclude_failure h d exc s ≡ (ok r, s'))
  unfolding conclude_failure
  conclude_failure-raises d exc s r s' e =
      let (now, s₁, e₁, k₁) = bind-ok _ _ s r s' e in
      let (u, s₂, e₂, k₂) = bind-ok _ _ s₁ r s' k₁ in
      let (v, s₃, e₃, k₃) = bind-ok _ _ s₂ r s' k₂ in
      let (w, s₄, e₄, k₄) = bind-ok _ _ s₃ r s' k₃ in
      raise-fails (product (start_error d exc)) s₄ r s' k₄

  prepared-id :
      (d : Deployment) (prepared : Option EngineHandle) (s : State) (d' : Deployment) (s' : State)
      → (elim prepared as (λ x. Exec State Deployment) [
        | none ↦ pure d
        | some handle ↦ prepared_deployment h d handle
      ])
          s
        ≡ (ok d', s')
      → d'.id ≡ d.id
  unfolding prepared_deployment
  prepared-id d none s d' s' e = ap (λ (x : Deployment). x.id) (sym (pure-ok d s d' s' e).0)
  prepared-id d (some handle) s d' s' e =
      let (now, s₁, e₁, k₁) = bind-ok _ _ s d' s' e in
      let (previous, s₂, e₂, k₂) = bind-ok _ _ s₁ d' s' k₁ in
      let (id, s₃, e₃, k₃) = bind-ok _ _ s₂ d' s' k₂ in
      let (u, s₄, e₄, k₄) = bind-ok _ _ s₃ d' s' k₃ in
      ap (λ (x : Deployment). x.id)
        (sym (pure-ok (record d { endpoint_id = some id }) s₄ d' s' k₄).0)

  -- A launch that returns has stored what it returns: the deployment is ready and names a stored
  -- endpoint, which is ready and the deployment's own.
  pub launch_ready :
      (d : Deployment) (s : State) (r : Deployment) (s' : State)
      → launch h d s ≡ (ok r, s')
      → IsServed d.id r s'.store
  unfolding launch
  launch_ready d s r s' e =
      let (u, s₁, e₁, k₁) = bind-ok _ _ s r s' e in
      let (engine, s₂, e₂, k₂) = bind-ok _ _ s₁ r s' k₁ in
      let (prepared, s₃, e₃, k₃) = bind-ok _ _ s₂ r s' k₂ in
      let (d', s₄, e₄, k₄) = bind-ok _ _ s₃ r s' k₃ in
      let (outcome, s₅, e₅, k₅) = bind-ok _ _ s₄ r s' k₄ in
      subst (λ x. IsServed x r s'.store) (prepared-id d prepared s₃ d' s₄ e₄)
        (by_outcome d' outcome s₅ k₅)
    where
      by_outcome :
          (d' : Deployment) (outcome : Attempt EngineHandle) (s₅ : State)
          → (elim outcome as (λ x. Exec State Deployment) [
            | failed exc ↦ conclude_failure h d' exc
            | done handle ↦ conclude_ready h d' handle
          ])
              s₅
            ≡ (ok r, s')
          → IsServed d'.id r s'.store
      by_outcome d' (failed exc) s₅ e = absurd (conclude_failure-raises d' exc s₅ r s' e)
      by_outcome d' (done handle) s₅ e = conclude_ready-IsServed d' handle s₅ r s' e
