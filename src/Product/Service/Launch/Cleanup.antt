-- ===== src/Product/Service/Launch/Cleanup.antt =====
-- A start that fails after the engine has answered with a process.
use cyrene_reactor.Product.Service.Launch.Ready.{state_of}
use mathlib.Core.Path.{subst}
use cyrene_reactor.Product.Errors.{
  Detail, integrity_error, foreign, owner_failure, binding_failure, sdk_error, value_error, product,
  engine_failure, ServingEngineFailure,
}
use cyrene_reactor.Product.Domain.{ArtifactRef, ModelVersion, EngineHandle, Deployment}
use cyrene_reactor.Prelude.{
  false, sym, ◌∙◌, inr, Bool-cases, inl, refl, ◌⊎◌, none, List, ap, Option, ◌∷◌, some, true, ◌≡◌,
}
use cyrene_reactor.Product.Service.{
  require, serving_artifact, ServingEngineFailure, Deployment, require_model_version_keyword, State,
  Host, Engine, Call, Attempt, done, failed, caught, Keyword, stop_keyword, start_keyword, try, ask,
  require_for, engine_for, runtime_model_version,
}
use cyrene_reactor.Product.Service.Launch.{
  mismatch, with_cleanup, start_with, echoes, identity_of, stop_call, fail_composed_identity,
  attempt, attempt_on, start_serving, probe, cleanup_started_execution,
}
use cyrene_reactor.Product.Exec.{raise, pure, Exec, Result, ok, err, continue, ◌>>=◌}
use cyrene_reactor.Product.Exec.Inversion.{bind-ok, pure-ok, raise-fails}

-- Answers to a caught call that leave the state alone.
after-caught :
    {A B : Type 0} (r : Result A) (f : A → Exec State B) (g : ServingEngineFailure → Exec State B)
    (s : State)
    → ((a : A) → (f a s).1 ≡ s)
    → ((e : ServingEngineFailure) → (g e s).1 ≡ s)
    → (continue
        (caught r)
        (λ c. elim c as (λ x. Exec State B) [ done a ↦ f a | failed e ↦ g e ])
        s).1
      ≡ s
after-caught (ok a) f g s sf sg = sf a
after-caught (err (engine_failure e)) f g s sf sg = sg e
after-caught (err (product e)) f g s sf sg = refl
after-caught (err integrity_error) f g s sf sg = refl
after-caught (err (value_error e)) f g s sf sg = refl
after-caught (err (owner_failure code status)) f g s sf sg = refl
after-caught (err (binding_failure code)) f g s sf sg = refl
after-caught (err (sdk_error code receipt)) f g s sf sg = refl
after-caught (err (foreign e)) f g s sf sg = refl

caught-failed :
    {A : Type 0} (m : Exec State A) (s : State) (a : Attempt A) (s' : State)
    → try m s ≡ (ok a, s')
    → (m s).1 ≡ s'
unfolding try
caught-failed {A = A} m s a s' e = ap (λ (p : Result (Attempt A) × State). p.1) e

done-ok : {A : Type 0} (r : Result A) (a : A) → caught r ≡ ok (done a) → r ≡ ok a
done-ok (ok x) a e = cc
done-ok (err (engine_failure x)) a e = cc
done-ok (err (product x)) a e = cc
done-ok (err integrity_error) a e = cc
done-ok (err (value_error x)) a e = cc
done-ok (err (owner_failure x status)) a e = cc
done-ok (err (binding_failure x)) a e = cc
done-ok (err (sdk_error x receipt)) a e = cc
done-ok (err (foreign x)) a e = cc

try-answer :
    {A : Type 0} (m : Exec State A) (s : State) (a : Attempt A) (s' : State)
    → try m s ≡ (ok a, s')
    → caught (m s).0 ≡ ok a
unfolding try
try-answer {A = A} m s a s' e = ap (λ (p : Result (Attempt A) × State). p.0) e

abbrev calls_of : State → List Call
calls_of s = s.calls

module _ (h : Host) (engine : Engine) (accepts : (k : Keyword) → engine.accepts k ≡ true) where
  require_for-ok :
      (v : Option ModelVersion) (k : Keyword) (s : State) → require_for v engine k s ≡ (ok tt, s)
  unfolding require_for require_model_version_keyword ◌>>=◌
  require_for-ok none k s = refl
  require_for-ok (some v) k s = rw (accepts k) refl

  cleanup-stops :
      (d : Deployment) (handle : EngineHandle) (model : ArtifactRef) (s : State)
      → (cleanup_started_execution h engine d handle model s).1.calls
        ≡ stop_call handle d.id
            (identity_of (runtime_model_version d) model)
            (runtime_model_version d)
          ∷ s.calls
  unfolding cleanup_started_execution try ask ◌>>=◌
  cleanup-stops d handle model s =
      rw (require_for-ok (runtime_model_version d) stop_keyword s)
        (ap calls_of (after-caught (engine.on_stop _) _ _ _ (λ a. refl) (λ e. refl)))

  mismatch-stops :
      (d : Deployment) (v : ModelVersion) (handle : EngineHandle) (s : State)
      → (fail_composed_identity h engine d v handle s).1.calls
        ≡ stop_call handle d.id v.id (some v) ∷ s.calls
  unfolding fail_composed_identity try require_model_version_keyword ask ◌>>=◌
  mismatch-stops d v handle s =
      rw (accepts stop_keyword)
        (ap calls_of (after-caught (engine.on_stop _) _ _ _ (λ a. refl) (λ e. refl)))

  -- A stop of the process is the newest call.
  abbrev Stopped : Deployment → ArtifactRef → EngineHandle → Option ModelVersion → State → Type 0
  Stopped d model handle version t =
      (rest : List Call) × (t.calls
        ≡ stop_call handle d.id (identity_of version model) version ∷ rest)

  mismatch-raises :
      (d : Deployment) (v : ModelVersion) (handle : EngineHandle) (s : State) (a : EngineHandle)
      → ¬ ((fail_composed_identity h engine d v handle s).0 ≡ ok a)
  unfolding fail_composed_identity
  mismatch-raises d v handle s a e =
      let (c, s₁, e₁, k₁) = bind-ok _ _ s a (fail_composed_identity h engine d v handle s).1 (
        ap (λ (r : Result EngineHandle). (r, (fail_composed_identity h engine d v handle s).1))
          e) in
      by_cleanup c s₁ k₁
    where
      by_cleanup :
          (c : Attempt (Unit {0})) (s₁ : State)
          → (elim c as (λ x. Exec State EngineHandle) [
            | done _ ↦
                raise (engine_failure (mismatch handle (Detail.identity_mismatch v.id) false))
            | failed exc ↦ raise (
                engine_failure (
                  mismatch handle
                    (Detail.cleanup_failed (Detail.identity_mismatch v.id) exc.detail)
                    exc.retryable))
          ])
              s₁
            ≡ (ok a, (fail_composed_identity h engine d v handle s).1)
          → ⊥
      by_cleanup (done w) s₁ k = raise-fails _ s₁ a _ k
      by_cleanup (failed exc) s₁ k = raise-fails _ s₁ a _ k

  -- Once the engine has answered, the start yields its process, or has stopped it and raises.
  start_with-cases :
      (version : Option ModelVersion) (d : Deployment) (model : ArtifactRef) (handle : EngineHandle)
      (s : State)
      → engine.on_start (Call.start d.id model d.node_ref version ∷ s.calls) ≡ ok handle
      → ((start_with h version d model engine s).0 ≡ ok handle)
        ⊎ (Stopped d model handle version (start_with h version d model engine s).1
            × ((a : EngineHandle) → ¬ ((start_with h version d model engine s).0 ≡ ok a)))
  unfolding start_with ask require_model_version_keyword ◌>>=◌
  start_with-cases none d model handle s answered = inl answered
  start_with-cases (some v) d model handle s answered =
      let t = record s { calls = Call.start d.id model d.node_ref (some v) ∷ s.calls } in
      elim (Bool-cases (echoes v handle)) [
        | inl echoed ↦ inl (rw (accepts start_keyword, answered, echoed) refl)
        | inr other ↦ inr (
          (t.calls, rw (accepts start_keyword, answered, other) (mismatch-stops d v handle t)),
          λ a. rw (accepts start_keyword, answered, other) (mismatch-raises d v handle t a),
        )
      ]

  attempt_on-stops :
      (d : Deployment) (model : ArtifactRef) (handle : EngineHandle) (s : State)
      (exc : ServingEngineFailure) (s' : State)
      → engine.on_start (Call.start d.id model d.node_ref (runtime_model_version d) ∷ s.calls)
        ≡ ok handle
      → attempt_on h d model engine s ≡ (ok (failed exc), s')
      → Stopped d model handle (runtime_model_version d) s'
  unfolding attempt_on start_serving
  attempt_on-stops d model handle s exc s' answered e =
      let (started, s₁, e₁, k₁) = bind-ok _ _ s (failed exc) s' e in
      by_start started s₁ e₁ k₁
        (start_with-cases (runtime_model_version d) d model handle s answered)
    where
      by_probe :
          (other : EngineHandle) (probed : Attempt (Unit {0})) (s₂ : State)
          → (elim probed as (λ x. Exec State (Attempt EngineHandle)) [
            | done _ ↦ pure (done other)
            | failed exc ↦ do
              cleanup ← cleanup_started_execution h engine d other model
              pure (failed (with_cleanup h exc cleanup))
          ])
              s₂
            ≡ (ok (failed exc), s')
          → Stopped d model other (runtime_model_version d) s'
      by_probe other (done w) s₂ k =
          let no : done other ≡ failed exc = (pure-ok (done other) s₂ (failed exc) s' k).0 in cc
      by_probe other (failed x) s₂ k =
          let (c, s₃, e₃, k₃) = bind-ok _ _ s₂ (failed exc) s' k in
          let ended = (pure-ok (failed (with_cleanup h x c)) s₃ (failed exc) s' k₃).1 in
          let stopped =
            ap calls_of (
              state_of (cleanup_started_execution h engine d other model) s₂ (ok c) s₃ e₃
              ∙ ended) in
          (s₂.calls, sym stopped ∙ cleanup-stops d other model s₂)

      by_start :
          (started : Attempt EngineHandle) (s₁ : State)
          → try (start_serving h d model engine) s ≡ (ok started, s₁)
          → (elim started as (λ x. Exec State (Attempt EngineHandle)) [
            | failed exc ↦ pure (failed exc)
            | done handle ↦ do
              probed ← try (probe h d engine handle)
              elim probed [
                | done _ ↦ pure (done handle)
                | failed exc ↦ do
                  cleanup ← cleanup_started_execution h engine d handle model
                  pure (failed (with_cleanup h exc cleanup))
              ]
          ])
              s₁
            ≡ (ok (failed exc), s')
          → ((start_serving h d model engine s).0 ≡ ok handle)
            ⊎ (Stopped d model handle (runtime_model_version d) (start_serving h d model engine s).1
                × ((a : EngineHandle) → ¬ ((start_serving h d model engine s).0 ≡ ok a)))
          → Stopped d model handle (runtime_model_version d) s'
      by_start (failed x) s₁ e₁ k₁ (inr (stopped, fails)) =
          subst (Stopped d model handle (runtime_model_version d))
            (caught-failed (start_serving h d model engine) s (failed x) s₁ e₁
              ∙ (pure-ok (failed x) s₁ (failed exc) s' k₁).1)
            stopped
      by_start (failed x) s₁ e₁ k₁ (inl fine) =
          let no : ok (done handle) ≡ ok (failed x) =
            rw fine at (try-answer (start_serving h d model engine) s (failed x) s₁ e₁) in
          cc
      by_start (done other) s₁ e₁ k₁ (inr (stopped, fails)) = absurd (
          fails other
            (done-ok _ other (try-answer (start_serving h d model engine) s (done other) s₁ e₁)))
      by_start (done other) s₁ e₁ k₁ (inl fine) =
          let (probed, s₂, e₂, k₂) = bind-ok _ _ s₁ (failed exc) s' k₁ in
          let answer =
            done-ok _ other (try-answer (start_serving h d model engine) s (done other) s₁ e₁) in
          let same : other ≡ handle = cc in
          subst (λ x. Stopped d model x (runtime_model_version d) s') same
            (by_probe other probed s₂ k₂)

serving_artifact-ok :
    (d : Deployment) (model : ArtifactRef) (s : State)
    → d.model_artifact ≡ some model
    → serving_artifact d s ≡ (ok model, s)
unfolding serving_artifact require ◌>>=◌
serving_artifact-ok d model s e = rw e refl

-- An execution that the engine has answered with is not left running by a failed start: when the
-- deployment has an artifact and its engine, which takes versions in all its methods, answered the
-- start with a process, and the attempt fails all the same (the wrong version was loaded, or the
-- readback of the served model failed), then the newest call is a stop of that very process.
pub attempt_stops_process :
    (h : Host) (d : Deployment) (engine : Engine) (model : ArtifactRef) (handle : EngineHandle)
    (s : State) (exc : ServingEngineFailure) (s' : State)
    → ((k : Keyword) → engine.accepts k ≡ true)
    → d.model_artifact ≡ some model
    → engine_for h d.serving_binding_id s ≡ (ok engine, s)
    → engine.on_start (Call.start d.id model d.node_ref (runtime_model_version d) ∷ s.calls)
      ≡ ok handle
    → attempt h d s ≡ (ok (failed exc), s')
    → (rest : List Call) × (s'.calls
        ≡ stop_call handle d.id
            (identity_of (runtime_model_version d) model)
            (runtime_model_version d)
          ∷ rest)
unfolding attempt ◌>>=◌
attempt_stops_process h d engine model handle s exc s' accepts has_model has_engine answered e =
    attempt_on-stops h engine accepts d model handle s exc s' answered
      (rw (serving_artifact-ok d model s has_model, has_engine) at e)
