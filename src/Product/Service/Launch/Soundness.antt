-- ===== src/Product/Service/Launch/Soundness.antt =====
-- A launch keeps the store sound.
use cyrene_reactor.Prelude.{none, some, String, Option}
use cyrene_reactor.Product.Exec.Keeps.{Keeps-pure, Keeps-raise, Keeps-bind, Keeps-option, Keeps}
use cyrene_reactor.Product.Errors.{ServingEngineFailure}
use cyrene_reactor.Product.Domain.{ArtifactRef, ModelVersion, EngineHandle, Deployment}
use cyrene_reactor.Product.Exec.{Exec}
use cyrene_reactor.Product.Service.Soundness.{
  try-Keeps, engine_for-Keeps, ask-Keeps, append_event-Keeps, uuid4-Keeps, HasSoundStore,
  service_rules,
}
use cyrene_reactor.Product.Service.{
  runtime_model_version, Option, ServingEngineFailure, Deployment, Exec, State, Host, Engine,
  Attempt, done, failed,
}
use cyrene_reactor.Product.Service.Launch.{
  start_with, attempt_on, save_failed_endpoint, persist_failure, fail_composed_identity,
  prepared_deployment, endpoint_id_for, start_serving, probe, cleanup_started_execution, attempt,
  conclude_failure, conclude_ready, launch,
}

module _ {A B : Type 0} where
  pub Keeps-attempt :
      (o : Attempt A) (f : A → Exec State B) (g : ServingEngineFailure → Exec State B)
      → ((a : A) → Keeps HasSoundStore (f a))
      → ((e : ServingEngineFailure) → Keeps HasSoundStore (g e))
      → Keeps HasSoundStore (elim o [ done a ↦ f a | failed e ↦ g e ])
  Keeps-attempt (done a) f g kf kg = kf a
  Keeps-attempt (failed e) f g kf kg = kg e

module _ (h : Host) where
  endpoint_id_for-Keeps : (d : Deployment) → Keeps HasSoundStore (endpoint_id_for h d)
  unfolding endpoint_id_for
  endpoint_id_for-Keeps d = Keeps-option d.endpoint_id _ _ (uuid4-Keeps h) (λ id. Keeps-pure id)

  prepared_deployment-Keeps :
      (d : Deployment) (prepared : EngineHandle)
      → Keeps HasSoundStore (prepared_deployment h d prepared)
  unfolding prepared_deployment
  prepared_deployment-Keeps d prepared = search (service_rules, endpoint_id_for-Keeps) depth 9

  fail_composed-Keeps :
      (engine : Engine) (d : Deployment) (v : ModelVersion) (handle : EngineHandle)
      → Keeps HasSoundStore (fail_composed_identity h engine d v handle)
  unfolding fail_composed_identity
  fail_composed-Keeps engine d v handle =
      Keeps-bind _ _ (search service_rules)
        (λ cleanup. Keeps-attempt cleanup _ _ (λ _. Keeps-raise _) (λ e. Keeps-raise _))

  start_with-Keeps :
      (v : Option ModelVersion) (d : Deployment) (model : ArtifactRef) (engine : Engine)
      → Keeps HasSoundStore (start_with h v d model engine)
  unfolding start_with
  start_with-Keeps none d model engine = ask-Keeps _ _
  start_with-Keeps (some v) d model engine = search (service_rules, fail_composed-Keeps)

  start_serving-Keeps :
      (d : Deployment) (model : ArtifactRef) (engine : Engine)
      → Keeps HasSoundStore (start_serving h d model engine)
  unfolding start_serving
  start_serving-Keeps d model engine = start_with-Keeps (runtime_model_version d) d model engine

  probe-Keeps :
      (d : Deployment) (engine : Engine) (handle : EngineHandle)
      → Keeps HasSoundStore (probe h d engine handle)
  unfolding probe
  probe-Keeps d engine handle =
      Keeps-bind _ _ (append_event-Keeps h _ _ _ _)
        (λ _. Keeps-option engine.on_verify _ _ (Keeps-pure tt) (λ verify. ask-Keeps _ _))

  cleanup-Keeps :
      (engine : Engine) (d : Deployment) (handle : EngineHandle) (model : ArtifactRef)
      → Keeps HasSoundStore (cleanup_started_execution h engine d handle model)
  unfolding cleanup_started_execution
  cleanup-Keeps engine d handle model =
      Keeps-bind _ _ (search service_rules)
        (λ stopped. Keeps-attempt stopped _ _ (λ _. Keeps-pure _) (λ e. Keeps-pure _))

  attempt_on-Keeps :
      (d : Deployment) (model : ArtifactRef) (engine : Engine)
      → Keeps HasSoundStore (attempt_on h d model engine)
  unfolding attempt_on
  attempt_on-Keeps d model engine =
      Keeps-bind _ _ (try-Keeps _ (start_serving-Keeps d model engine)) (λ started.
        Keeps-attempt started _ _
          (λ handle. Keeps-bind _ _ (try-Keeps _ (probe-Keeps d engine handle)) (λ probed.
            Keeps-attempt probed _ _ (λ _. Keeps-pure _)
              (λ exc. Keeps-bind _ _ (cleanup-Keeps engine d handle model) (λ c. Keeps-pure _))))
          (λ exc. Keeps-pure _))

  attempt-Keeps : (d : Deployment) → Keeps HasSoundStore (attempt h d)
  unfolding attempt
  attempt-Keeps d = search (service_rules, attempt_on-Keeps)

  persist_failure-Keeps :
      (d failure : Deployment) (ref url : Option String)
      → Keeps HasSoundStore (persist_failure h d failure ref url)
  unfolding persist_failure save_failed_endpoint
  persist_failure-Keeps d failure none url = search service_rules
  persist_failure-Keeps d failure (some ref) none = search service_rules
  persist_failure-Keeps d failure (some ref) (some url) =
      search (service_rules, endpoint_id_for-Keeps)

  conclude_failure-Keeps :
      (d : Deployment) (exc : ServingEngineFailure) → Keeps HasSoundStore (conclude_failure h d exc)
  unfolding conclude_failure
  conclude_failure-Keeps d exc = search (service_rules, persist_failure-Keeps)

  conclude_ready-Keeps :
      (d : Deployment) (handle : EngineHandle) → Keeps HasSoundStore (conclude_ready h d handle)
  unfolding conclude_ready
  conclude_ready-Keeps d handle = search (service_rules, endpoint_id_for-Keeps) depth 9

  pub launch-Keeps : (d : Deployment) → Keeps HasSoundStore (launch h d)
  unfolding launch
  launch-Keeps d = Keeps-bind _ _ (append_event-Keeps h _ _ _ _) (λ _.
      Keeps-bind _ _ (engine_for-Keeps h _) (λ engine. Keeps-bind _ _ (ask-Keeps _ _) (λ prepared.
        Keeps-bind _ _
          (Keeps-option prepared _ _ (Keeps-pure d) (λ handle. prepared_deployment-Keeps d handle))
          (λ d'. Keeps-bind _ _ (attempt-Keeps d') (λ outcome.
            Keeps-attempt outcome _ _ (λ handle. conclude_ready-Keeps d' handle)
              (λ exc. conclude_failure-Keeps d' exc))))))
