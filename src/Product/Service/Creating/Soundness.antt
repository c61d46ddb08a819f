-- ===== src/Product/Service/Creating/Soundness.antt =====
-- Creating and restarting keep the store sound.
use cyrene_reactor.Product.Exec.{pure}
use cyrene_reactor.Product.Store.Deployments.Soundness.{create_intent-Keeps, Keeps-resolving}
use cyrene_reactor.Product.Exec.Keeps.{Keeps-option, Keeps-pure, Keeps-bind, Keeps}
use cyrene_reactor.Prelude.{Option, String, ℕ}
use cyrene_reactor.Product.Domain.{NodeRef, Deployment, CreateDeploymentRequest}
use cyrene_reactor.Product.Service.Soundness.{
  engine_for-Keeps, uuid4-Keeps, on_store-Keeps, utc_now-Keeps, tracked-Keeps, HasSoundStore,
  service_rules,
}
use cyrene_reactor.Product.Service.{pure, ℕ, Deployment, CreateDeploymentRequest, Host}
use cyrene_reactor.Product.Service.Creating.{
  new_deployment, create_new, replay_late, dispatch, create_deployment, restart_from,
  restart_deployment,
}
use cyrene_reactor.Product.Service.Launch.Soundness.{launch-Keeps}
use cyrene_reactor.Product.Service.Stopping.Soundness.{stop_deployment-Keeps}
use cyrene_reactor.Product.Service.Reading.Soundness.{get_deployment-Keeps}

module _ (h : Host) where
  dispatch-Keeps : (d : Deployment) (message : String) → Keeps HasSoundStore (dispatch h d message)
  unfolding dispatch
  dispatch-Keeps d message = search (service_rules, launch-Keeps)

  replay_late-Keeps : (d : Deployment) (id : ℕ) → Keeps HasSoundStore (replay_late h d id)
  unfolding replay_late
  replay_late-Keeps d id =
      Keeps-bind _ _ (tracked-Keeps h _ _ _ (Keeps-pure tt))
        (λ _. get_deployment-Keeps h (pure tt) (Keeps-pure tt) id)

  create_new-Keeps :
      (command : CreateDeploymentRequest) (key : Option String) (digest : String)
      → Keeps HasSoundStore (create_new h command key digest)
  unfolding create_new
  create_new-Keeps command key digest = Keeps-bind _ _ (utc_now-Keeps h) (λ now.
      Keeps-bind _ _ (uuid4-Keeps h) (λ id. Keeps-bind _ _ (engine_for-Keeps h _) (λ _.
        Keeps-bind _ _ (tracked-Keeps h _ _ _ (on_store-Keeps _ (create_intent-Keeps _ _ _)))
          (λ replay.
            Keeps-option replay _ _ (dispatch-Keeps (new_deployment command id now) _)
              (λ other. replay_late-Keeps (new_deployment command id now) other)))))

  pub create_deployment-Keeps :
      (command : CreateDeploymentRequest) (key : Option String)
      → Keeps HasSoundStore (create_deployment h command key)
  unfolding create_deployment
  create_deployment-Keeps command key =
      Keeps-bind _ _ (on_store-Keeps _ (Keeps-resolving _)) (λ replay.
        Keeps-option replay _ _ (create_new-Keeps command key _)
          (λ id. get_deployment-Keeps h (pure tt) (Keeps-pure tt) id))

  restart_from-Keeps :
      (d : Deployment) (node : NodeRef) → Keeps HasSoundStore (restart_from h d node)
  unfolding restart_from
  restart_from-Keeps d node = search (service_rules, dispatch-Keeps)

  pub restart_deployment-Keeps :
      (id : ℕ) (node : NodeRef) (version : ℕ)
      → Keeps HasSoundStore (restart_deployment h id node version)
  unfolding restart_deployment
  restart_deployment-Keeps id node version =
      search (service_rules, stop_deployment-Keeps, restart_from-Keeps)
