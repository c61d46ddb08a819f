-- ===== src/Product/Store/Deployments/Soundness.antt =====
-- The writes of deployments leave a store sound.
use cyrene_reactor.Product.Store.Deployments.Pairs.{save_pair-HasOneEndpoint}
use cyrene_reactor.Prelude.{◌≡◌, none, some, ℕ, Option, refl, String}
use cyrene_reactor.Product.Domain.{Endpoint, Deployment}
use cyrene_reactor.Product.Exec.{◌>>=◌, Result}
use cyrene_reactor.Product.Store.{Store}
use cyrene_reactor.Product.Store.Soundness.{IsTimeline-frame, IsSound, IsSound-frame}
use cyrene_reactor.Product.Exec.Keeps.{
  Keeps-pure, Keeps-option, Keeps-bind, Keeps-transaction, Keeps, keeps_rules,
}
use cyrene_reactor.Product.Store.Deployments.{
  put_evidence, String, Deployment, Store, resolving, insert_deployment, remember_in, insert_replay,
  create_intent, save_deployment, save_pair,
}

pub Keeps-resolving : {A : Type 0} (f : Store → Result A) → Keeps IsSound (resolving f)
Keeps-resolving f = record { at = λ s h. h }

pub save_deployment-Keeps : (d : Deployment) → Keeps IsSound (save_deployment d)
unfolding save_deployment ◌>>=◌
save_deployment-Keeps d = record { at = λ s h. IsSound-frame s _ refl refl refl h }

insert_deployment-Keeps : (d : Deployment) → Keeps IsSound (insert_deployment d)
unfolding insert_deployment
insert_deployment-Keeps d = record { at = λ s h. IsSound-frame s _ refl refl refl h }

pub remember_in-Keeps :
    (scope : String) (key : Option String) (digest : String) (id : ℕ)
    → Keeps IsSound (remember_in scope key digest id)
unfolding remember_in insert_replay ◌>>=◌
remember_in-Keeps scope none digest id = record { at = λ s h. h }
remember_in-Keeps scope (some key) digest id = record {
  at = λ s h. IsSound-frame s _ refl refl refl h;
}

events_saved :
    (d : Deployment) (e : Endpoint) (ref : Option String) (s : Store)
    → ((save_pair d e ref s).1.events ≡ s.events)
      × ((save_pair d e ref s).1.diagnostics ≡ s.diagnostics)
unfolding save_pair put_evidence ◌>>=◌
events_saved d e none s = (refl, refl)
events_saved d e (some ref) s = (refl, refl)

pub save_pair-Keeps :
    (d : Deployment) (e : Endpoint) (ref : Option String) → Keeps IsSound (save_pair d e ref)
save_pair-Keeps d e ref = record {
  at = λ s h. record {
    timeline =
        IsTimeline-frame s _ (events_saved d e ref s).0 (events_saved d e ref s).1 h.timeline;
    endpoints = save_pair-HasOneEndpoint d e ref s h.endpoints;
  };
}

pub create_intent-Keeps :
    (d : Deployment) (key : Option String) (digest : String)
    → Keeps IsSound (create_intent d key digest)
unfolding create_intent
create_intent-Keeps d key digest = Keeps-transaction _ (
    Keeps-bind _ _ (Keeps-resolving _) (λ replay.
      Keeps-option replay _ _ (search (keeps_rules, insert_deployment-Keeps, remember_in-Keeps))
        (λ id. Keeps-pure (some id))))
