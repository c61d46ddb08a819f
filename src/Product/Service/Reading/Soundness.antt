-- ===== src/Product/Service/Reading/Soundness.antt =====
-- Reading, which reconciles, keeps the store sound.
use cyrene_reactor.Product.Exec.Keeps.{Keeps-option, Keeps-bind, Keeps-pure, Keeps}
use cyrene_reactor.Product.Exec.{Exec}
use cyrene_reactor.Product.Domain.{EngineObservation, Endpoint, Deployment}
use cyrene_reactor.Prelude.{none, some, String, Option, ℕ}
use cyrene_reactor.Product.Service.Soundness.{
  require_deployment-Keeps, HasSoundStore, service_rules,
}
use cyrene_reactor.Product.Service.{Exec, Deployment, ℕ, State, Host}
use cyrene_reactor.Product.Service.Reading.{
  observe_endpoint, observe_execution, compare, ask_engine, settle, observe,
}
use cyrene_reactor.Product.Service.Reading

settle-Keeps :
    (version : ℕ) (d : Deployment) (e : Endpoint) → Keeps HasSoundStore (settle version d e)
unfolding settle
settle-Keeps version d e = search service_rules

module _ (h : Host) where
  ask_engine-Keeps :
      (d : Deployment) (e : Endpoint) (ref : String) → Keeps HasSoundStore (ask_engine h d e ref)
  unfolding ask_engine
  ask_engine-Keeps d e ref = search service_rules

  compare-Keeps :
      (d : Deployment) (e : Endpoint) (o : EngineObservation)
      → Keeps HasSoundStore (compare h d e o)
  unfolding compare
  compare-Keeps d e o = search service_rules

  observe_execution-Keeps :
      (d : Deployment) (e : Endpoint) (ref : Option String)
      → Keeps HasSoundStore (observe_execution h d e ref)
  unfolding observe_execution
  observe_execution-Keeps d e none = Keeps-pure none
  observe_execution-Keeps d e (some ref) = search (service_rules, ask_engine-Keeps, compare-Keeps)

  observe_endpoint-Keeps :
      (d : Deployment) (id : Option ℕ) → Keeps HasSoundStore (observe_endpoint h d id)
  unfolding observe_endpoint
  observe_endpoint-Keeps d none = Keeps-pure none
  observe_endpoint-Keeps d (some id) = search (service_rules, observe_execution-Keeps)

  observe-Keeps : (d : Deployment) → Keeps HasSoundStore (observe h d)
  unfolding observe
  observe-Keeps d = search (service_rules, observe_endpoint-Keeps)

  module _ (others : Exec State (Unit {0})) (k : Keeps HasSoundStore others) where
    pub get_deployment-Keeps : (id : ℕ) → Keeps HasSoundStore (Reading.get_deployment h others id)
    unfolding Reading.get_deployment
    get_deployment-Keeps id = Keeps-bind _ _ (require_deployment-Keeps id) (λ d.
        Keeps-bind _ _ (observe-Keeps d) (λ observed.
          Keeps-option observed _ _ (Keeps-pure d)
            (λ p. Keeps-bind _ _ k (λ _. settle-Keeps _ _ _))))

    pub get_endpoint-Keeps : (id : ℕ) → Keeps HasSoundStore (Reading.get_endpoint h others id)
    unfolding Reading.get_endpoint
    get_endpoint-Keeps id = search (service_rules, get_deployment-Keeps)
