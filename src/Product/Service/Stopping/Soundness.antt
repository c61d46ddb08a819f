-- ===== src/Product/Service/Stopping/Soundness.antt =====
-- Stopping keeps the store sound.
use cyrene_reactor.Product.Exec.Keeps.{Keeps-raise, Keeps-gets, Keeps-pure, Keeps-bind, Keeps}
use cyrene_reactor.Prelude.{none, some, String, Option, ℕ}
use cyrene_reactor.Product.Domain.{Endpoint, Deployment}
use cyrene_reactor.Product.Service.Soundness.{
  try-Keeps, endpoint_of-Keeps, HasSoundStore, service_rules,
}
use cyrene_reactor.Product.Service.{ℕ, Deployment, Host}
use cyrene_reactor.Product.Service.Launch.Soundness.{Keeps-attempt}
use cyrene_reactor.Product.Service.Stopping.{
  persist_stopped, release, conclude_stop, begin_stop, stop_running, stop_deployment,
}

module _ (h : Host) where
  release-Keeps :
      (d : Deployment) (ref : Option String) (e : Option Endpoint)
      → Keeps HasSoundStore (release h d ref e)
  unfolding release
  release-Keeps d none e = Keeps-pure tt
  release-Keeps d (some ref) none = Keeps-pure tt
  release-Keeps d (some ref) (some e) = search service_rules

  persist_stopped-Keeps :
      (d : Deployment) (e : Option Endpoint) (now : ℕ)
      → Keeps HasSoundStore (persist_stopped h d e now)
  unfolding persist_stopped
  persist_stopped-Keeps d none now = search service_rules
  persist_stopped-Keeps d (some e) now = search service_rules

  conclude_stop-Keeps :
      (d : Deployment) (e : Option Endpoint) → Keeps HasSoundStore (conclude_stop h d e)
  unfolding conclude_stop
  conclude_stop-Keeps d e = search (service_rules, persist_stopped-Keeps)

  begin_stop-Keeps : (d : Deployment) → Keeps HasSoundStore (begin_stop h d)
  unfolding begin_stop
  begin_stop-Keeps d = search service_rules

  stop_running-Keeps : (d : Deployment) → Keeps HasSoundStore (stop_running h d)
  unfolding stop_running
  stop_running-Keeps d = Keeps-bind _ _ (begin_stop-Keeps d) (λ stopping.
      Keeps-bind _ _ (endpoint_of-Keeps d) (λ e. Keeps-bind _ _ (Keeps-gets _) (λ ref.
        Keeps-bind _ _ (try-Keeps _ (release-Keeps d ref e)) (λ released.
          Keeps-attempt released _ _ (λ _. conclude_stop-Keeps stopping e)
            (λ exc. Keeps-raise _)))))

  pub stop_deployment-Keeps : (id : ℕ) → Keeps HasSoundStore (stop_deployment h id)
  unfolding stop_deployment
  stop_deployment-Keeps id = search (service_rules, stop_running-Keeps)
