-- ===== src/Product/Store/Timeline/Writes.antt =====
-- The tables that the writes of the timeline leave alone.
use cyrene_reactor.Product.Exec.Keeps.{Keeps}
use cyrene_reactor.Product.Domain.{Diagnostic, DeploymentPhase}
use cyrene_reactor.Prelude.{Option, refl, String, List, ◌≡◌, ℕ}
use cyrene_reactor.Product.Exec.{◌>>=◌}
use cyrene_reactor.Product.Store.{DeploymentPhase, ◌≡◌, ℕ, Store}
use cyrene_reactor.Product.Store.Timeline.{
  Store, append_deployment_event, append_deployment_diagnostics, set_runtime_diagnostics_cursor,
}

pub append_event-endpoints :
    (s : Store) (id : ℕ) (phase : DeploymentPhase) (message : String) (at : ℕ)
    (code : Option String)
    → (append_deployment_event id phase message at code s).1.endpoints ≡ s.endpoints
unfolding append_deployment_event
append_event-endpoints s id phase message at code = refl

pub append_diagnostics-endpoints :
    (s : Store) (id : ℕ) (ds : List Diagnostic)
    → (append_deployment_diagnostics id ds s).1.endpoints ≡ s.endpoints
unfolding append_deployment_diagnostics
append_diagnostics-endpoints s id ds = refl

pub append_event-deployments :
    (s : Store) (id : ℕ) (phase : DeploymentPhase) (message : String) (at : ℕ)
    (code : Option String)
    → (append_deployment_event id phase message at code s).1.deployments ≡ s.deployments
unfolding append_deployment_event
append_event-deployments s id phase message at code = refl

pub append_diagnostics-deployments :
    (s : Store) (id : ℕ) (ds : List Diagnostic)
    → (append_deployment_diagnostics id ds s).1.deployments ≡ s.deployments
unfolding append_deployment_diagnostics
append_diagnostics-deployments s id ds = refl

pub Keeps-set_cursor :
    {P : Store → Type 0}
    → ((s s' : Store)
        → s'.events ≡ s.events
        → s'.diagnostics ≡ s.diagnostics
        → s'.endpoints ≡ s.endpoints
        → P s
        → P s')
    → (id sequence : ℕ) → Keeps P (set_runtime_diagnostics_cursor id sequence)
unfolding set_runtime_diagnostics_cursor ◌>>=◌
Keeps-set_cursor frame id sequence = record { at = λ s h. frame s _ refl refl refl h }
