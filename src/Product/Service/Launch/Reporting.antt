-- ===== src/Product/Service/Launch/Reporting.antt =====
-- The report of a launch: its event and its diagnostic, beside the tables of deployments and endpoints.
use cyrene_reactor.Product.Store.Timeline.Writes.{
  append_diagnostics-endpoints, append_event-endpoints, append_diagnostics-deployments,
  append_event-deployments,
}
use cyrene_reactor.Product.Store.Timeline.{append_deployment_diagnostics, append_deployment_event}
use cyrene_reactor.Product.Exec.Keeps.{keeps_rules, Keeps}
use cyrene_reactor.Product.Domain.{Diagnostic, DeploymentPhase, Deployment}
use cyrene_reactor.Product.Exec.{pure, ◌>>◌, Exec}
use cyrene_reactor.Product.Store.{Store}
use cyrene_reactor.Prelude.{◌∙◌, ◌∙◌, none, List, Option, String, ◌≡◌, ℕ}
use cyrene_reactor.Product.Service.{
  append_deployment_diagnostics, append_deployment_event, DeploymentPhase, Deployment, Exec, Store,
  ℕ, State, Host, utc_now, append_event, record_deployment_diagnostic, on_store,
}

-- Only two tables matter to it.
abbrev pub SameTables : Store → Store → Type 0
SameTables s s' = (s'.deployments ≡ s.deployments) × (s'.endpoints ≡ s.endpoints)

-- The states whose store has the tables of `s₀`.
abbrev pub Same : Store → State → Type 0
Same s₀ s = SameTables s₀ s.store

on_store-Keeps :
    {A : Type 0} (s₀ : Store) (m : Exec Store A)
    → Keeps (SameTables s₀) m
    → Keeps (Same s₀) (on_store m)
unfolding on_store
on_store-Keeps s₀ m k = record { at = λ s v. k.at s.store v }

module _ (h : Host) (s₀ : Store) where
  utc_now-Keeps : Keeps (Same s₀) (utc_now h)
  unfolding utc_now
  utc_now-Keeps = record { at = λ s v. v }

  append_event-Keeps :
      (id : ℕ) (phase : DeploymentPhase) (message : String) (at : ℕ) (code : Option String)
      → Keeps (SameTables s₀) (append_deployment_event id phase message at code)
  append_event-Keeps id phase message at code = record {
    at = λ s v. (
      append_event-deployments s id phase message at code ∙ v.0,
      append_event-endpoints s id phase message at code ∙ v.1,
    );
  }

  append_diagnostics-Keeps :
      (id : ℕ) (ds : List Diagnostic) → Keeps (SameTables s₀) (append_deployment_diagnostics id ds)
  append_diagnostics-Keeps id ds = record {
    at = λ s v.
        (append_diagnostics-deployments s id ds ∙ v.0, append_diagnostics-endpoints s id ds ∙ v.1);
  }

  pub report-Keeps :
      (id : ℕ) (phase : DeploymentPhase) (message text level : String) (code : Option String)
      (r : Deployment)
      → Keeps (Same s₀) (
          append_event h id phase message none
          >> (record_deployment_diagnostic h id text level code >> pure r))
  unfolding append_event record_deployment_diagnostic
  report-Keeps id phase message text level code r =
      search
        (keeps_rules, on_store-Keeps, utc_now-Keeps, append_event-Keeps, append_diagnostics-Keeps)
        depth 9
