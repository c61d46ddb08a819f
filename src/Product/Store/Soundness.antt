-- ===== src/Product/Store/Soundness.antt =====
-- What holds of every store that the service writes: the timelines and the endpoints.
use cyrene_reactor.Product.Store.Timeline.Writes.{
  append_event-endpoints, append_diagnostics-endpoints, Keeps-set_cursor,
}
use cyrene_reactor.Product.Domain.{Diagnostic, DeploymentPhase}
use cyrene_reactor.Prelude.{Option, String, List, ℕ, ◌≡◌}
use cyrene_reactor.Product.Store.{DeploymentPhase, Store}
use cyrene_reactor.Product.Store.Timeline.Numbering.{
  IsTimeline, append_deployment_event-IsTimeline, append_deployment_diagnostics-IsTimeline,
}
use cyrene_reactor.Product.Store.Timeline.{
  set_runtime_diagnostics_cursor, append_deployment_event, append_deployment_diagnostics,
}
use cyrene_reactor.Product.Store.Deployments.Pairs.{HasOneEndpoint}
use cyrene_reactor.Product.Exec.Keeps.{Keeps}

pub record IsSound (s : Store) : Type 0 where
  pub timeline : IsTimeline s
  pub endpoints : HasOneEndpoint s

-- It depends on three tables only.
pub IsTimeline-frame :
    (s s' : Store)
    → s'.events ≡ s.events
    → s'.diagnostics ≡ s.diagnostics
    → IsTimeline s
    → IsTimeline s'
IsTimeline-frame s s' e d h = record {
  events = rw e h.events;
  diagnostics = rw d h.diagnostics;
  places = rw d h.places;
}

pub IsSound-frame :
    (s s' : Store)
    → s'.events ≡ s.events
    → s'.diagnostics ≡ s.diagnostics
    → s'.endpoints ≡ s.endpoints
    → IsSound s
    → IsSound s'
IsSound-frame s s' e d p h = record {
  timeline = IsTimeline-frame s s' e d h.timeline;
  endpoints = record { by_id = rw p h.endpoints.by_id; by_owner = rw p h.endpoints.by_owner };
}

pub append_deployment_event-Keeps :
    (id : ℕ) (phase : DeploymentPhase) (message : String) (at : ℕ) (code : Option String)
    → Keeps IsSound (append_deployment_event id phase message at code)
append_deployment_event-Keeps id phase message at code = record {
  at = λ s h. record {
    timeline = append_deployment_event-IsTimeline s id phase message at code h.timeline;
    endpoints = record {
      by_id = rw (append_event-endpoints s id phase message at code) h.endpoints.by_id;
      by_owner = rw (append_event-endpoints s id phase message at code) h.endpoints.by_owner;
    };
  };
}

pub append_diagnostics-Keeps :
    (id : ℕ) (ds : List Diagnostic) → Keeps IsSound (append_deployment_diagnostics id ds)
append_diagnostics-Keeps id ds = record {
  at = λ s h. record {
    timeline = (append_deployment_diagnostics-IsTimeline s id ds h.timeline).0;
    endpoints = record {
      by_id = rw (append_diagnostics-endpoints s id ds) h.endpoints.by_id;
      by_owner = rw (append_diagnostics-endpoints s id ds) h.endpoints.by_owner;
    };
  };
}

pub set_cursor-Keeps :
    (id sequence : ℕ) → Keeps IsSound (set_runtime_diagnostics_cursor id sequence)
set_cursor-Keeps id sequence =
    Keeps-set_cursor (λ s s' e d p h. IsSound-frame s s' e d p h) id sequence
