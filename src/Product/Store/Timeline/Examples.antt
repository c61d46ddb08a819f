-- ===== src/Product/Store/Timeline/Examples.antt =====
-- The theorems on the timeline at a small store.
use cyrene_reactor.Product.Exec.{ok}
use cyrene_reactor.Product.Domain.{Diagnostic, DeploymentPhase}
use cyrene_reactor.Product.Store.Timeline.Numbering.{
  contents, for_deployment, IsTimeline, upto, append_deployment_event-IsTimeline,
  append_deployment_diagnostics-IsTimeline,
}
use cyrene_reactor.Prelude.{
  map, [], length, drop, ◌∷◌, false, ◌+◌, take, none, ◌++◌, ◌≡◌, List, refl, String,
}
use cyrene_reactor.Product.Store.{DiagnosticRow, ◌≡◌, List, DeploymentPhase, String, Store, empty}
use cyrene_reactor.Product.Store.Timeline.{
  ok, ◌++◌, append_deployment_event, append_deployment_diagnostics, list_deployment_events,
  list_deployment_diagnostics, events_of, diagnostics_of, bounded,
}
use cyrene_reactor.Product.Store.Timeline.Paging.{
  list_deployment_events_lem, list_deployment_diagnostics_lem, pages_tile, last_number,
}

abbrev line : String → Diagnostic
line text = record {
  timestamp = "t";
  level = "info";
  source = "runtime";
  stream = "stdout";
  code = none;
  message = text;
  request_id = none;
  operation_id = none;
  resource_id = 1;
  truncated = false;
}

empty-IsTimeline : IsTimeline empty
unfolding upto
empty-IsTimeline = record { events = λ id. refl; diagnostics = λ id. refl; places = λ id. refl }

abbrev with_event : Store
with_event = (append_deployment_event 1 DeploymentPhase.queued "queued" 5 none empty).1

with_event-IsTimeline : IsTimeline with_event
with_event-IsTimeline =
    append_deployment_event-IsTimeline empty 1 DeploymentPhase.queued "queued" 5 none
      empty-IsTimeline

abbrev lines : List Diagnostic
lines = line "a" ∷ line "b" ∷ line "c" ∷ []

abbrev with_lines : Store
with_lines = (append_deployment_diagnostics 1 lines with_event).1

with_lines-IsTimeline : IsTimeline with_lines
with_lines-IsTimeline =
    (append_deployment_diagnostics-IsTimeline with_event 1 lines with_event-IsTimeline).0

append_deployment_event-IsTimeline_example :
    IsTimeline (append_deployment_event 1 DeploymentPhase.loading "loading" 6 none with_event).1
append_deployment_event-IsTimeline_example =
    append_deployment_event-IsTimeline with_event 1 DeploymentPhase.loading "loading" 6 none
      with_event-IsTimeline

append_deployment_diagnostics-IsTimeline_example :
    IsTimeline with_lines
    × ((rows : List DiagnosticRow) × ((append_deployment_diagnostics 1 lines with_event).0
          ≡ ok rows)
        × (with_lines.diagnostics ≡ with_event.diagnostics ++ rows)
        × (map contents rows ≡ map (for_deployment 1) lines))
append_deployment_diagnostics-IsTimeline_example =
    append_deployment_diagnostics-IsTimeline with_event 1 lines with_event-IsTimeline

events_listed : list_deployment_events with_event 1 ≡ events_of with_event 1
events_listed = list_deployment_events_lem with_event 1 with_event-IsTimeline

list_deployment_diagnostics_lem_example :
    list_deployment_diagnostics with_lines 1 1 2
    ≡ take (bounded 2) (drop 1 (diagnostics_of with_lines 1))
list_deployment_diagnostics_lem_example =
    list_deployment_diagnostics_lem with_lines 1 1 2 with_lines-IsTimeline

pages_tile_example :
    (let page = list_deployment_diagnostics with_lines 1 0 2 in
      page ++ list_deployment_diagnostics with_lines 1 (last_number 0 page) 2
      ≡ take (length page + bounded 2) (drop 0 (diagnostics_of with_lines 1)))
pages_tile_example = pages_tile with_lines 1 0 2 2 with_lines-IsTimeline
