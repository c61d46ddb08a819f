-- ===== src/Product/Store/Timeline.antt =====
-- store.py: phase events and diagnostics, each numbered 1, 2, … for its deployment.
pub mod Numbering
pub mod Paging
pub mod Writes
mod Examples
use cyrene_reactor.Prelude.Keys.{pair_eq, nat_eq, ◌==◌}
use cyrene_reactor.Prelude.Table
use cyrene_reactor.Product.Exec.{ok, modify, Exec}
use cyrene_reactor.Product.Domain.{DeploymentPhase, Diagnostic}
use cyrene_reactor.Product.Store.{cursor_key, diagnostic_key, DiagnosticRow, DeploymentEvent, Store}
use cyrene_reactor.Prelude.{
  some, none, [], ◌++◌, find, ltb, Option, leb, is_some, take, min, map, ◌+◌, String, keep,
  if◌then◌else◌, Bool, max, length, ◌∷◌, ℕ, List,
}

-- COALESCE(MAX(x), 0)
pub max_of : List ℕ → ℕ
max_of [] = 0
max_of (x ∷ xs) = max x (max_of xs)

-- ORDER BY x ASC: a stable insertion sort.
module _ {A : Type 0} (x : A → ℕ) where
  pub insert_sorted : A → List A → List A
  insert_sorted a [] = a ∷ []
  insert_sorted a (b ∷ bs) = if leb (x a) (x b) then a ∷ b ∷ bs else b ∷ insert_sorted a bs

  pub order_by : List A → List A
  unfolding insert_sorted
  order_by [] = []
  order_by (a ∷ bs) = insert_sorted a (order_by bs)

pub events_of : Store → ℕ → List DeploymentEvent
events_of s id = keep (λ r. r.deployment_id == id) s.events

pub diagnostics_of : Store → ℕ → List DiagnosticRow
diagnostics_of s id = keep (λ r. r.deployment_id == id) s.diagnostics

event_after : ℕ → ℕ → DeploymentPhase → String → ℕ → Option String → DeploymentEvent
event_after last id phase message occurred_at failure_code = record {
  deployment_id = id;
  sequence = last + 1;
  phase = phase;
  message = message;
  occurred_at = occurred_at;
  failure_code = failure_code;
}

unfoldable pub append_deployment_event :
    ℕ → DeploymentPhase → String → ℕ → Option String → Exec Store DeploymentEvent
unfolding event_after events_of max_of
append_deployment_event id phase message occurred_at failure_code s =
    let last = max_of (map (λ (r : DeploymentEvent). r.sequence) (events_of s id)) in
    let event = event_after last id phase message occurred_at failure_code in
    (ok event, record s { events = s.events ++ event ∷ [] })

pub list_deployment_events : Store → ℕ → List DeploymentEvent
unfolding order_by
list_deployment_events s id = order_by (λ r. r.sequence) (events_of s id)

-- The loop of `append_deployment_diagnostics` over the documents.
number : ℕ → ℕ → ℕ → List Diagnostic → List DiagnosticRow
number id index sequence [] = []
number id index sequence (d ∷ ds) =
    record { deployment_id = id; record_index = index; sequence = sequence + 1; document = d }
    ∷ number id (index + 1) (sequence + 1) ds

pub replace_all : List DiagnosticRow → List DiagnosticRow → List DiagnosticRow
replace_all [] rows = rows
replace_all (r ∷ rs) rows = replace_all rs (Table.replace diagnostic_key r rows)

unfoldable pub append_deployment_diagnostics : ℕ → List Diagnostic → Exec Store (List DiagnosticRow)
unfolding number replace_all max_of diagnostics_of
append_deployment_diagnostics id documents s =
    let rows = diagnostics_of s id in
    let appended =
      number id (length rows) (max_of (map (λ (r : DiagnosticRow). r.sequence) rows)) documents in
    (ok appended, record s { diagnostics = replace_all appended s.diagnostics })

pub deployment_diagnostics_count : Store → ℕ → ℕ
deployment_diagnostics_count s id = length (diagnostics_of s id)

-- `bounded = max(1, min(limit, 500))`
pub bounded : ℕ → ℕ
bounded limit = max 1 (min limit 500)

pub list_deployment_diagnostics : Store → ℕ → ℕ → ℕ → List DiagnosticRow
unfolding bounded order_by diagnostics_of
list_deployment_diagnostics s id after_sequence limit =
    take (bounded limit)
      (order_by (λ r. r.sequence) (keep (λ r. ltb after_sequence r.sequence) (diagnostics_of s id)))

-- `mentions` is the `LIKE` over a record's JSON text.
pub deployment_diagnostics_degraded : (Diagnostic → Bool) → Store → ℕ → Bool
deployment_diagnostics_degraded mentions s id =
    is_some (find (λ r. mentions r.document) (diagnostics_of s id))

pub runtime_diagnostics_cursor : Store → ℕ → ℕ
runtime_diagnostics_cursor s id = elim (Table.get cursor_key id s.cursors) [
  | none ↦ 0
  | some c ↦ c.runtime_sequence
]

pub set_runtime_diagnostics_cursor : ℕ → ℕ → Exec Store (Unit {0})
set_runtime_diagnostics_cursor id sequence = modify (λ s. record s {
  cursors =
      Table.replace cursor_key (record { deployment_id = id; runtime_sequence = sequence })
        s.cursors;
})
