-- ===== src/Product/Service/Diagnostics.antt =====
-- service.py, `deployment_diagnostics`, `_harvest_runtime_diagnostics`, `_bound_diagnostics` and
-- `deployment_events`, with the checks of `DiagnosticRecord` in domain.py.
pub mod Soundness
use cyrene_reactor.Product.Store.Timeline.{
  deployment_diagnostics_degraded, runtime_diagnostics_cursor, append_deployment_diagnostics,
  set_runtime_diagnostics_cursor, list_deployment_events, list_deployment_diagnostics,
}
use cyrene_reactor.Product.Store.Deployments.{get_execution_ref}
use cyrene_reactor.Product.Errors.{Code, product_error, value_error}
use cyrene_reactor.Prelude.Keys.{string_eq, ◌==◌}
use cyrene_reactor.Prelude.{
  ◌&&◌, zero, ◌||◌, ◌++◌, ltb, none, false, [], if◌then◌else◌, some, true, reverse, ◌∷◌, suc, Bool,
  ◌*◌, Option, String, List, ℕ,
}
use cyrene_reactor.Product.Exec.{raise, gets, ◌>>◌, ◌>>=◌, pure, Exec}
use Prim.Native.String.{[], ◌∷◌, String}
use cyrene_reactor.Product.Store.{DeploymentEvent, DiagnosticRow}
use cyrene_reactor.Product.Domain.{Diagnostic, Deployment, ObservedState}
use cyrene_reactor.Product.Service.{
  ask, append_deployment_diagnostics, product_diagnostic, engine_for, on_store, utc_now,
  require_deployment, DeploymentEvent, Exec, Diagnostic, Deployment, List, ℕ, State, Host, Engine,
  Call, RuntimeRecord, RuntimePage,
}
use Prim.Native.String

pub record DiagnosticsPage : Type 0 where
  pub resource_id : ℕ
  pub items : List DiagnosticRow
  pub next_sequence : ℕ
  pub terminal : Bool
  pub diagnostics_degraded : Bool

-- Python's integers, over the native numbers: `negsuc n` is -(n + 1).
pub data ℤ : Type 0 where
  pos negsuc : ℕ → ℤ

-- At most `n` code points.
fits : ℕ → String → Bool
fits n String.[] = true
fits zero (String.◌∷◌ c s) = false
fits (suc n) (String.◌∷◌ c s) = fits n s

abbrev fits_option : ℕ → Option String → Bool
unfolding fits
fits_option n none = true
fits_option n (some s) = fits n s

abbrev is_one_of : List String → String → Bool
is_one_of [] t = false
is_one_of (x ∷ xs) t = t == x || is_one_of xs t

-- `DiagnosticRecord.model_validate` accepts the record.
is_record : DiagnosticRow → Bool
unfolding fits fits_option
is_record r =
    ltb 0 r.sequence
    && is_one_of ("debug" ∷ "info" ∷ "warn" ∷ "error" ∷ []) r.document.level
    && is_one_of ("product" ∷ "trainer" ∷ "runtime" ∷ "platform" ∷ []) r.document.source
    && is_one_of ("stdout" ∷ "stderr" ∷ "combined" ∷ []) r.document.stream
    && fits_option 200 r.document.code
    && fits 8192 r.document.message
    && fits_option 200 r.document.request_id
    && fits_option 200 r.document.operation_id

abbrev all_records : List DiagnosticRow → Bool
unfolding is_record
all_records [] = true
all_records (r ∷ rs) = is_record r && all_records rs

-- The list of `model_validate(record)`, which raises pydantic's `ValidationError`.
pub validated : List DiagnosticRow → Exec State (List DiagnosticRow)
unfolding all_records
validated records =
    if all_records records then pure records else raise (value_error "ValidationError")

-- `text[:n]`
clip : ℕ → String → String
clip zero s = ""
clip (suc n) String.[] = ""
clip (suc n) (String.◌∷◌ c s) = String.◌∷◌ c (clip n s)

runtime_diagnostic : ℕ → RuntimeRecord → Diagnostic
unfolding clip
runtime_diagnostic id r = record {
  timestamp = r.timestamp;
  level = r.level;
  source = "runtime";
  stream = r.stream;
  code = r.code;
  message = clip 8192 r.message;
  request_id = r.request_id;
  operation_id = r.operation_id;
  resource_id = id;
  truncated = r.truncated;
}

runtime_diagnostics : ℕ → List (Option RuntimeRecord) → List Diagnostic
unfolding runtime_diagnostic
runtime_diagnostics id [] = []
runtime_diagnostics id (none ∷ items) = runtime_diagnostics id items
runtime_diagnostics id (some r ∷ items) = runtime_diagnostic id r ∷ runtime_diagnostics id items

-- `while kept and size(kept) > DIAGNOSTICS_PAGE_MAX_BYTES: kept.pop()`, on the items newest first.
abbrev pub page_max_bytes : ℕ
page_max_bytes = 1024 * 1024

module _ (page_bytes : List DiagnosticRow → ℕ) where
  pub pop_until_small : List DiagnosticRow → List DiagnosticRow
  pop_until_small [] = []
  pop_until_small (r ∷ rs) =
      let shorter = pop_until_small rs in
      if ltb page_max_bytes (page_bytes (reverse (r ∷ rs))) then shorter else r ∷ rs

  pub bound_diagnostics : List DiagnosticRow → List DiagnosticRow
  unfolding pop_until_small
  bound_diagnostics items = reverse (pop_until_small (reverse items))

-- `items[-1].sequence if items else after_sequence`
pub last_sequence : ℕ → List DiagnosticRow → ℕ
last_sequence after_sequence [] = after_sequence
last_sequence after_sequence (r ∷ rs) = last_sequence r.sequence rs

abbrev is_terminal : ObservedState → Bool
is_terminal ObservedState.stopped = true
is_terminal ObservedState.failed = true
is_terminal _ = false

module _ (h : Host) where
  degraded_documents : ℕ → Bool → Exec State (List Diagnostic)
  degraded_documents id false = pure []
  degraded_documents id true = do
    time ← utc_now h
    pure (
        record (product_diagnostic h id time "warn"
          "The serving runtime could not keep all of its output."
          (some "REACTOR.DIAGNOSTICS.DEGRADED")) { source = "runtime" }
        ∷ [])

  advance_cursor : ℕ → Option ℕ → Exec State (Unit {0})
  advance_cursor id none = pure tt
  advance_cursor id (some next) = on_store (set_runtime_diagnostics_cursor id next)

  append_documents : ℕ → List Diagnostic → Exec State (Unit {0})
  append_documents id [] = pure tt
  append_documents id (d ∷ ds) = do on_store (append_deployment_diagnostics id (d ∷ ds)); pure tt

  store_page : ℕ → Option RuntimePage → Exec State Bool
  unfolding runtime_diagnostics degraded_documents advance_cursor append_documents
  store_page id none = pure true
  store_page id (some page) = do
    degraded ← degraded_documents id page.diagnostics_degraded
    append_documents id (runtime_diagnostics id page.items ++ degraded)
    advance_cursor id page.next_sequence
    pure page.diagnostics_degraded

  harvest_from : Deployment → Option String → Exec State Bool
  unfolding store_page
  harvest_from d none = pure false
  harvest_from d (some ref) = do
    engine ← engine_for h d.serving_binding_id
    elim engine.on_diagnostics [
      | none ↦ pure true
      | some reader ↦ do
        cursor ← gets (λ s. runtime_diagnostics_cursor s.store d.id)
        page ← ask (Call.diagnostics ref cursor 500) reader
        store_page d.id page
    ]

  -- `_harvest_runtime_diagnostics`
  pub harvest : Deployment → Exec State Bool
  unfolding harvest_from
  harvest d = do ref ← gets (λ s. get_execution_ref s.store d.id); harvest_from d ref

  -- `mentions` is the `LIKE` of the store and `page_bytes` the size of a page's JSON text.
  read_page :
      (Diagnostic → Bool) → (List DiagnosticRow → ℕ) → ℕ → ℕ → ℕ → Exec State DiagnosticsPage
  unfolding harvest bound_diagnostics last_sequence validated
  read_page mentions page_bytes id after_sequence limit = do
    d ← require_deployment id
    degraded ← harvest d
    records ← gets (λ s. list_deployment_diagnostics s.store id after_sequence limit)
    valid ← validated records
    stored ← gets (λ s. deployment_diagnostics_degraded mentions s.store id)
    let items = bound_diagnostics page_bytes valid in
        pure (record {
          resource_id = id;
          items = items;
          next_sequence = last_sequence after_sequence items;
          terminal = is_terminal d.observed_state;
          diagnostics_degraded = degraded || stored;
        })

  pub deployment_diagnostics :
      (Diagnostic → Bool) → (List DiagnosticRow → ℕ) → ℕ → ℤ → ℕ → Exec State DiagnosticsPage
  unfolding read_page
  deployment_diagnostics mentions page_bytes id (negsuc n) limit =
      raise (product_error Code.diagnostics_sequence_invalid 422)
  deployment_diagnostics mentions page_bytes id (pos after_sequence) limit =
      read_page mentions page_bytes id after_sequence limit

pub deployment_events : ℕ → Exec State (List DeploymentEvent)
deployment_events id = do require_deployment id; gets (λ s. list_deployment_events s.store id)
