-- ===== src/Product/Service/Diagnostics/Soundness.antt =====
-- Harvesting diagnostics keeps the store sound.
use cyrene_reactor.Product.Store.Soundness.{set_cursor-Keeps, append_diagnostics-Keeps}
use cyrene_reactor.Product.Store.{DiagnosticRow}
use cyrene_reactor.Product.Exec.Keeps.{Keeps-raise, Keeps-option, Keeps-bind, Keeps-pure, Keeps}
use cyrene_reactor.Prelude.{none, false, true, ◌∷◌, some, [], String, List, Bool, Option, ℕ}
use cyrene_reactor.Product.Domain.{Diagnostic, Deployment}
use cyrene_reactor.Product.Service.Soundness.{
  engine_for-Keeps, on_store-Keeps, HasSoundStore, service_rules,
}
use cyrene_reactor.Product.Service.{Bool, Option, ℕ, Diagnostic, Deployment, Host, RuntimePage}
use cyrene_reactor.Product.Service.Diagnostics.{
  pos, negsuc, ℤ, read_page, validated, DiagnosticRow, harvest_from, store_page, append_documents,
  advance_cursor, degraded_documents, harvest, deployment_diagnostics,
}

module _ (h : Host) where
  degraded_documents-Keeps : (id : ℕ) (b : Bool) → Keeps HasSoundStore (degraded_documents h id b)
  unfolding degraded_documents
  degraded_documents-Keeps id false = Keeps-pure []
  degraded_documents-Keeps id true = search service_rules

  advance_cursor-Keeps : (id : ℕ) (next : Option ℕ) → Keeps HasSoundStore (advance_cursor h id next)
  unfolding advance_cursor
  advance_cursor-Keeps id none = Keeps-pure tt
  advance_cursor-Keeps id (some next) = on_store-Keeps _ (set_cursor-Keeps id next)

  append_documents-Keeps :
      (id : ℕ) (ds : List Diagnostic) → Keeps HasSoundStore (append_documents h id ds)
  unfolding append_documents
  append_documents-Keeps id [] = Keeps-pure tt
  append_documents-Keeps id (d ∷ ds) = search (service_rules, append_diagnostics-Keeps)

  store_page-Keeps :
      (id : ℕ) (page : Option RuntimePage) → Keeps HasSoundStore (store_page h id page)
  unfolding store_page
  store_page-Keeps id none = Keeps-pure true
  store_page-Keeps id (some page) =
      search (service_rules, degraded_documents-Keeps, append_documents-Keeps, advance_cursor-Keeps)

  harvest_from-Keeps :
      (d : Deployment) (ref : Option String) → Keeps HasSoundStore (harvest_from h d ref)
  unfolding harvest_from
  harvest_from-Keeps d none = Keeps-pure false
  harvest_from-Keeps d (some ref) = Keeps-bind _ _ (engine_for-Keeps h _) (λ engine.
      Keeps-option engine.on_diagnostics _ _ (Keeps-pure true)
        (λ reader. search (service_rules, store_page-Keeps)))

  harvest-Keeps : (d : Deployment) → Keeps HasSoundStore (harvest h d)
  unfolding harvest
  harvest-Keeps d = search (service_rules, harvest_from-Keeps)

  validated-Keeps : (rows : List DiagnosticRow) → Keeps HasSoundStore (validated rows)
  unfolding validated
  validated-Keeps rows = search (service_rules, Keeps-raise)

  read_page-Keeps :
      (mentions : Diagnostic → Bool) (page_bytes : List DiagnosticRow → ℕ) (id after limit : ℕ)
      → Keeps HasSoundStore (read_page h mentions page_bytes id after limit)
  unfolding read_page
  read_page-Keeps mentions page_bytes id after limit =
      search (service_rules, harvest-Keeps, validated-Keeps) depth 9

  pub deployment_diagnostics-Keeps :
      (mentions : Diagnostic → Bool) (page_bytes : List DiagnosticRow → ℕ) (id : ℕ) (after : ℤ)
      (limit : ℕ)
      → Keeps HasSoundStore (deployment_diagnostics h mentions page_bytes id after limit)
  unfolding deployment_diagnostics
  deployment_diagnostics-Keeps mentions page_bytes id (negsuc n) limit = Keeps-raise _
  deployment_diagnostics-Keeps mentions page_bytes id (pos after) limit =
      read_page-Keeps mentions page_bytes id after limit
