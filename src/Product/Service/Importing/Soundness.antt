-- ===== src/Product/Service/Importing/Soundness.antt =====
-- Importing a model keeps the store sound.
use cyrene_reactor.Product.Store.Imports.Soundness.{commit_model_import_intent-Keeps}
use cyrene_reactor.Product.Store.Deployments.Soundness.{Keeps-resolving}
use cyrene_reactor.Product.Exec.Keeps.{Keeps-option, Keeps-raise, Keeps-if, Keeps-bind, Keeps}
use cyrene_reactor.Product.Domain.{ModelImportResult, CreateModelImportRequest, ModelImport}
use cyrene_reactor.Prelude.{not, none, String, some, Option, ℕ}
use cyrene_reactor.Product.Service.Soundness.{
  tracked-Keeps, uuid4-Keeps, on_store-Keeps, utc_now-Keeps, engine_for-Keeps, HasSoundStore,
  service_rules,
}
use cyrene_reactor.Product.Service.{
  CreateModelImportRequest, ℕ, Host, Engine, Attempt, done, failed,
}
use cyrene_reactor.Product.Service.Importing.{
  granted, new_import, new_model_import, replay_import, run_import, ModelImport,
  require_model_import, conclude_import, create_model_import,
}
use cyrene_reactor.Product.Store.Imports.{granted, Scope}

require_import-Keeps :
    (scope : Scope) (id : ℕ) → Keeps HasSoundStore (require_model_import scope id)
unfolding require_model_import
require_import-Keeps none id = search service_rules
require_import-Keeps (some scope) id = search service_rules

module _ (h : Host) where
  conclude_import-Keeps :
      (m : ModelImport) (o : Attempt ModelImportResult)
      → Keeps HasSoundStore (conclude_import h m o)
  unfolding conclude_import
  conclude_import-Keeps m (failed exc) = search service_rules
  conclude_import-Keeps m (done result) = search service_rules

  run_import-Keeps :
      (engine : Engine) (command : CreateModelImportRequest) (m : ModelImport)
      → Keeps HasSoundStore (run_import h engine command m)
  unfolding run_import
  run_import-Keeps engine command m = search (service_rules, conclude_import-Keeps)

  replay_import-Keeps :
      (m : ModelImport) (scope : Scope) (id : ℕ) → Keeps HasSoundStore (replay_import h m scope id)
  unfolding replay_import
  replay_import-Keeps m scope id = search (service_rules, require_import-Keeps)

  new_model_import-Keeps :
      (command : CreateModelImportRequest) (key : Option String) (scope : Scope) (digest : String)
      → Keeps HasSoundStore (new_model_import h command key scope digest)
  unfolding new_model_import
  new_model_import-Keeps command key scope digest = Keeps-bind _ _ (engine_for-Keeps h _) (λ engine.
      Keeps-bind _ _ (utc_now-Keeps h) (λ now. Keeps-bind _ _ (uuid4-Keeps h) (λ id.
        Keeps-bind _ _
          (tracked-Keeps h _ _ _ (on_store-Keeps _ (commit_model_import_intent-Keeps _ _ _ _ _ _)))
          (λ replay.
            Keeps-option replay _ _ (run_import-Keeps engine command (new_import command id now))
              (λ other. replay_import-Keeps (new_import command id now) scope other)))))

  pub create_model_import-Keeps :
      (command : CreateModelImportRequest) (key : Option String) (scope : Scope)
      → Keeps HasSoundStore (create_model_import h command key scope)
  unfolding create_model_import
  create_model_import-Keeps command key scope =
      Keeps-if command.trust_remote_code _ _ (Keeps-raise _) (
        Keeps-if (not (granted h.grants command.serving_binding_id scope)) _ _ (Keeps-raise _) (
          Keeps-bind _ _ (on_store-Keeps _ (Keeps-resolving _)) (λ replay.
            Keeps-option replay _ _
              (new_model_import-Keeps command key scope (h.import_hash command))
              (λ id. require_import-Keeps scope id))))
