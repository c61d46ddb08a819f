-- ===== src/Product/Store/Imports/Soundness.antt =====
-- The writes of model imports leave a store sound.
use cyrene_reactor.Prelude.{Option, none, String, some, refl, List, ℕ}
use cyrene_reactor.Product.Domain.{ModelImport}
use cyrene_reactor.Product.Exec.{◌>>=◌}
use cyrene_reactor.Product.Store.Soundness.{IsSound, IsSound-frame}
use cyrene_reactor.Product.Exec.Keeps.{
  Keeps-option, Keeps-bind, Keeps-raise, Keeps-if, Keeps-transaction, Keeps, keeps_rules,
}
use cyrene_reactor.Product.Store.Deployments.Soundness.{Keeps-resolving, remember_in-Keeps}
use cyrene_reactor.Product.Store.Imports.{
  List, ℕ, ModelImport, insert_import, insert_scope, commit_model_import_intent, save_model_import,
  Scope,
}

pub save_model_import-Keeps : (m : ModelImport) → Keeps IsSound (save_model_import m)
unfolding save_model_import ◌>>=◌
save_model_import-Keeps m = record { at = λ s h. IsSound-frame s _ refl refl refl h }

insert_import-Keeps : (m : ModelImport) → Keeps IsSound (insert_import m)
unfolding insert_import
insert_import-Keeps m = record { at = λ s h. IsSound-frame s _ refl refl refl h }

insert_scope-Keeps : (id : ℕ) (scope : Scope) → Keeps IsSound (insert_scope id scope)
unfolding insert_scope
insert_scope-Keeps id none = record { at = λ s h. h }
insert_scope-Keeps id (some scope) = record { at = λ s h. IsSound-frame s _ refl refl refl h }

pub commit_model_import_intent-Keeps :
    (grants : List (String × (String × String))) (m : ModelImport) (key : Option String)
    (digest ledger : String) (scope : Scope)
    → Keeps IsSound (commit_model_import_intent grants m key digest ledger scope)
unfolding commit_model_import_intent
commit_model_import_intent-Keeps grants m key digest ledger scope = Keeps-transaction _ (
    Keeps-if _ _ _ (Keeps-raise _) (
      Keeps-bind _ _ (Keeps-resolving _) (λ replay.
        Keeps-option replay _ _
          (search (keeps_rules, insert_import-Keeps, insert_scope-Keeps, remember_in-Keeps))
          (λ id. Keeps-resolving _))))
