-- ===== src/Product/Store/Imports/Examples.antt =====
-- The theorems on model imports at a small store.
use cyrene_reactor.Prelude.Table
use cyrene_reactor.Prelude.{refl, none, some, [], ◌≡◌, ◌∷◌}
use cyrene_reactor.Product.Store.{◌≡◌, Store, empty}
use cyrene_reactor.Product.Domain.Samples.{chat_import}
use cyrene_reactor.Product.Store.Imports.{
  is_unscoped, is_in_workspace, ◌∷◌, model_import_scope, get_model_import_for_workspace,
  get_unscoped_model_import,
}
use cyrene_reactor.Product.Store.Imports.Isolation.{
  workspace_import_isolated, unscoped_import_isolated,
}

abbrev unscoped : Store
unscoped = record empty { model_imports = chat_import ∷ [] }

abbrev scoped : Store
scoped = record unscoped {
  import_scopes = record { id = 3; organization_id = "o"; workspace_id = "w" } ∷ [];
}

workspace_finds : get_model_import_for_workspace scoped 3 "o" "w" ≡ some chat_import
unfolding get_model_import_for_workspace is_in_workspace model_import_scope Table.get
workspace_finds = refl

other_workspace_misses : get_model_import_for_workspace scoped 3 "o" "x" ≡ none
unfolding get_model_import_for_workspace is_in_workspace model_import_scope Table.get
other_workspace_misses = refl

unscoped_finds : get_unscoped_model_import unscoped 3 ≡ some chat_import
unfolding get_unscoped_model_import is_unscoped Table.get
unscoped_finds = refl

workspace_import_isolated_example :
    (chat_import.id ≡ 3) × (model_import_scope scoped 3 ≡ some ("o", "w"))
workspace_import_isolated_example =
    workspace_import_isolated scoped 3 "o" "w" chat_import workspace_finds

unscoped_import_isolated_example : (chat_import.id ≡ 3) × (model_import_scope unscoped 3 ≡ none)
unscoped_import_isolated_example = unscoped_import_isolated unscoped 3 chat_import unscoped_finds
