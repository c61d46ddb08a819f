-- ===== src/Product/Store/Imports.antt =====
-- store.py: model imports, their Workspace provenance and the requests that made them.
pub mod Isolation
pub mod Soundness
mod Examples
use cyrene_reactor.Product.Errors.{Code, product_error}
use cyrene_reactor.Prelude.Keys.{pair_eq, string_eq, nat_eq, ◌==◌}
use cyrene_reactor.Product.Store.Deployments.{
  remember_in, resolve_in, resolving, list_deployments, insert,
}
use cyrene_reactor.Prelude.Table
use cyrene_reactor.Product.Exec.{
  pure, ◌>>◌, ◌>>=◌, raise, err, modify, transaction, ok, Result, Exec,
}
use mathlib.Core.Option
use cyrene_reactor.Product.Domain.{ObservedState, ModelImportState, Deployment, ModelImport}
use cyrene_reactor.Product.Store.{import_key, intent, scope_key, Store}
use cyrene_reactor.Prelude.{
  [], false, ◌&&◌, none, keep, some, is_some, if◌then◌else◌, true, ◌++◌, ◌∷◌, reverse, find, not,
  String, ℕ, List, Bool, Option,
}

-- `None`, or the pair of organization and Workspace.
abbrev pub Scope : Type 0
Scope = Option (String × String)

pub model_import_scope : Store → ℕ → Scope
model_import_scope s id =
    Option.map (λ r. (r.organization_id, r.workspace_id)) (Table.get scope_key id s.import_scopes)

abbrev pub scope_beq : Scope → Scope → Bool
scope_beq none none = true
scope_beq (some p) (some q) = p == q
scope_beq _ _ = false

-- A grant names a serving binding, an organization and a Workspace.
pub granted : List (String × (String × String)) → String → Scope → Bool
granted grants binding none = true
granted grants binding (some scope) = is_some (find (λ g. g == (binding, scope)) grants)

pub insert_import : ModelImport → Exec Store (Unit {0})
insert_import m s =
    let (r, rows) = insert import_key m s.model_imports in (r, record s { model_imports = rows })

pub insert_scope : ℕ → Scope → Exec Store (Unit {0})
insert_scope id none s = (ok tt, s)
insert_scope id (some (organization, workspace)) s =
    let (r, rows) =
      insert scope_key
        (record { id = id; organization_id = organization; workspace_id = workspace })
        s.import_scopes in
    (r, record s { import_scopes = rows })

-- A replay is answered only within the scope that the import was made in.
replay_in_scope : Scope → ℕ → Store → Result (Option ℕ)
unfolding model_import_scope
replay_in_scope scope id s =
    if scope_beq (model_import_scope s id) scope
    then ok (some id)
    else err (product_error Code.scope_conflict 409)

pub commit_model_import_intent :
    List (String × (String × String))
    → ModelImport
    → Option String
    → String
    → String
    → Scope
    → Exec Store (Option ℕ)
unfolding replay_in_scope granted insert_scope insert_import
commit_model_import_intent grants m key digest idempotency_scope scope = transaction (
    if not (granted grants m.serving_binding_id scope)
    then raise (product_error Code.binding_not_granted 403)
    else do
      replay ← resolving (λ s. resolve_in s idempotency_scope key digest)
      elim replay [
        | some id ↦ resolving (replay_in_scope scope id)
        | none ↦ do
          insert_import m
          remember_in idempotency_scope key digest m.id
          insert_scope m.id scope
          pure none
      ])

pub save_model_import : ModelImport → Exec Store (Unit {0})
save_model_import m =
    modify (λ s. record s { model_imports = Table.replace import_key m s.model_imports })

pub get_model_import : Store → ℕ → Option ModelImport
get_model_import s id = Table.get import_key id s.model_imports

-- LEFT JOIN ... WHERE model_import_scopes.id IS NULL
pub is_unscoped : Store → ModelImport → Bool
is_unscoped s m = not (is_some (Table.get scope_key m.id s.import_scopes))

pub get_unscoped_model_import : Store → ℕ → Option ModelImport
unfolding is_unscoped
get_unscoped_model_import s id = find (λ m. m.id == id && is_unscoped s m) s.model_imports

-- JOIN ... WHERE organization_id = ? AND workspace_id = ?
pub is_in_workspace : Store → String → String → ModelImport → Bool
unfolding model_import_scope
is_in_workspace s organization workspace m =
    scope_beq (model_import_scope s m.id) (some (organization, workspace))

pub get_model_import_for_workspace : Store → ℕ → String → String → Option ModelImport
unfolding is_in_workspace
get_model_import_for_workspace s id organization workspace =
    find (λ m. m.id == id && is_in_workspace s organization workspace m) s.model_imports

pub list_model_imports : Store → List ModelImport
unfolding is_unscoped
list_model_imports s = reverse (keep (is_unscoped s) s.model_imports)

pub list_model_imports_for_workspace : Store → String → String → List ModelImport
unfolding is_in_workspace
list_model_imports_for_workspace s organization workspace =
    reverse (keep (is_in_workspace s organization workspace) s.model_imports)

-- `list_active_activity_tasks`
pub data TaskId : Type 0 where
  import_task deployment_task : ℕ → TaskId

pub data TaskState : Type 0 where
  accepted running dispatching canceling : TaskState

import_tasks : List ModelImport → List (TaskId × TaskState)
import_tasks [] = []
import_tasks (m ∷ ms) = elim m.state [
  | ModelImportState.validating ↦ (import_task m.id, running) ∷ import_tasks ms
  | _ ↦ import_tasks ms
]

deployment_tasks : List Deployment → List (TaskId × TaskState)
deployment_tasks [] = []
deployment_tasks (d ∷ ds) = elim d.observed_state [
  | ObservedState.starting ↦ (deployment_task d.id, dispatching) ∷ deployment_tasks ds
  | ObservedState.stopping ↦ (deployment_task d.id, canceling) ∷ deployment_tasks ds
  | _ ↦ deployment_tasks ds
]

pub list_active_activity_tasks : Store → List (TaskId × TaskState)
unfolding import_tasks deployment_tasks
list_active_activity_tasks s = import_tasks s.model_imports ++ deployment_tasks (list_deployments s)
