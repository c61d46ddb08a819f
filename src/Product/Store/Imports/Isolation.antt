-- ===== src/Product/Store/Imports/Isolation.antt =====
-- A model import stays within the Workspace that made it.
use cyrene_reactor.Prelude.Table
use cyrene_reactor.Prelude.{
  false, Option-cases, and_true, [], inr, refl, ◌&&◌, inl, Bool-cases, ap, none, ◌∷◌, String, some,
  find, ℕ, List, true, Bool, ◌≡◌,
}
use cyrene_reactor.Prelude.Keys.{pair_eq, string_eq, nat_eq, beq→eq, ◌==◌}
use cyrene_reactor.Product.Domain.{ModelImport}
use cyrene_reactor.Product.Store.{scope_key, ModelImport, Bool, ◌≡◌, Store}
use cyrene_reactor.Product.Store.Imports.{
  ◌==◌, is_unscoped, Scope, scope_beq, model_import_scope, is_in_workspace,
  get_model_import_for_workspace, get_unscoped_model_import,
}

scope_beq→eq : (a b : Scope) → scope_beq a b ≡ true → a ≡ b
scope_beq→eq none none h = refl
scope_beq→eq (some p) (some q) h = ap some (beq→eq p q h)
scope_beq→eq none (some q) h = cc
scope_beq→eq (some p) none h = cc

find_sound : {A : Type 0} (p : A → Bool) (xs : List A) (a : A) → find p xs ≡ some a → p a ≡ true
find_sound p [] a e = cc
find_sound p (x ∷ xs) a e = elim (Bool-cases (p x)) [
  | inl passes ↦ let same : some x ≡ some a = rw passes at e in cc
  | inr fails ↦ find_sound p xs a (rw fails at e)
]

unscoped_none :
    (s : Store) (m : ModelImport) → is_unscoped s m ≡ true → model_import_scope s m.id ≡ none
unfolding is_unscoped model_import_scope
unscoped_none s m h = elim (Option-cases (Table.get scope_key m.id s.import_scopes)) [
  | inl missing ↦ rw missing refl
  | inr (row, found) ↦ let no : false ≡ true = rw found at h in cc
]

-- A read by a Workspace finds only an import with the asked identifier that this very Workspace made.
pub workspace_import_isolated :
    (s : Store) (id : ℕ) (organization workspace : String) (m : ModelImport)
    → get_model_import_for_workspace s id organization workspace ≡ some m
    → (m.id ≡ id) × (model_import_scope s id ≡ some (organization, workspace))
unfolding get_model_import_for_workspace is_in_workspace
workspace_import_isolated s id organization workspace m e =
    let passed =
      find_sound (λ m. m.id == id && is_in_workspace s organization workspace m) s.model_imports m
        e in
    let (same, inside) =
      and_true (m.id == id) (is_in_workspace s organization workspace m) passed in
    let is_id = beq→eq m.id id same in
    (
      is_id,
      rw is_id at
          (scope_beq→eq (model_import_scope s m.id) (some (organization, workspace)) inside),
    )

-- A read without a Workspace finds only an import with the asked identifier that no Workspace made.
pub unscoped_import_isolated :
    (s : Store) (id : ℕ) (m : ModelImport)
    → get_unscoped_model_import s id ≡ some m
    → (m.id ≡ id) × (model_import_scope s id ≡ none)
unfolding get_unscoped_model_import
unscoped_import_isolated s id m e =
    let passed = find_sound (λ m. m.id == id && is_unscoped s m) s.model_imports m e in
    let (same, outside) = and_true (m.id == id) (is_unscoped s m) passed in
    let is_id = beq→eq m.id id same in (is_id, rw is_id at (unscoped_none s m outside))
