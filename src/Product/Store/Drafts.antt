-- ===== src/Product/Store/Drafts.antt =====
-- store.py: deployment drafts.
use cyrene_reactor.Product.Errors.{Code, product_error}
use cyrene_reactor.Prelude.Keys.{nat_eq}
use cyrene_reactor.Prelude.Table
use cyrene_reactor.Product.Store.Deployments.{remember_in, resolve_in, resolving, insert}
use cyrene_reactor.Product.Exec.{ok, err, pure, ◌>>◌, ◌>>=◌, modify, transaction, Result, Exec}
use cyrene_reactor.Prelude.{none, some, reverse, List, String, ℕ}
use cyrene_reactor.Product.Domain.{DeploymentDraft}
use cyrene_reactor.Product.Store.{draft_key, List, String, ℕ, Store}

pub get_draft : Store → ℕ → Result DeploymentDraft
get_draft s id = elim (Table.get draft_key id s.drafts) [
  | none ↦ err (product_error Code.draft_not_found 404)
  | some draft ↦ ok draft
]

pub insert_draft : DeploymentDraft → Exec Store (Unit {0})
insert_draft d s = let (r, rows) = insert draft_key d s.drafts in (r, record s { drafts = rows })

pub create_draft : DeploymentDraft → String → String → Exec Store DeploymentDraft
unfolding insert_draft
create_draft draft key digest = transaction (do
  replay ← resolving (λ s. resolve_in s "deployment-draft" (some key) digest)
  elim replay [
    | some id ↦ resolving (λ s. get_draft s id)
    | none ↦ do
      insert_draft draft
      remember_in "deployment-draft" (some key) digest draft.id
      pure draft
  ])

pub save_draft : DeploymentDraft → Exec Store (Unit {0})
save_draft draft = modify (λ s. record s { drafts = Table.replace draft_key draft s.drafts })

pub list_drafts : Store → List DeploymentDraft
list_drafts s = reverse s.drafts
