-- ===== src/Product/Store/Deployments.antt =====
-- store.py: deployments, endpoints, execution evidence and the ledger of create requests.
pub mod Idempotency
pub mod Pairs
pub mod Soundness
mod Examples
use cyrene_reactor.Product.Errors.{Code, product_error, integrity_error}
use mathlib.Core.Option
use cyrene_reactor.Product.Exec.{◌>>◌, ◌>>=◌, err, transaction, pure, ok, modify, Result, Exec}
use cyrene_reactor.Prelude.{none, [], ◌∷◌, ◌++◌, is_some, if◌then◌else◌, reverse, some}
use cyrene_reactor.Prelude.Table
use cyrene_reactor.Prelude.Keys.{pair_eq, string_eq, nat_eq, ◌==◌, Eq}
use cyrene_reactor.Product.Store.{
  Option, String, List, ℕ, Deployment, Endpoint, Store, Replay, Evidence, deployment_key,
  endpoint_key, evidence_key, replay_key,
}

-- The `UNIQUE` column of `endpoints`.
abbrev pub by_deployment : Endpoint → ℕ
by_deployment e = e.deployment_id

-- INSERT, which a row with the same primary key makes fail.
pub insert : {K R : Type 0} ⦃e : Eq K⦄ → (R → K) → R → Exec (List R) (Unit {0})
insert key r rows =
    if is_some (Table.get key (key r) rows)
    then (err integrity_error, rows)
    else (ok tt, rows ++ r ∷ [])

pub put_deployment : Store → Deployment → Store
put_deployment s d = record s { deployments = Table.replace deployment_key d s.deployments }

-- INSERT OR REPLACE also deletes the row that has the same `deployment_id`.
pub put_endpoint : Store → Endpoint → Store
put_endpoint s e = record s {
  endpoints = Table.replace endpoint_key e (Table.remove by_deployment e.deployment_id s.endpoints);
}

pub put_evidence : Store → ℕ → Option String → Store
put_evidence s id none = s
put_evidence s id (some ref) = record s {
  evidence =
      Table.replace evidence_key (record { deployment_id = id; execution_ref = ref }) s.evidence;
}

pub save_deployment : Deployment → Exec Store (Unit {0})
unfolding put_deployment
save_deployment d = modify (λ s. put_deployment s d)

unfoldable pub save_pair : Deployment → Endpoint → Option String → Exec Store (Unit {0})
unfolding put_deployment put_endpoint put_evidence
save_pair d e execution_ref =
    modify (λ s. put_evidence (put_endpoint (put_deployment s d) e) d.id execution_ref)

unfoldable pub get_execution_ref : Store → ℕ → Option String
get_execution_ref s id = Option.map (λ r. r.execution_ref) (Table.get evidence_key id s.evidence)

unfoldable pub get_deployment : Store → ℕ → Option Deployment
get_deployment s id = Table.get deployment_key id s.deployments

pub list_deployments : Store → List Deployment
list_deployments s = reverse s.deployments

unfoldable pub get_endpoint : Store → ℕ → Option Endpoint
get_endpoint s id = Table.get endpoint_key id s.endpoints

pub find_replay : Store → String → String → Option Replay
find_replay s scope key = Table.get replay_key (scope, key) s.idempotency

-- A key that was used replays its resource for the same request, and conflicts for another.
pub replay_or_conflict : Option Replay → String → Result (Option ℕ)
replay_or_conflict none digest = ok none
replay_or_conflict (some row) digest =
    if row.request_hash == digest
    then ok (some row.resource_id)
    else err (product_error Code.idempotency_conflict 409)

-- A request with a key, looked up in the ledger of its scope.
pub resolve_in : Store → String → Option String → String → Result (Option ℕ)
unfolding find_replay replay_or_conflict
resolve_in s scope none digest = ok none
resolve_in s scope (some key) digest = replay_or_conflict (find_replay s scope key) digest

pub resolve_idempotency : Store → Option String → String → Result (Option ℕ)
unfolding resolve_in
resolve_idempotency s = resolve_in s "create-deployment"

pub insert_replay : String → String → String → ℕ → Exec Store (Unit {0})
insert_replay scope key digest id s =
    let row : Replay = record {
      scope = scope;
      key = key;
      request_hash = digest;
      resource_id = id;
    } in
    let (r, rows) = insert replay_key row s.idempotency in (r, record s { idempotency = rows })

pub remember_in : String → Option String → String → ℕ → Exec Store (Unit {0})
remember_in scope none digest id = pure tt
remember_in scope (some key) digest id = insert_replay scope key digest id

pub remember_idempotency : Option String → String → ℕ → Exec Store (Unit {0})
unfolding remember_in
remember_idempotency key digest id = transaction (remember_in "create-deployment" key digest id)

pub insert_deployment : Deployment → Exec Store (Unit {0})
insert_deployment d s =
    let (r, rows) = insert deployment_key d s.deployments in (r, record s { deployments = rows })

-- A lookup that may raise, as an action.
abbrev pub resolving : {A : Type 0} → (Store → Result A) → Exec Store A
resolving f s = (f s, s)

pub create_intent : Deployment → Option String → String → Exec Store (Option ℕ)
create_intent d key digest = transaction (do
  replay ← resolving (λ s. resolve_idempotency s key digest)
  elim replay [
    | some id ↦ pure (some id)
    | none ↦ do insert_deployment d; remember_in "create-deployment" key digest d.id; pure none
  ])
