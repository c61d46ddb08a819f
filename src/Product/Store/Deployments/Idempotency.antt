-- ===== src/Product/Store/Deployments/Idempotency.antt =====
-- The ledger of requests: a key answers one request, once.
use cyrene_reactor.Prelude.Table
use cyrene_reactor.Product.Errors.{Code, product_error, Raised, integrity_error}
use cyrene_reactor.Product.Domain.{Deployment}
use cyrene_reactor.Product.Store.{replay_key, deployment_key, Replay, Store}
use cyrene_reactor.Prelude.{
  Bool-cases, if◌then◌else◌, ◌∙◌, sym, ap, refl, ◌≢◌, inl, inr, arith, none, ◌⊎◌, [], some, ◌∷◌,
  ◌≡◌, ◌++◌, Option, ℕ, List, String,
}
use cyrene_reactor.Prelude.Keys.{beq→eq, ◌==◌, beq_refl, pair_eq, string_eq, nat_eq, Eq}
use cyrene_reactor.Product.Exec.{Result, ok, err, ◌>>=◌, transaction}
use cyrene_reactor.Product.Store.Deployments.{
  integrity_error, Deployment, Store, String, Eq, insert, resolve_idempotency, find_replay,
  replay_or_conflict, insert_replay, remember_in, insert_deployment, create_intent, get_deployment,
}

-- An insert either finds the primary key taken and changes nothing, or adds the row at the end.
insert-cases :
    {K R : Type 0} ⦃e : Eq K⦄ (key : R → K) (r : R) (rows : List R)
    → (insert key r rows ≡ (err integrity_error, rows))
      ⊎ ((insert key r rows ≡ (ok tt, rows ++ r ∷ [])) × (Table.get key (key r) rows ≡ none))
unfolding insert
insert-cases key r rows = ground arith

abbrev row_for : String → String → String → ℕ → Replay
row_for scope key digest id = record {
  scope = scope;
  key = key;
  request_hash = digest;
  resource_id = id;
}

abbrev Recorded : String → Option String → String → ℕ → Store → Store → Type 0
Recorded scope none digest id s s' = s' ≡ s
Recorded scope (some key) digest id s s' =
    (s' ≡ record s { idempotency = s.idempotency ++ row_for scope key digest id ∷ [] })
    × (find_replay s scope key ≡ none)

remember_in-cases :
    (scope : String) (key : Option String) (digest : String) (id : ℕ) (s : Store)
    → (remember_in scope key digest id s ≡ (err integrity_error, s))
      ⊎ ((s' : Store) × (remember_in scope key digest id s ≡ (ok tt, s'))
          × Recorded scope key digest id s s')
unfolding remember_in insert_replay find_replay ◌>>=◌
remember_in-cases scope none digest id s = inr (s, refl, refl)
remember_in-cases scope (some key) digest id s =
    elim (insert-cases replay_key (row_for scope key digest id) s.idempotency) [
      | inl e ↦ inl (rw e)
      | inr (e, missing) ↦ inr (_, rw e, (refl, missing))
    ]

abbrev with_deployment : Store → Deployment → Store
with_deployment s d = record s { deployments = s.deployments ++ d ∷ [] }

-- What a call of `create_intent` has done: `r` is its result with the store that it left.
data Outcome (d : Deployment) (key : Option String) (digest : String) (s : Store)
    (r : Result (Option ℕ) × Store) : Type 0 where
  replayed :
      (id : ℕ)
      → resolve_idempotency s key digest ≡ ok (some id)
      → r ≡ (ok (some id), s)
      → Outcome d key digest s r
  refused : (e : Raised) → r ≡ (err e, s) → Outcome d key digest s r
  committed :
      (s' : Store)
      → resolve_idempotency s key digest ≡ ok none
      → get_deployment s d.id ≡ none
      → Recorded "create-deployment" key digest d.id (with_deployment s d) s'
      → r ≡ (ok none, s')
      → Outcome d key digest s r

insert_deployment-cases :
    (d : Deployment) (s : Store)
    → (insert_deployment d s ≡ (err integrity_error, s))
      ⊎ ((insert_deployment d s ≡ (ok tt, with_deployment s d)) × (get_deployment s d.id ≡ none))
unfolding insert_deployment get_deployment
insert_deployment-cases d s = elim (insert-cases deployment_key d s.deployments) [
  | inl e ↦ inl (rw e)
  | inr (e, missing) ↦ inr (rw e, missing)
]

module _ (d : Deployment) (key : Option String) (digest : String) (s : Store) where
  create_intent-Outcome : Outcome d key digest s (create_intent d key digest s)
  unfolding create_intent transaction ◌>>=◌
  create_intent-Outcome = by_replay (resolve_idempotency s key digest) refl
    where
      by_ledger :
          resolve_idempotency s key digest ≡ ok none
          → insert_deployment d s ≡ (ok tt, with_deployment s d)
          → get_deployment s d.id ≡ none
          → Outcome d key digest s (create_intent d key digest s)
      by_ledger e inserted missing =
          elim (remember_in-cases "create-deployment" key digest d.id (with_deployment s d)) [
            | inl full ↦ refused integrity_error (rw (e, inserted, full))
            | inr (s', done, recorded) ↦ committed s' e missing recorded (rw (e, inserted, done))
          ]

      by_replay :
          (q : Result (Option ℕ))
          → resolve_idempotency s key digest ≡ q
          → Outcome d key digest s (create_intent d key digest s)
      by_replay (err x) e = refused x (rw e)
      by_replay (ok (some id)) e = replayed id e (rw e)
      by_replay (ok none) e = elim (insert_deployment-cases d s) [
        | inl full ↦ refused integrity_error (rw (e, full))
        | inr (inserted, missing) ↦ by_ledger e inserted missing
      ]

  -- A call that does not create the deployment (it replays, conflicts or meets a constraint)
  -- leaves the store as it was.
  pub create_intent_atomic :
      (r : Result (Option ℕ)) (s' : Store)
      → create_intent d key digest s ≡ (r, s')
      → r ≢ ok none
      → s' ≡ s
  create_intent_atomic r s' e not_created = elim create_intent-Outcome [
    | replayed id _ p ↦ ap (λ (x : Result (Option ℕ) × Store). x.1) (sym e ∙ p)
    | refused x p ↦ ap (λ (x : Result (Option ℕ) × Store). x.1) (sym e ∙ p)
    | committed t _ _ _ p ↦
        absurd (not_created (ap (λ (x : Result (Option ℕ) × Store). x.0) (sym e ∙ p)))
  ]

-- The ledger after a new row.
get-row_for :
    (rows : List Replay) (scope k j digest : String) (id : ℕ)
    → Table.get replay_key (scope, k) rows ≡ none
    → Table.get replay_key (scope, j) (rows ++ row_for scope k digest id ∷ [])
      ≡ (if k == j then some (row_for scope k digest id) else Table.get replay_key (scope, j) rows)
get-row_for rows scope k j digest id missing = ground (
  arith,
  Table.get-append replay_key (scope, j) rows (row_for scope k digest id),
  beq_refl scope,
  beq→eq k j,
)

-- The deployments after a new one.
get-with_deployment :
    (s : Store) (d : Deployment) (j : ℕ)
    → get_deployment s d.id ≡ none
    → get_deployment (with_deployment s d) j ≡ (if d.id == j then some d else get_deployment s j)
unfolding get_deployment
get-with_deployment s d j missing =
    ground (arith, Table.get-append deployment_key j s.deployments d)

module _ (d : Deployment) (k digest : String) (s s' : Store)
    (created : create_intent d (some k) digest s ≡ (ok none, s')) where
  created_store :
      (get_deployment s d.id ≡ none)
      × (find_replay s "create-deployment" k ≡ none)
      × (s' ≡ record s {
        deployments = s.deployments ++ d ∷ [];
        idempotency = s.idempotency ++ row_for "create-deployment" k digest d.id ∷ [];
      })
  unfolding find_replay
  created_store = elim (create_intent-Outcome d (some k) digest s) [
    | replayed id _ p ↦ cc
    | refused x p ↦ cc
    | committed t _ missing recorded p ↦ (missing, recorded.1, cc (recorded.0))
  ]

  -- A created deployment is read back, and no other one changes; from then on its key replays it
  -- for the same request and is a 409 conflict for any other, and other keys answer as before.
  pub create_intent_recorded :
      ((j : ℕ) → get_deployment s' j ≡ (if d.id == j then some d else get_deployment s j))
      × ((j other : String)
          → resolve_idempotency s' (some j) other ≡ (
              if k == j
              then if digest == other
                then ok (some d.id)
                else err (product_error Code.idempotency_conflict 409)
              else resolve_idempotency s (some j) other))
  unfolding resolve_idempotency find_replay replay_or_conflict get_deployment
  create_intent_recorded =
      let (no_deployment, no_row, e) = created_store in
      let found =
        λ (j : String). get-row_for s.idempotency "create-deployment" k j digest d.id no_row in
      rw e (
        λ j. get-with_deployment s d j no_deployment,
        λ j other. rw (found j) (elim (Bool-cases (k == j)) [
          | inl same ↦ rw same refl
          | inr different ↦ rw different refl
        ]),
      )
