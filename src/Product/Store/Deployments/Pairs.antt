-- ===== src/Product/Store/Deployments/Pairs.antt =====
-- `save_pair`: a Deployment, its one Endpoint and its evidence in one commit.
use cyrene_reactor.Product.Exec.{ok, ◌>>=◌}
use cyrene_reactor.Product.Store.Deployments.{
  get_execution_ref, ◌>>=◌, get_endpoint, put_evidence, get_deployment, save_pair, by_deployment,
}
use cyrene_reactor.Prelude.{
  [], refl, ℕ, if◌then◌else◌, some, arith, none, String, ◌∷◌, ◌≡◌, Option, List,
}
use cyrene_reactor.Prelude.Table
use cyrene_reactor.Product.Domain.{Endpoint, Deployment}
use cyrene_reactor.Product.Store.{evidence_key, deployment_key, Option, endpoint_key, List, Store}
use cyrene_reactor.Prelude.Keys.{beq_refl, nat_eq, beq→eq, ◌==◌, Eq}

module _ {K J R : Type 0} ⦃e : Eq K⦄ ⦃f : Eq J⦄ (key : R → K) (other : R → J) where
  get-remove-none :
      (k : K) (j : J) (rows : List R)
      → Table.get key k rows ≡ none
      → Table.get key k (Table.remove other j rows) ≡ none
  unfolding Table.get Table.remove
  get-remove-none k j [] h = refl
  get-remove-none k j (r ∷ rows) h = ground (arith, get-remove-none k j rows)

  IsKeyed-remove_other :
      (j : J) (rows : List R)
      → Table.IsKeyed key rows
      → Table.IsKeyed key (Table.remove other j rows)
  unfolding Table.remove
  IsKeyed-remove_other j [] h = tt
  IsKeyed-remove_other j (r ∷ rows) h =
      ground (arith, IsKeyed-remove_other j rows h.1, get-remove-none (key r) j rows h.0)

  -- With a primary key, a row that is read back is missing only if it was the one removed.
  get-remove_other :
      (k : K) (j : J) (rows : List R)
      → Table.IsKeyed key rows
      → Table.get key k (Table.remove other j rows) ≡ elim (Table.get key k rows) [
        | none ↦ none
        | some r ↦ if other r == j then none else some r
      ]
  unfolding Table.get Table.remove
  get-remove_other k j [] h = refl
  get-remove_other k j (r ∷ rows) h =
      ground (arith, get-remove_other k j rows h.1, get-remove-none k j rows, beq→eq (key r) k)

-- Both keys of `endpoints`: the identifier and the deployment.
pub record HasOneEndpoint (s : Store) : Type 0 where
  pub by_id : Table.IsKeyed endpoint_key s.endpoints
  pub by_owner : Table.IsKeyed by_deployment s.endpoints

module _ (d : Deployment) (e : Endpoint) (ref : Option String) (s : Store) where
  abbrev saved : Store
  saved = (save_pair d e ref s).1

  pub deployments_saved : saved.deployments ≡ Table.replace deployment_key d s.deployments
  unfolding save_pair put_evidence ◌>>=◌
  deployments_saved =
      elim ref
        as (λ r. (save_pair d e r s).1.deployments ≡ Table.replace deployment_key d s.deployments) [
          | none ↦ refl
          | some x ↦ refl
        ]

  pub endpoints_saved :
      saved.endpoints
      ≡ Table.replace endpoint_key e (Table.remove by_deployment e.deployment_id s.endpoints)
  unfolding save_pair put_evidence ◌>>=◌
  endpoints_saved =
      elim ref
        as (λ r.
          (save_pair d e r s).1.endpoints
          ≡ Table.replace endpoint_key e (Table.remove by_deployment e.deployment_id s.endpoints)) [
            | none ↦ refl
            | some x ↦ refl
          ]

  evidence_saved :
      get_execution_ref saved d.id ≡ elim ref [ none ↦ get_execution_ref s d.id | some r ↦ some r ]
  unfolding save_pair put_evidence get_execution_ref ◌>>=◌
  evidence_saved =
      elim ref
        as (λ r.
          get_execution_ref (save_pair d e r s).1 d.id
          ≡ elim r [ none ↦ get_execution_ref s d.id | some x ↦ some x ]) [
            | none ↦ refl
            | some x ↦ rw (
              Table.get-replace evidence_key d.id
                  (record { deployment_id = d.id; execution_ref = x }) s.evidence,
              beq_refl d.id,
            )
          ]

  -- In a store whose endpoints have unique identifiers and where no deployment has two of them, after
  -- `save_pair` the deployment and the endpoint are read back as saved; the other deployments are
  -- unchanged; of the other endpoints the one that had belonged to the endpoint's deployment, if there
  -- was one, is gone, and the rest are unchanged; and the evidence of the deployment is the new
  -- reference if one was given, else what it was.
  pub save_pair_read :
      HasOneEndpoint s
      → ((j : ℕ) → get_deployment saved j ≡ (if d.id == j then some d else get_deployment s j))
        × ((j : ℕ)
            → get_endpoint saved j ≡ (
                if e.id == j then some e else elim (get_endpoint s j) [
                  | none ↦ none
                  | some old ↦ if old.deployment_id == e.deployment_id then none else some old
                ]))
        × (get_execution_ref saved d.id
            ≡ elim ref [ none ↦ get_execution_ref s d.id | some r ↦ some r ])
  unfolding get_deployment get_endpoint
  save_pair_read v = (
    λ j. rw deployments_saved (Table.get-replace deployment_key j d s.deployments),
    λ j. rw (
      endpoints_saved,
      Table.get-replace endpoint_key j e (Table.remove by_deployment e.deployment_id s.endpoints),
      get-remove_other endpoint_key by_deployment j e.deployment_id s.endpoints v.by_id,
    ),
    evidence_saved,
  )

  -- Saving a pair keeps the endpoints' identifiers unique and at most one endpoint to a deployment.
  pub save_pair-HasOneEndpoint : HasOneEndpoint s → HasOneEndpoint saved
  unfolding Table.replace
  save_pair-HasOneEndpoint v =
      let owner = e.deployment_id in
      let kept = Table.remove by_deployment owner s.endpoints in
      let gone =
        get-remove-none by_deployment endpoint_key owner e.id kept
          (rw (Table.get-remove by_deployment owner owner s.endpoints, beq_refl owner)) in
      record {
        by_id = rw endpoints_saved (
            Table.IsKeyed-replace endpoint_key e kept
              (IsKeyed-remove_other endpoint_key by_deployment owner s.endpoints v.by_id));
        by_owner = rw endpoints_saved (
            Table.IsKeyed-append by_deployment (Table.remove endpoint_key e.id kept) e
              (IsKeyed-remove_other by_deployment endpoint_key e.id kept
                (Table.IsKeyed-remove by_deployment owner s.endpoints v.by_owner))
              gone);
      }

pub get_deployment-save_pair :
    (d : Deployment) (e : Endpoint) (ref : Option String) (s : Store) (j : ℕ)
    → get_deployment (save_pair d e ref s).1 j ≡ (if d.id == j then some d else get_deployment s j)
unfolding get_deployment
get_deployment-save_pair d e ref s j =
    rw (deployments_saved d e ref s) (Table.get-replace deployment_key j d s.deployments)

pub get_endpoint-save_pair :
    (d : Deployment) (e : Endpoint) (ref : Option String) (s : Store)
    → get_endpoint (save_pair d e ref s).1 e.id ≡ some e
unfolding get_endpoint
get_endpoint-save_pair d e ref s =
    rw
      (
        endpoints_saved d e ref s,
        Table.get-replace endpoint_key e.id e
            (Table.remove by_deployment e.deployment_id s.endpoints),
        beq_refl e.id,
      )
      refl

pub save_pair-ok :
    (d : Deployment) (e : Endpoint) (ref : Option String) (s : Store)
    → (save_pair d e ref s).0 ≡ ok tt
unfolding save_pair ◌>>=◌
save_pair-ok d e ref s = refl

pub get_deployment-frame :
    (s s' : Store) (j : ℕ)
    → s'.deployments ≡ s.deployments
    → get_deployment s' j ≡ get_deployment s j
unfolding get_deployment
get_deployment-frame s s' j e = rw e refl

pub get_endpoint-frame :
    (s s' : Store) (j : ℕ) → s'.endpoints ≡ s.endpoints → get_endpoint s' j ≡ get_endpoint s j
unfolding get_endpoint
get_endpoint-frame s s' j e = rw e refl
