-- ===== src/Product/Store/Deployments/Examples.antt =====
-- The theorems on deployments at a small store.
use cyrene_reactor.Prelude.Table
use cyrene_reactor.Prelude.{refl, String, none, if◌then◌else◌, [], ℕ, ◌≡◌, some, ◌∷◌}
use cyrene_reactor.Product.Errors.{Code, product_error}
use cyrene_reactor.Prelude.Keys.{string_eq, nat_eq, ◌==◌}
use cyrene_reactor.Product.Exec.{◌>>=◌, transaction, err, ok}
use cyrene_reactor.Product.Domain.{Endpoint}
use cyrene_reactor.Product.Store.{ℕ, ◌≡◌, Store, empty}
use cyrene_reactor.Product.Domain.Samples.{full_deployment, chat_endpoint}
use cyrene_reactor.Product.Store.Deployments.{
  insert_replay, remember_in, insert, insert_deployment, product_error, ◌==◌, ok, some, ◌∷◌,
  create_intent, save_pair, get_deployment, get_endpoint, get_execution_ref, resolve_idempotency,
}
use cyrene_reactor.Product.Store.Deployments.Idempotency.{
  create_intent_atomic, create_intent_recorded,
}
use cyrene_reactor.Product.Store.Deployments.Pairs.{
  HasOneEndpoint, save_pair_read, save_pair-HasOneEndpoint,
}

abbrev created : Store
created = record empty {
  deployments = full_deployment ∷ [];
  idempotency =
      record { scope = "create-deployment"; key = "k1"; request_hash = "h1"; resource_id = 1 } ∷ [];
}

created_by : create_intent full_deployment (some "k1") "h1" empty ≡ (ok none, created)
unfolding create_intent transaction ◌>>=◌ resolve_idempotency Table.get insert_deployment insert
    remember_in insert_replay
created_by = refl

created_again : create_intent full_deployment (some "k1") "h1" created ≡ (ok (some 1), created)
unfolding create_intent transaction ◌>>=◌ resolve_idempotency Table.get
created_again = refl

create_intent_atomic_example : created ≡ created
create_intent_atomic_example =
    create_intent_atomic full_deployment (some "k1") "h1" created (ok (some 1)) created
      created_again (λ e. cc)

create_intent_recorded_example :
    ((j : ℕ)
      → get_deployment created j
        ≡ (if 1 == j then some full_deployment else get_deployment empty j))
    × ((j other : String)
        → resolve_idempotency created (some j) other ≡ (
            if "k1" == j
            then if "h1" == other
              then ok (some 1)
              else err (product_error Code.idempotency_conflict 409)
            else resolve_idempotency empty (some j) other))
create_intent_recorded_example =
    create_intent_recorded full_deployment "k1" "h1" empty created created_by

empty-HasOneEndpoint : HasOneEndpoint empty
empty-HasOneEndpoint = record { by_id = tt; by_owner = tt }

-- Deployment 1 has endpoint 4, and deployment 2 endpoint 5.
abbrev two_endpoints : Store
two_endpoints = record empty {
  endpoints = chat_endpoint ∷ record chat_endpoint { id = 5; deployment_id = 2 } ∷ [];
}

two_endpoints-HasOneEndpoint : HasOneEndpoint two_endpoints
unfolding Table.IsKeyed Table.get
two_endpoints-HasOneEndpoint = record { by_id = (refl, (refl, tt)); by_owner = (refl, (refl, tt)) }

-- Deployment 1 is given endpoint 6 in place of endpoint 4.
abbrev next_endpoint : Endpoint
next_endpoint = record chat_endpoint { id = 6 }

save_pair_read_example :
    (let saved = (save_pair full_deployment next_endpoint (some "run-1") two_endpoints).1 in
      ((j : ℕ)
        → get_deployment saved j
          ≡ (if 1 == j then some full_deployment else get_deployment two_endpoints j))
      × ((j : ℕ)
          → get_endpoint saved j ≡ (
              if 6 == j then some next_endpoint else elim (get_endpoint two_endpoints j) [
                | none ↦ none
                | some old ↦ if old.deployment_id == 1 then none else some old
              ]))
      × (get_execution_ref saved 1 ≡ some "run-1"))
save_pair_read_example =
    save_pair_read full_deployment next_endpoint (some "run-1") two_endpoints
      two_endpoints-HasOneEndpoint

endpoint_replaced :
    get_endpoint (save_pair full_deployment next_endpoint none two_endpoints).1 4 ≡ none
unfolding get_endpoint Table.get save_pair ◌>>=◌ Table.replace Table.remove
endpoint_replaced = refl

save_pair-HasOneEndpoint_example :
    HasOneEndpoint (save_pair full_deployment chat_endpoint (some "run-1") empty).1
save_pair-HasOneEndpoint_example =
    save_pair-HasOneEndpoint full_deployment chat_endpoint (some "run-1") empty empty-HasOneEndpoint
