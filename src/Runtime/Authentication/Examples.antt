-- ===== src/Runtime/Authentication/Examples.antt =====
-- Calls in production with a configured token, and one in a fresh development environment.
use cyrene_reactor.Prelude.{◌≡◌, ◌∷◌, [], refl, some, none, String, Option, List}
use cyrene_reactor.Runtime.Authentication.{
  get_internal_token, step, is_insecure_internal_token_allowed, extract_token_from_metadata,
  compare_token, verify_token, Environment, Request, get, enforce, verify, passed, aborted, run,
  verify_grpc_context, token, checked,
}
use cyrene_reactor.Runtime.Authentication.Soundness.{AllShow, run-AllShow}

abbrev production : Environment
production = record { app_env = some "production"; allow_insecure = none; normal = λ s. s }

abbrev with_header : String → Option (List (String × String))
with_header value = some (("authorization", "old") ∷ ("authorization", value) ∷ [])

abbrev calls : List Request
calls = get "ab12" ∷ enforce ∷ verify (with_header "Bearer key") ∷ verify none ∷ []

run-AllShow_example :
    AllShow "key" (run production calls "key").0 × ((run production calls "key").1 ≡ "key")
run-AllShow_example = run-AllShow production calls "key" refl

accepted : verify_grpc_context production "key" (with_header "Bearer key") ≡ passed
unfolding verify_grpc_context verify_token compare_token extract_token_from_metadata
accepted = refl

-- Without a token, production turns every call away.
refused :
    verify_grpc_context production "" (with_header "Bearer ") ≡ aborted "Internal token required"
unfolding verify_grpc_context verify_token is_insecure_internal_token_allowed
refused = refl

-- A development environment generates the token on the first request for it.
abbrev development : Environment
development = record production { app_env = none }

generated :
    (run development (verify none ∷ get "ab12" ∷ verify none ∷ []) "").0
    ≡ (verify none, checked passed)
      ∷ (get "ab12", token (some "ab12"))
      ∷ (verify none, checked (aborted "Missing authorization token"))
      ∷ []
unfolding run step verify_grpc_context get_internal_token verify_token
    is_insecure_internal_token_allowed compare_token
generated = refl
