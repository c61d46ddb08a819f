-- ===== src/Runtime/Authentication/Soundness.antt =====
-- Which calls the token check of auth.py lets through.
use cyrene_reactor.Prelude.Keys.{string_eq, beq→eq, beq_refl, ◌==◌}
use cyrene_reactor.Prelude.{
  ◌&&◌, not, true, false, [], ◌∷◌, if◌then◌else◌, some, none, Option, Bool, List, String, ◌≡◌, ◌↔◌,
  refl, arith, ap, sym, ◌∙◌, Bool-cases, inl, inr,
}
use Prim.Native.String.append
use Prim.Native.String.{[] as no_text, ◌∷◌ as text_cons}
use cyrene_reactor.Runtime.Authentication.{
  Environment, is_insecure_internal_token_allowed, compare_token, verify_token, header, presented,
  passed, verify_grpc_context, get_internal_token, enforce_internal_token_policy, Request, get,
  enforce, verify, Outcome, token, policy, checked, step, run, verdict,
}

-- What a call may show of the token `t`.
abbrev pub Shows : String → Request → Outcome → Type 0
Shows t (get hex) (token answer) = answer ≡ (if t == "" then none else some t)
Shows t enforce (policy returns) = returns ≡ not (t == "")
Shows t (verify metadata) (checked c) =
    (c ≡ passed) ↔ (((t == "") ≡ false) × (presented metadata ≡ some (header t)))
Shows t r o = false ≡ true

abbrev pub AllShow : String → List (Request × Outcome) → Type 0
AllShow t [] = Unit {0}
AllShow t ((r, o) ∷ log) = Shows t r o × AllShow t log

abbrev is_text : String → Bool
is_text no_text = false
is_text (text_cons c s) = true

header_text : (t : String) → (header t == "") ≡ false
header_text t = elim (Bool-cases (header t == "")) [
  | inr e ↦ e
  | inl e ↦
      let no : true ≡ false =
        sym (ap is_text (append.cons "B" "earer " t)) ∙ ap is_text (beq→eq (header t) "" e) in
      absurd cc
]

compare_token-passed :
    (p : Option String) (t : String)
    → (verdict (compare_token p t) ≡ passed) ↔ (p ≡ some (header t))
unfolding compare_token
compare_token-passed none t = (λ h. cc, λ h. cc)
compare_token-passed (some p) t = elim (Bool-cases (p == "")) [
  | inl e ↦ (rw e (λ h. cc), λ h. absurd (differ (header_text t) (ap or_empty h) e))
  | inr e ↦ elim (Bool-cases (p == header t)) [
    | inl e' ↦ rw (e, e') (λ h. ap some (beq→eq p (header t) e'), λ h. refl)
    | inr e' ↦ (rw (e, e') (λ h. cc), λ h. absurd (other (ap or_empty h) e'))
  ]
]
  where
    or_empty : Option String → String
    or_empty none = ""
    or_empty (some v) = v

    differ : {a b : String} → (a == "") ≡ false → b ≡ a → ¬ ((b == "") ≡ true)
    differ h e k = let no : true ≡ false = sym k ∙ (ap (λ x. x == "") e ∙ h) in cc

    other : {a b : String} → a ≡ b → ¬ ((a == b) ≡ false)
    other {b = b} e k =
        let no : true ≡ false = sym (beq_refl b) ∙ (sym (ap (λ x. x == b) e) ∙ k) in cc

verify-Shows :
    (env : Environment) (metadata : Option (List (String × String))) (t : String)
    → ((t == "") && is_insecure_internal_token_allowed env) ≡ false
    → Shows t (verify metadata) (checked (verify_grpc_context env t metadata))
unfolding verify_grpc_context verify_token
verify-Shows env metadata t safe = elim (Bool-cases (t == "")) [
  | inl e ↦
      let closed : is_insecure_internal_token_allowed env ≡ false = rw e at safe in
      (
        rw (verify_grpc_context, verify_token, e, closed) (λ h. cc),
        λ h. let no : true ≡ false = sym e ∙ h.0 in absurd cc,
      )
  | inr e ↦
      let (sound, complete) = compare_token-passed (presented metadata) t in
      rw (verify_grpc_context, verify_token, e) (λ h. (refl, sound h), λ h. complete h.1)
]

step-Shows :
    (env : Environment) (r : Request) (t : String)
    → ((t == "") && is_insecure_internal_token_allowed env) ≡ false
    → Shows t r (step env r t).0 × ((step env r t).1 ≡ t)
unfolding step get_internal_token enforce_internal_token_policy
step-Shows env (get hex) t safe = ground (arith, safe)
step-Shows env enforce t safe = (ground (arith, safe), refl)
step-Shows env (verify metadata) t safe = (verify-Shows env metadata t safe, refl)

-- Where a token is configured, or the environment does not allow a missing one, no sequence of calls
-- changes the token, and a check of a call passes exactly if the token is not empty and the call
-- presents it as a bearer token. Without a token `get_internal_token` and the policy raise; with one
-- they return, the first with the token.
pub run-AllShow :
    (env : Environment) (requests : List Request) (t : String)
    → ((t == "") && is_insecure_internal_token_allowed env) ≡ false
    → AllShow t (run env requests t).0 × ((run env requests t).1 ≡ t)
unfolding run
run-AllShow env [] t safe = (tt, refl)
run-AllShow env (r ∷ rs) t safe =
    let (shows, same) = step-Shows env r t safe in
    let (rest, last) = run-AllShow env rs t safe in ((shows, rw same rest), rw same last)
