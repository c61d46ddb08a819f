-- ===== src/Runtime/CapabilitySeam/Adapter/Invoking.antt =====
-- `_invoke`: what it leaves alone, when it answers, and when it does not reach the client.
use cyrene_reactor.Runtime.CapabilitySeam.{
  ExecutionEngineBinding, value_error, ServingPortFailure, direct_plugin_request_invalid, Answer,
  direct_plugin_cancelled, direct_plugin_protocol_error, failure_at,
}
use cyrene_reactor.Prelude.Keys.{nat_eq, string_eq, beq→eq, ◌==◌}
use cyrene_reactor.Runtime.CapabilitySeam.Adapter.{
  fail, and_then, untyped, other_exception, type_or_value_error, failure_at, failed, ◌==◌,
  not_object, direct_plugin_raised, decoded, object, type_url, direct_payload, invocation, answered,
  returned, is_set, call_client, checked_response, invoke_method, get_client, Session, Decoded,
  Document, Outcome, Invocation,
}
use cyrene_reactor.Prelude.{
  ◌||◌, sym, ◌∙◌, true, Option-cases, inr, ap, inl, Bool-cases, none, false, some, is_some, not,
  ◌&&◌, if◌then◌else◌, Bool, ℕ, arith, ◌≡◌, Option, String,
}

-- A failure with this status.
abbrev pub FailsWith : ℕ → {A : Type 0} → Answer A → Type 0
FailsWith status (failed f) = f.status ≡ status
FailsWith status (returned _) = ⊥
FailsWith status value_error = ⊥

module _ {Client World : Type 0} where
  -- Everything but the cached client and the world.
  abbrev pub IsSameModel : Session Client World → Session Client World → Type 0
  IsSameModel s s' =
      (s'.is_loaded ≡ s.is_loaded)
      × (s'.model_path ≡ s.model_path)
      × (s'.engine_info ≡ s.engine_info)
      × (s'.binding ≡ s.binding)

  pub fail-returned :
      {A : Type 0} (e : ServingPortFailure) (s : Session Client World) (a : A)
      (s' : Session Client World)
      → ¬ (fail e s ≡ (returned a, s'))
  fail-returned {A} e s a s' h =
      let no : failed e ≡ returned a = ap (λ (p : Answer A × Session Client World). p.0) h in cc

module _ {Client World Bytes : Type 0} (connect : String → Option Client)
    (invoke : Client → Invocation Bytes → World → Outcome Bytes × World)
    (dumps : Document → Option Bytes) (loads : Bytes → Option Decoded) where
  get_client-IsSameModel : (s : Session Client World) → IsSameModel s (get_client connect s).1
  unfolding get_client
  get_client-IsSameModel s = ground arith

  pub invoke_method-IsSameModel :
      (method : String) (payload : Document) (deadline : Option ℕ) (cancel_event : Option Bool)
      (s : Session Client World)
      → IsSameModel s
          (invoke_method connect invoke dumps loads method payload deadline cancel_event s).1
  unfolding invoke_method
  invoke_method-IsSameModel method payload deadline cancel_event s =
      ground (arith, get_client-IsSameModel s)

  get_client-world : (s : Session Client World) → (get_client connect s).1.world ≡ s.world
  unfolding get_client
  get_client-world s = ground arith

  -- What the client was asked and what it answered, when `_invoke` returns.
  abbrev pub IsAnswer :
      String
      → Document
      → Option ℕ
      → Option Bool
      → Session Client World
      → Document
      → Session Client World
      → Bytes
      → Client
      → Bytes
      → Type 0
  IsAnswer method payload deadline cancel_event s d s' bytes client value =
      (dumps payload ≡ some bytes)
      × (is_set cancel_event ≡ false)
      × (invoke client (invocation method bytes deadline cancel_event s.binding) s.world
          ≡ (answered (direct_payload (type_url method "response") value), s'.world))
      × (loads value ≡ some (object d))

  decoded-returned :
      (o : Option Decoded) (d : Document) → decoded loads o ≡ returned d → o ≡ some (object d)
  decoded-returned none d h = cc
  decoded-returned (some not_object) d h = cc
  decoded-returned (some (object document)) d h = cc

  checked_response-returned :
      (method : String) (outcome : Outcome Bytes) (d : Document)
      → checked_response loads method outcome ≡ returned d
      → (value : Bytes) × (outcome ≡ answered (direct_payload (type_url method "response") value))
        × (loads value ≡ some (object d))
  unfolding checked_response
  checked_response-returned method (direct_plugin_raised e) d h = cc
  checked_response-returned method type_or_value_error d h = cc
  checked_response-returned method other_exception d h = cc
  checked_response-returned method (answered untyped) d h = cc
  checked_response-returned method (answered (direct_payload url value)) d h =
      elim (Bool-cases (url == type_url method "response")) [
        | inl same ↦ (
          value,
          ap (λ (u : String). answered (direct_payload u value))
              (beq→eq url (type_url method "response") same),
          decoded-returned (loads value) d (rw same at h),
        )
        | inr other ↦
            let no : failed (failure_at direct_plugin_protocol_error 502) ≡ returned d =
              rw other at h in
            cc
      ]

  -- A client's outcome that passed the checks.
  outcome-returned :
      (method : String) (outcome : Outcome Bytes × World) (s : Session Client World) (d : Document)
      (s' : Session Client World)
      → ◌≡◌ {A = Answer Document × Session Client World}
          (checked_response loads method outcome.0, record s { world = outcome.1 })
          (returned d, s')
      → (value : Bytes) × (outcome
          ≡ (answered (direct_payload (type_url method "response") value), s'.world))
        × (loads value ≡ some (object d))
  outcome-returned method outcome s d s' h =
      let checked =
        checked_response-returned method outcome.0 d
          (ap (λ (p : Answer Document × Session Client World). p.0) h) in
      let after : outcome.1 ≡ s'.world =
        ap (λ (p : Answer Document × Session Client World). p.1.world) h in
      (checked.0, λ i. (checked.1 i, after i), checked.2)

  call_client-returned :
      (method : String) (bytes : Bytes) (deadline : Option ℕ) (cancel_event : Option Bool)
      (client : Client) (s : Session Client World) (d : Document) (s' : Session Client World)
      → call_client invoke loads method bytes deadline cancel_event client s ≡ (returned d, s')
      → (is_set cancel_event ≡ false)
        × (value : Bytes) × (invoke client
              (invocation method bytes deadline cancel_event s.binding)
              s.world
            ≡ (answered (direct_payload (type_url method "response") value), s'.world))
        × (loads value ≡ some (object d))
  unfolding call_client
  call_client-returned method bytes deadline cancel_event client s d s' h =
      elim (Bool-cases (is_set cancel_event)) [
        | inl set ↦
            absurd (fail-returned (failure_at direct_plugin_cancelled 499) s d s' (rw set at h))
        | inr clear ↦
            let inv = invocation method bytes deadline cancel_event s.binding in
            let (value, asked, decoded) =
              outcome-returned method (invoke client inv s.world) s d s' (rw clear at h) in
            (clear, value, asked, decoded)
      ]

  connected_call-returned :
      (method : String) (bytes : Bytes) (deadline : Option ℕ) (cancel_event : Option Bool)
      (s : Session Client World) (p : Answer Client × Session Client World) (d : Document)
      (s' : Session Client World)
      → p.1.world ≡ s.world
      → p.1.binding ≡ s.binding
      → and_then p (call_client invoke loads method bytes deadline cancel_event) ≡ (returned d, s')
      → (client : Client) × (is_set cancel_event ≡ false)
        × (value : Bytes) × (invoke client
              (invocation method bytes deadline cancel_event s.binding)
              s.world
            ≡ (answered (direct_payload (type_url method "response") value), s'.world))
        × (loads value ≡ some (object d))
  connected_call-returned method bytes deadline cancel_event s (returned client, s₁) d s' same_world
        same_binding h =
      let (clear, value, asked, decoded) =
        call_client-returned method bytes deadline cancel_event client s₁ d s' h in
      let ask : ExecutionEngineBinding × World → Outcome Bytes × World =
        λ q. invoke client (invocation method bytes deadline cancel_event q.0) q.1 in
      (client, clear, value, sym (ap ask (λ i. (same_binding i, same_world i))) ∙ asked, decoded)
  connected_call-returned method bytes deadline cancel_event s (failed e, s₁) d s' same_world
        same_binding h =
      absurd (fail-returned e s₁ d s' h)
  connected_call-returned method bytes deadline cancel_event s (value_error, s₁) d s' same_world
        same_binding h =
      let no : value_error ≡ returned d =
        ap (λ (p : Answer Document × Session Client World). p.0) h in
      cc

  -- `_invoke` returns a document only when the arguments could be encoded, no cancellation was
  -- requested, and the client, asked once for this method, answered with the method's response type
  -- and a payload that decodes to this very object.
  pub invoke_method_sound :
      (method : String) (payload : Document) (deadline : Option ℕ) (cancel_event : Option Bool)
      (s : Session Client World) (d : Document) (s' : Session Client World)
      → invoke_method connect invoke dumps loads method payload deadline cancel_event s
        ≡ (returned d, s')
      → (bytes : Bytes) × (client : Client) × (value : Bytes) × IsAnswer method payload deadline
          cancel_event s d s' bytes client value
  unfolding invoke_method
  invoke_method_sound method payload deadline cancel_event s d s' h =
      elim (Option-cases (dumps payload)) [
        | inl e ↦ absurd (
            fail-returned (failure_at direct_plugin_request_invalid 500) s d s'
              (rw (e, invoke_method) at h))
        | inr (bytes, e) ↦
            let (client, clear, value, asked, decoded) =
              connected_call-returned method bytes deadline cancel_event s (get_client connect s) d
                s' (get_client-world s) ((get_client-IsSameModel s).3)
                (rw (e, invoke_method) at h) in
            (bytes, client, value, (e, clear, asked, decoded))
      ]

  -- There is a client, or a reference that one can be made for.
  abbrev pub has_client : Session Client World → Bool
  has_client s = is_some s.client || elim s.binding.connection_ref [
    | none ↦ false
    | some ref ↦ not (ref == "") && is_some (connect ref)
  ]

  -- With a cancellation already requested `_invoke` fails, and the client is not called: the world
  -- is as it was. The failure is 500 if the payload cannot be encoded, else 503 if there is no client
  -- and none can be made, else 499.
  pub invoke_method-cancelled :
      (method : String) (payload : Document) (deadline : Option ℕ) (s : Session Client World)
      → FailsWith
          (if is_some (dumps payload) then (if has_client s then 499 else 503) else 500)
          (invoke_method connect invoke dumps loads method payload deadline (some true) s).0
        × ((invoke_method connect invoke dumps loads method payload deadline (some true) s).1.world
            ≡ s.world)
  unfolding invoke_method get_client call_client
  invoke_method-cancelled method payload deadline s = ground (arith)
