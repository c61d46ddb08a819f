-- ===== src/Runtime/CapabilitySeam/Adapter/Lifecycle.antt =====
-- The lifecycle that the adapter's methods implement: which model it holds after a run of calls.
use cyrene_reactor.Prelude.Keys.{string_eq, beq_refl}
use cyrene_reactor.Runtime.CapabilitySeam.Adapter.{
  no_event, event, invoke_method, Serving, create, and_then, boolean, Json, assign, lookup, Session,
  CancelArgument, Decoded, Outcome, Document, Invocation,
}
use cyrene_reactor.Runtime.CapabilitySeam.{
  ExecutionEngineBinding, failed, returned, Answer, value_error,
}
use cyrene_reactor.Prelude.{
  refl, ap, ◌∙◌, arith, is_some, ◌≡◌, if◌then◌else◌, [], false, ℕ, none, ◌∷◌, some, true, Option,
  List, Bool, String,
}
use cyrene_reactor.Runtime.CapabilitySeam.Adapter.Invoking.{IsSameModel, invoke_method-IsSameModel}
use cyrene_reactor.Runtime.CapabilitySeam.Adapter.Operations.{
  infer_payload, load_payload, output_text, record_info, confirm_unload, confirm_load, load_model,
  infer, unload_model, get_model_info,
}

-- The methods that a server calls, with their arguments.
pub data Call : Type 0 where
  loads_model : String → Option String → Document → Option ℕ → Call
  infers : String → Document → Option ℕ → Bool → Option CancelArgument → Call
  unloads_model asks_info : Call

-- Whether a call returned.
abbrev has_returned : {A : Type 0} → Answer A → Bool
has_returned (returned _) = true
has_returned (failed _) = false
has_returned value_error = false

-- The contract: a load that returned holds its model, an unload that returned holds none, and no
-- other call, nor any call that failed, changes what is held.
unfoldable pub held_after : Call × Bool → Option String → Option String
held_after (loads_model path _ _ _, true) held = some path
held_after (unloads_model, true) held = none
held_after _ held = held

unfoldable pub held_after_all : List (Call × Bool) → Option String → Option String
held_after_all [] held = held
held_after_all (e ∷ es) held = held_after_all es (held_after e held)

lookup-assign :
    (key : String) (value : Json) (document : Document)
    → lookup key (assign key value document) ≡ some value
unfolding lookup assign
lookup-assign key value [] = ground (arith, beq_refl key)
lookup-assign key value ((k, v) ∷ rest) = ground (arith, lookup-assign key value rest)

module _ {Client World Bytes : Type 0} (connect : String → Option Client)
    (invoke : Client → Invocation Bytes → World → Outcome Bytes × World)
    (dumps : Document → Option Bytes) (loads : Bytes → Option Decoded) where
  abbrev outcome_of : {A : Type 0} → Answer A × Session Client World → Bool × Session Client World
  outcome_of (answer, s) = (has_returned answer, s)

  pub perform : Call → Session Client World → Bool × Session Client World
  perform (loads_model path adapter arguments deadline) s =
      outcome_of (load_model connect invoke dumps loads path adapter arguments deadline s)
  perform (infers prompt arguments deadline cancel argument) s =
      outcome_of (infer connect invoke dumps loads prompt arguments deadline cancel argument s)
  perform unloads_model s = outcome_of (unload_model connect invoke dumps loads s)
  perform asks_info s = outcome_of (get_model_info connect invoke dumps loads s)

  -- The calls with their outcomes, and the session after them.
  unfoldable pub run : List Call → Session Client World → List (Call × Bool) × Session Client World
  unfolding perform
  run [] s = ([], s)
  run (call ∷ calls) s =
      let done = perform call s in let rest = run calls done.1 in ((call, done.0) ∷ rest.0, rest.1)

  -- The flag, the path and what `get_model_info` would tell without asking agree.
  unfoldable pub IsHonest : Session Client World → Type 0
  unfolding lookup
  IsHonest s =
      if s.is_loaded
      then is_some s.model_path ≡ true
      else (s.model_path ≡ none) × (lookup "is_loaded" s.engine_info ≡ some (boolean false))

  -- What an action does to an honest session.
  Refines : {A : Type 0} → Call → Session Client World → Answer A × Session Client World → Type 0
  Refines call s (answer, s') =
      IsHonest s' × (s'.model_path ≡ held_after (call, has_returned answer) s.model_path)

  load-Refines :
      (path : String) (adapter : Option String) (arguments : Document) (deadline : Option ℕ)
      (s : Session Client World) (p : Answer Document × Session Client World)
      → IsHonest s
      → IsSameModel s p.1
      → Refines (loads_model path adapter arguments deadline) s (and_then p (confirm_load path))
  unfolding Refines IsHonest held_after
  load-Refines path adapter arguments deadline s p h same = ground arith

  unload-Refines :
      (s : Session Client World) (p : Answer Document × Session Client World)
      → IsHonest s
      → IsSameModel s p.1
      → Refines unloads_model s (and_then p (confirm_unload))
  unfolding Refines IsHonest held_after
  unload-Refines s p h same =
      ground (arith, lookup-assign "is_loaded" (boolean false) p.1.engine_info)

  info-Refines :
      (s : Session Client World) (p : Answer Document × Session Client World)
      → IsHonest s
      → s.is_loaded ≡ true
      → IsSameModel s p.1
      → Refines asks_info s (and_then p (record_info))
  unfolding Refines IsHonest held_after
  info-Refines s p h loaded same = ground arith

  infer-Refines :
      (prompt : String) (arguments : Document) (deadline : Option ℕ) (cancel : Bool)
      (argument : Option CancelArgument) (s : Session Client World)
      (p : Answer Document × Session Client World)
      → IsHonest s
      → IsSameModel s p.1
      → Refines (infers prompt arguments deadline cancel argument) s (and_then p (output_text))
  unfolding Refines IsHonest held_after
  infer-Refines prompt arguments deadline cancel argument s p h same = ground arith

  -- The event that `infer` hands on.
  abbrev effective : Bool → Option CancelArgument → Option Bool
  effective true argument = some true
  effective false (some (event set)) = some set
  effective false (some no_event) = none
  effective false none = none

  abbrev ask : String → Document → Option ℕ → Option Bool → Serving Client World Document
  ask = invoke_method connect invoke dumps loads

  asked :
      (method : String) (payload : Document) (deadline : Option ℕ) (cancel_event : Option Bool)
      (s : Session Client World)
      → IsSameModel s (ask method payload deadline cancel_event s).1
  asked = invoke_method-IsSameModel connect invoke dumps loads

  perform-Refines :
      (call : Call) (s : Session Client World)
      → IsHonest s
      → (IsHonest (perform call s).1)
        × ((perform call s).1.model_path ≡ held_after (call, (perform call s).0) s.model_path)
  unfolding perform Refines IsHonest held_after load_model infer unload_model get_model_info
  perform-Refines (loads_model path adapter arguments deadline) s h =
      load-Refines path adapter arguments deadline s
        (ask "load_model" (load_payload path adapter arguments) deadline none s) h
        (invoke_method-IsSameModel connect invoke dumps loads "load_model"
          (load_payload path adapter arguments) deadline none s)
  perform-Refines (infers prompt arguments deadline cancel argument) s h = ground (
    arith,
    infer-Refines prompt arguments deadline cancel argument s
        (ask "execute_inference" (infer_payload prompt arguments) deadline
          (effective cancel argument) s)
        h
        (asked "execute_inference" (infer_payload prompt arguments) deadline
          (effective cancel argument) s),
  )
  perform-Refines unloads_model s h = ground (
    arith,
    unload-Refines s (ask "unload_model" [] none none s) h (asked "unload_model" [] none none s),
  )
  perform-Refines asks_info s h = ground (
    arith,
    info-Refines s (ask "get_engine_info" [] none none s) h,
    asked "get_engine_info" [] none none s,
  )

  run-Refines :
      (calls : List Call) (s : Session Client World)
      → IsHonest s
      → (IsHonest (run calls s).1)
        × ((run calls s).1.model_path ≡ held_after_all (run calls s).0 s.model_path)
  unfolding run held_after_all
  run-Refines [] s h = (h, refl)
  run-Refines (call ∷ calls) s h =
      let (honest, step) = perform-Refines call s h in
      let (honest_end, rest) = run-Refines calls (perform call s).1 honest in
      (honest_end, rest ∙ ap (held_after_all (run calls (perform call s).1).0) step)

  -- After any calls on a new adapter, `_model_path` is the model of the last load that returned, or
  -- none when no load returned or an unload returned after it; and the session is honest: loaded
  -- with a path, or not loaded with neither a path nor a claim to be loaded in the engine's info.
  pub run-held :
      (binding : ExecutionEngineBinding) (client : Option Client) (world : World)
      (calls : List Call)
      → (IsHonest (run calls (create binding client world)).1)
        × ((run calls (create binding client world)).1.model_path
            ≡ held_after_all (run calls (create binding client world)).0 none)
  unfolding create IsHonest
  run-held binding client world calls = run-Refines calls (create binding client world) (refl, refl)
