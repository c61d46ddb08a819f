-- ===== src/Runtime/CapabilitySeam/Examples.antt =====
-- The execution engine's seam on a plugin that confirms loads and unloads and echoes prompts. The
-- world counts the invocations, and a payload is its own encoding.
use cyrene_reactor.Runtime.CapabilitySeam.Adapter.Operations.{infer, get_model_info, load_model}
use cyrene_reactor.Prelude.Keys.{string_eq, ◌==◌}
use cyrene_reactor.Prelude.{
  suc, refl, true, false, ◌∷◌, [], some, if◌then◌else◌, Option, none, List, ◌≡◌, ℕ, String,
}
use cyrene_reactor.Runtime.CapabilitySeam.{
  code_names, translate_failure, transport_error, direct_plugin_failure, ◌==◌, returned,
  retryable_at, failure, none, List, Answer, DirectPluginError, ExecutionEngineBinding, ℕ, String,
  translate_direct_error,
}
use cyrene_reactor.Runtime.CapabilitySeam.Adapter.{
  type_url, direct_payload, answered, number, direct_plugin_raised, text, object, Outcome, Decoded,
  Invocation, Session, Document, create, invoke_method,
}
use cyrene_reactor.Runtime.CapabilitySeam.Adapter.Invoking.{
  FailsWith, IsAnswer, invoke_method_sound, invoke_method-cancelled,
}
use cyrene_reactor.Runtime.CapabilitySeam.Adapter.Lifecycle.{
  asks_info, loads_model, infers, Call, run, run-held, held_after_all, IsHonest,
}
use cyrene_reactor.Runtime.CapabilitySeam.Binding.{
  Environment, IsBoundTo, engine_of, engine_of-IsBoundTo,
}

abbrev connect_any : String → Option ℕ
connect_any ref = some 7

abbrev encode : Document → Option Document
encode d = some d

abbrev decode : Document → Option Decoded
decode d = some (object d)

abbrev reply : String → Document
reply method =
    if method == "load_model"
    then ("status", text "LOADED") ∷ ("model_path", text "/models/a") ∷ []
    else if method == "unload_model"
    then ("status", text "UNLOADED") ∷ ("engine", text "vllm") ∷ []
    else ("output_text", text "hello") ∷ ("engine", text "vllm") ∷ []

-- It refuses the info method with an error of its own.
abbrev plugin : ℕ → Invocation Document → ℕ → Outcome Document × ℕ
plugin client i n =
    if i.method == "get_engine_info"
    then (direct_plugin_raised (transport_error "UNAVAILABLE"), suc n)
    else (answered (direct_payload (type_url i.method "response") (reply i.method)), suc n)

abbrev bound : ExecutionEngineBinding
bound = record {
  profile = "DIRECT_PLUGIN";
  capability = "execution.engine.v1";
  connection_ref = some "cyrene-direct://a";
  provider_id = some "vllm";
  timeout_seconds = 30;
}

abbrev fresh : Session ℕ ℕ
fresh = create bound none 0

abbrev unavailable_failure : DirectPluginError
unavailable_failure =
    failure (record { code = 6; is_cancelled = false; domain_code = ""; retryable = false })

unavailable_is_named :
    translate_direct_error unavailable_failure
    ≡ retryable_at (direct_plugin_failure "UNAVAILABLE") 503
unfolding translate_direct_error translate_failure code_names
unavailable_is_named = refl

abbrev inferred : Answer Document × Session ℕ ℕ
inferred =
    invoke_method connect_any plugin encode decode "execute_inference" [] none (some false) fresh

abbrev after_inference : Session ℕ ℕ
after_inference = record fresh { client = some 7; world = 1 }

inference_answers : inferred ≡ (returned (reply "execute_inference"), after_inference)
unfolding invoke_method create
inference_answers = refl

invoke_method_sound_example :
    (bytes : Document) × (client : ℕ) × (value : Document) × IsAnswer connect_any plugin encode
      decode "execute_inference" [] none
      (some false)
      fresh
      (reply "execute_inference")
      after_inference
      bytes
      client
      value
invoke_method_sound_example =
    invoke_method_sound connect_any plugin encode decode "execute_inference" [] none (some false)
      fresh (reply "execute_inference") after_inference inference_answers

invoke_method-cancelled_example :
    FailsWith 499
      (invoke_method connect_any plugin encode decode "execute_inference" [] none
        (some true)
        fresh).0
    × ((invoke_method connect_any plugin encode decode "execute_inference" [] none
          (some true)
          fresh).1.world
        ≡ 0)
unfolding create
invoke_method-cancelled_example =
    invoke_method-cancelled connect_any plugin encode decode "execute_inference" [] none fresh

abbrev calls : List Call
calls =
    infers "hi" [] none false none
    ∷ loads_model "/models/a" none [] none
    ∷ infers "hi" (("max_tokens", number 8) ∷ []) none false none
    ∷ asks_info
    ∷ loads_model "/models/b" (some "/adapters/b") [] (some 5)
    ∷ []

calls_hold_b : (run connect_any plugin encode decode calls fresh).1.model_path ≡ some "/models/b"
unfolding run load_model invoke_method get_model_info infer create
calls_hold_b = refl

calls_reach_the_plugin : (run connect_any plugin encode decode calls fresh).1.world ≡ 4
unfolding run load_model invoke_method get_model_info infer create
calls_reach_the_plugin = refl

run-held_example :
    (IsHonest connect_any plugin encode decode
      (run connect_any plugin encode decode calls (create bound none 0)).1)
    × ((run connect_any plugin encode decode calls (create bound none 0)).1.model_path
        ≡ held_after_all (run connect_any plugin encode decode calls (create bound none 0)).0 none)
run-held_example = run-held connect_any plugin encode decode bound none 0 calls

abbrev variables : Environment
variables = record {
  serving_profile = none;
  serving_connection_ref = some "cyrene-direct://a";
  serving_provider_id = some "vllm";
}

engine_of-IsBoundTo_example :
    IsBoundTo {Client = ℕ} {World = ℕ} connect_any variables "vllm"
      (engine_of (λ t. t) connect_any variables "vllm" 0)
engine_of-IsBoundTo_example = engine_of-IsBoundTo (λ t. t) connect_any variables "vllm" 0
