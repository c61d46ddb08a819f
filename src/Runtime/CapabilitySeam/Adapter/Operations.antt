-- ===== src/Runtime/CapabilitySeam/Adapter/Operations.antt =====
-- The engine's methods: `load_model` to `health_check`.
use cyrene_reactor.Prelude.Keys.{string_eq, ◌==◌}
use cyrene_reactor.Runtime.CapabilitySeam.{
  model_not_loaded, direct_plugin_request_invalid, direct_plugin_protocol_error, load_rejected,
  failure_at, failed, returned, Answer,
}
use cyrene_reactor.Prelude.{
  [], none, ◌&&◌, ◌∷◌, is_some, false, ℕ, if◌then◌else◌, true, some, List, Option, Bool, String,
}
use cyrene_reactor.Runtime.CapabilitySeam.Adapter.{
  no_event, decimal, number, update, event, fail, boolean, value_or, CancelArgument, is_text, text,
  is_given, Answer, lookup, is_word, assign, Bool, String, Json, Document, Session, Serving,
  Invocation, Outcome, Decoded, invoke_method, and_then,
}

abbrev optional_fields : List String
optional_fields =
    "adapter_name" ∷ "max_lora_rank" ∷ "max_model_len" ∷ "max_output_len" ∷ "quantization"
    ∷ "tensor_parallel_size" ∷ "gpu_memory_utilization" ∷ "enable_prefix_caching" ∷ "kv_cache_dtype"
    ∷ []

abbrev with_field : String → Option Json → Document → Document
with_field field none payload = payload
with_field field (some value) payload =
    if is_given (some value) then assign field value payload else payload

abbrev with_fields : List String → Document → Document → Document
with_fields [] arguments payload = payload
with_fields (field ∷ fields) arguments payload =
    with_fields fields arguments (with_field field (lookup field arguments) payload)

abbrev with_adapter : Option String → Document → Document
with_adapter none payload = payload
with_adapter (some path) payload =
    if path == "" then payload else assign "adapter_path" (text path) payload

unfoldable pub load_payload : String → Option String → Document → Document
unfolding assign lookup
load_payload model_path adapter_path arguments = with_fields optional_fields arguments (
    with_adapter adapter_path (
      ("model_path", text model_path)
      ∷ ("max_batch_size", value_or (number 8) (lookup "max_batch_size" arguments))
      ∷ []))

abbrev pub is_load_confirmed : Document → Bool
is_load_confirmed response =
    is_word "LOADED" (lookup "status" response) && is_text (lookup "model_path" response)

pub infer_payload : String → Document → Document
unfolding lookup
infer_payload prompt arguments =
    ("prompt", text prompt)
    ∷ (
      "max_new_tokens",
      value_or (value_or (number 512) (lookup "max_new_tokens" arguments))
          (lookup "max_tokens" arguments),
    )
    ∷ ("temperature", value_or (decimal 7 1) (lookup "temperature" arguments))
    ∷ ("top_p", value_or (decimal 9 1) (lookup "top_p" arguments))
    ∷ []

abbrev text_of : Option Json → Bool → Answer String
text_of (some (text t)) true = returned t
text_of (some _) _ = failed (failure_at direct_plugin_protocol_error 502)
text_of none _ = failed (failure_at direct_plugin_protocol_error 502)

abbrev pub is_unload_confirmed : Document → Bool
is_unload_confirmed response =
    is_word "UNLOADED" (lookup "status" response) && is_text (lookup "engine" response)

abbrev is_info_complete : Document → Bool
is_info_complete info =
    is_some (lookup "engine_name" info)
    && is_some (lookup "runtime_available" info)
    && is_some (lookup "is_loaded" info)

module _ {Client World : Type 0} where
  -- What a confirmed load writes.
  abbrev pub mark_loaded : String → Session Client World → Session Client World
  mark_loaded path s = record s {
    is_loaded = true;
    model_path = some path;
    engine_info = assign "model_path" (text path) (assign "is_loaded" (boolean true) s.engine_info);
  }

  abbrev pub confirm_load : String → Document → Serving Client World (Unit {0})
  confirm_load path response s =
      if is_load_confirmed response
      then (returned tt, mark_loaded path s)
      else fail (failure_at load_rejected 502) s

  abbrev pub output_text : Document → Serving Client World String
  output_text response s =
      (text_of (lookup "output_text" response) (is_text (lookup "engine" response)), s)

  -- What a confirmed unload writes.
  abbrev pub mark_unloaded : Session Client World → Session Client World
  mark_unloaded s = record s {
    is_loaded = false;
    model_path = none;
    engine_info = assign "is_loaded" (boolean false) s.engine_info;
  }

  abbrev pub confirm_unload : Document → Serving Client World (Unit {0})
  confirm_unload response s =
      if is_unload_confirmed response
      then (returned tt, mark_unloaded s)
      else fail (failure_at direct_plugin_protocol_error 502) s

  abbrev pub record_info : Document → Serving Client World Document
  record_info info s =
      if is_info_complete info
      then (
        returned (update s.engine_info info),
        record s { engine_info = update s.engine_info info },
      )
      else fail (failure_at direct_plugin_protocol_error 502) s

module _ {Client World Bytes : Type 0} (connect : String → Option Client)
    (invoke : Client → Invocation Bytes → World → Outcome Bytes × World)
    (dumps : Document → Option Bytes) (loads : Bytes → Option Decoded) where
  unfoldable pub load_model :
      String → Option String → Document → Option ℕ → Serving Client World (Unit {0})
  unfolding load_payload
  load_model model_path adapter_path arguments deadline s =
      and_then
        (invoke_method connect invoke dumps loads "load_model"
          (load_payload model_path adapter_path arguments) deadline none s)
        (confirm_load model_path)

  abbrev infer_with : String → Document → Option ℕ → Option Bool → Serving Client World String
  infer_with prompt arguments deadline cancel_event s =
      and_then
        (invoke_method connect invoke dumps loads "execute_inference"
          (infer_payload prompt arguments) deadline cancel_event s)
        output_text

  abbrev infer_loaded :
      String → Document → Option ℕ → Option CancelArgument → Serving Client World String
  infer_loaded prompt arguments deadline none s = infer_with prompt arguments deadline none s
  infer_loaded prompt arguments deadline (some (event b)) s =
      infer_with prompt arguments deadline (some b) s
  infer_loaded prompt arguments deadline (some no_event) s =
      fail (failure_at direct_plugin_request_invalid 500) s

  unfoldable pub infer :
      String → Document → Option ℕ → Bool → Option CancelArgument → Serving Client World String
  unfolding infer_payload
  infer prompt arguments deadline cancel_requested cancel_event s =
      if s.is_loaded
      then infer_loaded prompt arguments deadline
          (if cancel_requested then some (event true) else cancel_event) s
      else fail (failure_at model_not_loaded 503) s

  unfoldable pub unload_model : Serving Client World (Unit {0})
  unload_model s =
      if s.is_loaded
      then and_then (invoke_method connect invoke dumps loads "unload_model" [] none none s)
          confirm_unload
      else (returned tt, s)

  unfoldable pub get_model_info : Serving Client World Document
  get_model_info s =
      if s.is_loaded
      then and_then (invoke_method connect invoke dumps loads "get_engine_info" [] none none s)
          record_info
      else (returned s.engine_info, s)

pub health_check : {Client World : Type 0} → Session Client World → Bool
health_check s = s.is_loaded
