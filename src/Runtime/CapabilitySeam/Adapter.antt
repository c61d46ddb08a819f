-- ===== src/Runtime/CapabilitySeam/Adapter.antt =====
-- class `DirectPluginExecutionEngineAdapter`.
--
-- The SDK client and what it works on are parameters: `connect` is
-- `DirectPluginClient.for_local_connection_ref` (`none` where it raises `TypeError` or `ValueError`)
-- and `invoke` is `client.invoke`, which may change the `World` whatever it ends with. `dumps` and
-- `loads` are `_json_bytes`' and `_invoke`'s JSON coding (`none` where they raise). A keyword
-- argument that is not given is not in the document; seconds are in one fixed unit. The generator
-- of `infer`, run to its end, is the one text that it yields.
pub mod Operations
pub mod Invoking
pub mod Lifecycle
use Prim.Native.String.{◌++◌ as str_append}
use cyrene_reactor.Prelude.Keys.{nat_eq, string_eq, ◌==◌}
use cyrene_reactor.Prelude.{
  ℕ, String, Bool, true, false, not, ◌&&◌, Option, none, some, List, [], ◌∷◌, ◌++◌, find,
  if◌then◌else◌, is_some,
}
use cyrene_reactor.Runtime.CapabilitySeam.{
  Code, ServingPortFailure, Answer, returned, failed, value_error, failure_at, retryable_at,
  DirectPluginError, translate_direct_error, ExecutionEngineBinding, is_missing,
  serving_binding_required, serving_binding_invalid, direct_plugin_request_invalid,
  direct_plugin_cancelled, direct_plugin_protocol_error, direct_plugin_error, load_rejected,
  model_not_loaded,
}

-- A JSON value: a decimal is its digits and its exponent, and what the adapter does not look into
-- is `structure`.
pub data Json : Type 0 where
  null : Json
  boolean : Bool → Json
  number : ℕ → Json
  decimal : ℕ → ℕ → Json
  text : String → Json
  structure : ℕ → Json

-- A dict with text keys.
abbrev pub Document : Type 0
Document = List (String × Json)

pub lookup : String → Document → Option Json
lookup key [] = none
lookup key ((k, value) ∷ rest) = if k == key then some value else lookup key rest

-- `document[key] = value`
pub assign : String → Json → Document → Document
assign key value [] = (key, value) ∷ []
assign key value ((k, v) ∷ rest) =
    if k == key then (k, value) ∷ rest else (k, v) ∷ assign key value rest

-- `document.update(changes)`
pub update : Document → Document → Document
unfolding assign
update document [] = document
update document ((k, v) ∷ changes) = update (assign k v document) changes

-- `document.get(key, default)`
abbrev pub value_or : Json → Option Json → Json
value_or default none = default
value_or default (some value) = value

-- `isinstance(document.get(key), str)`
abbrev pub is_text : Option Json → Bool
is_text (some (text t)) = true
is_text (some _) = false
is_text none = false

-- `document.get(key) == "..."`
abbrev pub is_word : String → Option Json → Bool
is_word word (some (text t)) = t == word
is_word word (some _) = false
is_word word none = false

-- `document.get(key) is not None`
abbrev pub is_given : Option Json → Bool
is_given none = false
is_given (some null) = false
is_given (some _) = true

abbrev pub type_url : String → String → String
type_url method direction =
    str_append "type.cyrene.io/execution.engine.v1." (str_append method (str_append "." direction))

-- What `loads` yields: an object, or any other value.
pub data Decoded : Type 0 where
  object : Document → Decoded
  not_object : Decoded

pub data Response (Bytes : Type 0) : Type 0 where
  direct_payload : String → Bytes → Response Bytes
  untyped : Response Bytes

pub data Outcome (Bytes : Type 0) : Type 0 where
  answered : Response Bytes → Outcome Bytes
  direct_plugin_raised : DirectPluginError → Outcome Bytes
  type_or_value_error : Outcome Bytes
  other_exception : Outcome Bytes

pub record Invocation (Bytes : Type 0) : Type 0 where
  pub method : String
  pub request_type_url : String
  pub payload : Bytes
  pub deadline_seconds : ℕ
  pub cancel_event : Option Bool

-- The argument `cancel_event`: an event, which is set or not, or an object without `is_set`.
pub data CancelArgument : Type 0 where
  event : Bool → CancelArgument
  no_event : CancelArgument

-- The adapter's attributes, beside the world that its client works on.
pub record Session (Client World : Type 0) : Type 0 where
  pub binding : ExecutionEngineBinding
  pub client : Option Client
  pub is_loaded : Bool
  pub model_path : Option String
  pub engine_info : Document
  pub world : World

abbrev pub Serving : Type 0 → Type 0 → Type 0 → Type 0
Serving Client World A = Session Client World → Answer A × Session Client World

abbrev pub or_null : Option String → Json
or_null none = null
or_null (some t) = text t

-- `binding.provider_id or "direct-plugin-engine"`
abbrev pub engine_name : Option String → String
engine_name none = "direct-plugin-engine"
engine_name (some id) = if id == "" then "direct-plugin-engine" else id

module _ {Client World : Type 0} where
  -- `__init__`
  unfoldable pub create : ExecutionEngineBinding → Option Client → World → Session Client World
  create binding client world = record {
    binding = binding;
    client = client;
    is_loaded = false;
    model_path = none;
    engine_info =
        ("engine", text (engine_name binding.provider_id))
        ∷ ("capability", text binding.capability)
        ∷ ("connection_ref", or_null binding.connection_ref)
        ∷ ("is_loaded", boolean false)
        ∷ [];
    world = world;
  }

  module _ {A B : Type 0} where
    abbrev pub and_then :
        Answer A × Session Client World
        → (A → Serving Client World B)
        → Answer B × Session Client World
    and_then (returned a, s) next = next a s
    and_then (failed e, s) next = (failed e, s)
    and_then (value_error, s) next = (value_error, s)

  -- `raise ServingPortFailure(...)`
  abbrev pub fail : {A : Type 0} → ServingPortFailure → Serving Client World A
  fail failure s = (failed failure, s)

module _ {Client World : Type 0} (connect : String → Option Client) where
  abbrev connected : Option Client → Serving Client World Client
  connected none s = fail (failure_at serving_binding_invalid 503) s
  connected (some client) s = (returned client, record s { client = some client })

  abbrev connect_to : Option String → Serving Client World Client
  connect_to none s = fail (failure_at serving_binding_required 503) s
  connect_to (some ref) s =
      if ref == ""
      then fail (failure_at serving_binding_required 503) s
      else connected (connect ref) s

  pub get_client : Serving Client World Client
  get_client s = elim s.client [
    | some client ↦ (returned client, s)
    | none ↦ connect_to s.binding.connection_ref s
  ]

module _ {Bytes : Type 0} (loads : Bytes → Option Decoded) where
  abbrev decoded : Option Decoded → Answer Document
  decoded none = failed (failure_at direct_plugin_protocol_error 502)
  decoded (some not_object) = failed (failure_at direct_plugin_protocol_error 502)
  decoded (some (object document)) = returned document

  -- The checks on what the client answered, or the failure for what it raised.
  pub checked_response : String → Outcome Bytes → Answer Document
  checked_response method (direct_plugin_raised error) = failed (translate_direct_error error)
  checked_response method type_or_value_error = failed (failure_at direct_plugin_protocol_error 502)
  checked_response method other_exception = failed (retryable_at direct_plugin_error 503)
  checked_response method (answered untyped) = failed (failure_at direct_plugin_protocol_error 502)
  checked_response method (answered (direct_payload url value)) =
      if url == type_url method "response"
      then decoded (loads value)
      else failed (failure_at direct_plugin_protocol_error 502)

module _ {Bytes : Type 0} where
  abbrev pub invocation :
      String → Bytes → Option ℕ → Option Bool → ExecutionEngineBinding → Invocation Bytes
  invocation method payload deadline cancel_event binding = record {
    method = method;
    request_type_url = type_url method "request";
    payload = payload;
    deadline_seconds = elim deadline [ none ↦ binding.timeout_seconds | some seconds ↦ seconds ];
    cancel_event = cancel_event;
  }

abbrev pub is_set : Option Bool → Bool
is_set none = false
is_set (some b) = b

module _ {Client World Bytes : Type 0}
    (invoke : Client → Invocation Bytes → World → Outcome Bytes × World)
    (loads : Bytes → Option Decoded) where
  pub call_client : String → Bytes → Option ℕ → Option Bool → Client → Serving Client World Document
  call_client method payload deadline cancel_event client s =
      if is_set cancel_event
      then fail (failure_at direct_plugin_cancelled 499) s
      else let outcome =
          invoke client (invocation method payload deadline cancel_event s.binding) s.world in
        (checked_response loads method outcome.0, record s { world = outcome.1 })

module _ {Client World Bytes : Type 0} (connect : String → Option Client)
    (invoke : Client → Invocation Bytes → World → Outcome Bytes × World)
    (dumps : Document → Option Bytes) (loads : Bytes → Option Decoded) where
  unfoldable pub invoke_method :
      String → Document → Option ℕ → Option Bool → Serving Client World Document
  unfolding get_client call_client checked_response
  invoke_method method payload deadline cancel_event s = elim (dumps payload) [
    | none ↦ fail (failure_at direct_plugin_request_invalid 500) s
    | some bytes ↦
        and_then (get_client connect s)
          (call_client invoke loads method bytes deadline cancel_event)
  ]
