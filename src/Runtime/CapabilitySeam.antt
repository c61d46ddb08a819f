-- ===== src/Runtime/CapabilitySeam.antt =====
-- runtime/core/src/cy_exec/capability_seam.py: the failures, the requirement and the binding, the
-- translation of the SDK's errors, the provider, the resolver and the factory.
--
-- A failure's text is its leading code, a constructor of `Code`; the details that follow the code
-- are dropped. `DirectPluginError` has a constructor for each SDK exception class that the source
-- tells apart; the error's `status` of a transport error is its name, upper case.
pub mod Adapter
pub mod Translation
pub mod Binding
mod Examples
use cyrene_reactor.Prelude.Keys.{nat_eq, string_eq, ◌==◌}
use cyrene_reactor.Prelude.{
  ℕ, String, Bool, true, false, Option, none, some, List, [], ◌∷◌, ◌||◌, ◌&&◌, if◌then◌else◌,
}

pub data Code : Type 0 where
  serving_binding_required serving_binding_invalid serving_provider_mismatch : Code
  serving_profile_unsupported model_not_loaded load_rejected : Code
  direct_plugin_request_invalid direct_plugin_cancelled direct_plugin_deadline_exceeded : Code
  direct_plugin_protocol_error direct_plugin_error : Code
  direct_plugin_failure direct_plugin_transport_error : String → Code

pub record ServingPortFailure : Type 0 where
  pub code : Code
  pub status : ℕ
  pub retryable : Bool

-- What a call ends with; `value_error` is Python's `ValueError`.
pub data Answer (A : Type 0) : Type 0 where
  returned : A → Answer A
  failed : ServingPortFailure → Answer A
  value_error : Answer A

-- `ServingPortFailure(message, status=status)`.
abbrev pub failure_at : Code → ℕ → ServingPortFailure
failure_at code status = record { code = code; status = status; retryable = false }

-- `ServingPortFailure(message, status=status, retryable=True)`.
abbrev pub retryable_at : Code → ℕ → ServingPortFailure
retryable_at code status = record { code = code; status = status; retryable = true }

pub record DirectPluginFailure : Type 0 where
  pub code : ℕ
  pub is_cancelled : Bool
  pub domain_code : String
  pub retryable : Bool

pub data DirectPluginError : Type 0 where
  invocation_cancelled deadline_exceeded protocol_error : DirectPluginError
  failure : DirectPluginFailure → DirectPluginError
  transport_error : String → DirectPluginError
  unspecific : DirectPluginError

unfoldable pub code_names : ℕ → String
code_names code =
    if code == 1
    then "INVALID_REQUEST"
    else if code == 2
    then "METHOD_NOT_FOUND"
    else if code == 3
    then "CANCELLED"
    else if code == 4
    then "DEADLINE_EXCEEDED"
    else if code == 5
    then "EXECUTION_FAILED"
    else if code == 6
    then "UNAVAILABLE"
    else "UNKNOWN_FAILURE"

-- `error.domain_code or code_name`.
abbrev pub named : DirectPluginFailure → String
named error = if error.domain_code == "" then code_names error.code else error.domain_code

unfoldable pub transport_status : String → ℕ
transport_status name =
    if name == "CANCELLED" then 499 else if name == "DEADLINE_EXCEEDED" then 504 else 503

unfoldable pub translate_failure : DirectPluginFailure → ServingPortFailure
translate_failure error =
    if error.is_cancelled
    then failure_at direct_plugin_cancelled 499
    else if error.code == 4
    then retryable_at direct_plugin_deadline_exceeded 504
    else record {
      code = direct_plugin_failure (named error);
      status = if error.code == 6 then 503 else 502;
      retryable = error.retryable || error.code == 6;
    }

unfoldable pub translate_direct_error : DirectPluginError → ServingPortFailure
translate_direct_error invocation_cancelled = failure_at direct_plugin_cancelled 499
translate_direct_error deadline_exceeded = retryable_at direct_plugin_deadline_exceeded 504
translate_direct_error protocol_error = failure_at direct_plugin_protocol_error 502
translate_direct_error (failure error) = translate_failure error
translate_direct_error (transport_error status_name) = record {
  code = direct_plugin_transport_error status_name;
  status = transport_status status_name;
  retryable = transport_status status_name == 503 || transport_status status_name == 504;
}
translate_direct_error unspecific = retryable_at direct_plugin_error 503

pub record ExecutionEngineRequirement : Type 0 where
  pub capability : String
  pub interface_version : String
  pub execution_modes : List String

abbrev pub execution_engine_requirement : ExecutionEngineRequirement
execution_engine_requirement = record {
  capability = "execution.engine.v1";
  interface_version = "1";
  execution_modes = "SERVICE" ∷ "WORKER" ∷ [];
}

-- `profile` is the text of the enumeration's value.
pub record ExecutionEngineBinding : Type 0 where
  pub profile : String
  pub capability : String
  pub connection_ref : Option String
  pub provider_id : Option String
  pub timeout_seconds : ℕ

-- `not value`, for an optional text.
abbrev pub is_missing : Option String → Bool
is_missing none = true
is_missing (some text) = text == ""
