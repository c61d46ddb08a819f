-- ===== src/Product/Owner/Admission.antt =====
-- `package_runtime_engine`: the read-only admission of a bound runtime, and the checks that it makes.
--
-- The client's and the endpoint's answers are functions of the calls that were made before, newest
-- first; a `Reading` is an answer, an answer that is no mapping, or a call that raised. The
-- credential file is opened by remote_engine.py: `opened` says whether the port could be made, and
-- `configured` whether the configuration's model accepts the owner's settings.
pub mod Inversion
pub mod Running
pub mod Soundness
use cyrene_reactor.Prelude.Keys.{string_eq, nat_eq, ◌==◌}
use cyrene_reactor.Product.Errors.{binding_failure}
use cyrene_reactor.Product.Exec.{err, ok, Result, Exec, ◌>>=◌, ◌>>◌}
use cyrene_reactor.Prelude.{
  ◌||◌, [], is_some, ltb, ◌∷◌, none, length, ◌&&◌, ℕ, false, true, if◌then◌else◌, some, Bool,
  String, Option, List,
}
use cyrene_reactor.Product.Receipts.{Installation, RuntimeStatus, Value}
use cyrene_reactor.Product.Owner.Texts.{
  is_binding_id, required_string, is_package_version, is_sha256, control_url_from_connection_ref,
  Url,
}
use cyrene_reactor.Product.Owner.{
  ◌==◌, boolean, binding_failure, number, text, Installation, RuntimeStatus, Bool, Result, String,
  Option, lift, Value, is_value, same_value, package_id,
}

-- `authority()`; `capabilities` is `none` where it is no list.
pub record Authority : Type 0 where
  pub authority : Value
  pub protocol_version : Value
  pub catalog_generation : Value
  pub capabilities : Option (List Value)

-- The endpoint's metadata as a mapping.
abbrev pub Metadata : Type 0
Metadata = List (String × Value)

pub data Reading (A : Type 0) : Type 0 where
  read : A → Reading A
  no_mapping raised : Reading A

-- The calls of an admission: of the client, but for `request_metadata`, which is the endpoint's.
pub data Call : Type 0 where
  call_authority call_runtime_status : Call
  call_get_installation : String → Call
  request_metadata : Call

-- The client, with the endpoint that its receipt names; `generation` is its `catalog_generation`
-- after a call of `authority`.
pub record Client : Type 0 where
  pub source_id : Option String
  pub configured : Bool
  pub opened : Bool
  pub on_authority : List Call → Reading Authority
  pub generation : List Call → Value
  pub on_status : List Call → Reading RuntimeStatus
  pub on_installation : List Call → Reading Installation
  pub on_metadata : List Call → Reading Metadata

-- The port that is admitted.
pub record Engine : Type 0 where
  pub binding_id : String
  pub control_url : String

infixl 5 ◌then◌
abbrev pub ◌then◌ : {A B : Type 0} → Result A → (A → Result B) → Result B
ok a then f = f a
err e then f = err e

abbrev blocked : {A : Type 0} → String → Result A
blocked code = err (binding_failure code)

abbrev or_blocked : {A : Type 0} → Option A → String → Result A
or_blocked none code = blocked code
or_blocked (some a) code = ok a

abbrev reading : {A : Type 0} → Reading A → String → String → Result A
reading (read a) malformed unavailable = ok a
reading no_mapping malformed unavailable = blocked malformed
reading raised malformed unavailable = blocked unavailable

abbrev needs : Bool → String → Result (Unit {0})
needs test code = if test then ok tt else blocked code

abbrev all_texts : List Value → Bool
all_texts [] = true
all_texts (text t ∷ vs) = all_texts vs
all_texts (boolean _ ∷ vs) = false
all_texts (number _ ∷ vs) = false
all_texts (Value.other ∷ vs) = false

abbrev is_nonempty : List Value → Bool
is_nonempty [] = false
is_nonempty (v ∷ vs) = true

abbrev are_capabilities : Option (List Value) → Bool
are_capabilities none = false
are_capabilities (some vs) = is_nonempty vs && all_texts vs

abbrev has_value : String → List Value → Bool
has_value t [] = false
has_value t (v ∷ vs) = is_value v t || has_value t vs

-- A generation that is an integer above 0.
abbrev positive : Value → Option ℕ
positive (number n) = if ltb 0 n then some n else none
positive (text _) = none
positive (boolean _) = none
positive Value.other = none

abbrev generation_of : Authority → Value → Option ℕ → Result ℕ
generation_of authority sdk_generation none = blocked "PACKAGE_RUNTIME_AUTHORITY_INVALID"
generation_of authority sdk_generation (some n) =
    if same_value sdk_generation (number n) && are_capabilities authority.capabilities
    then ok n
    else blocked "PACKAGE_RUNTIME_AUTHORITY_INVALID"

-- `_current_authority_generation`
pub current_authority_generation : Reading Authority → Value → Result ℕ
current_authority_generation answer sdk_generation =
    reading answer "PACKAGE_RUNTIME_AUTHORITY_INVALID" "PACKAGE_RUNTIME_AUTHORITY_UNAVAILABLE"
    then λ authority.
        if is_value authority.authority "platform_package_runtime"
          && is_value authority.protocol_version "cy-package-runtime.control.v1"
        then generation_of authority sdk_generation (positive authority.catalog_generation)
        else blocked "PACKAGE_RUNTIME_AUTHORITY_INVALID"

-- `_validate_runtime_status`: the installation's id.
pub validate_runtime_status : RuntimeStatus → String → Result String
validate_runtime_status status binding =
    or_blocked (required_string status.installation_id) "PACKAGE_RUNTIME_RECEIPT_INVALID"
    then λ installation.
        needs
          (is_value status.binding_id binding
            && is_value status.state "RUNNING"
            && is_binding_id installation
            && is_some (positive status.generation))
          "PACKAGE_RUNTIME_NOT_RUNNING"
        then λ running.
            or_blocked (required_string status.connection_ref) "PACKAGE_RUNTIME_RECEIPT_INVALID"
            then λ ref. ok installation

abbrev is_digest : Value → Bool
is_digest (text t) = is_sha256 t
is_digest (boolean _) = false
is_digest (number _) = false
is_digest Value.other = false

abbrev has_capability : Option (List Value) → Bool
has_capability none = false
has_capability (some vs) = all_texts vs && has_value "execution.engine.v1" vs

-- `_validate_installation`: the package's version.
pub validate_installation : Installation → String → Result String
validate_installation record_ installation =
    or_blocked (required_string record_.package_version) "PACKAGE_RUNTIME_RECEIPT_INVALID"
    then λ version.
        needs
          (same_value record_.record_version (number 1)
            && is_value record_.installation_id installation
            && is_value record_.package_id package_id
            && is_package_version version
            && is_value record_.state "INSTALLED"
            && has_capability record_.capabilities
            && record_.has_verification
            && is_digest record_.manifest_digest
            && is_digest record_.artifact_digest
            && is_digest record_.archive_digest)
          "PACKAGE_RUNTIME_INSTALLATION_MISMATCH"
        then λ matching. ok version

abbrev has_entry : Metadata → String → String → Bool
has_entry [] key expected = false
has_entry ((k, v) ∷ rest) key expected =
    if k == key then is_value v expected else has_entry rest key expected

-- `_validate_endpoint_metadata`: a mapping with these five entries and no other.
pub validate_endpoint_metadata : Metadata → String → Result (Unit {0})
validate_endpoint_metadata metadata version =
    needs
      (length metadata == 5
        && has_entry metadata "package_id" package_id
        && has_entry metadata "package_version" version
        && has_entry metadata "capability" "execution.engine.v1"
        && has_entry metadata "interface_version" "1"
        && has_entry metadata "transport" "http")
      "PACKAGE_RUNTIME_METADATA_MISMATCH"

abbrev is_reactor : Option String → Bool
is_reactor none = false
is_reactor (some id) = id == "cyrene-reactor"

-- `_read_runtime_status` and `_validate_runtime_status`: the status and its installation's id.
pub live_status : Reading RuntimeStatus → String → Result (RuntimeStatus × String)
unfolding validate_runtime_status
live_status answer binding =
    reading answer "PACKAGE_RUNTIME_RECEIPT_INVALID" "PACKAGE_RUNTIME_OWNER_READ_DENIED"
    then λ status.
        validate_runtime_status status binding then λ installation. ok (status, installation)

-- The port for the status' reference.
pub opened_port : (String → Option Url) → Bool → String → RuntimeStatus → Result Engine
opened_port urlsplit opened binding status =
    or_blocked (required_string status.connection_ref) "PACKAGE_RUNTIME_RECEIPT_INVALID" then λ ref.
    or_blocked (control_url_from_connection_ref urlsplit ref)
      "PACKAGE_RUNTIME_CONNECTION_REF_INVALID"
    then λ url. needs opened "PACKAGE_RUNTIME_CREDENTIAL_INVALID" then λ credential.
        ok (record { binding_id = binding; control_url = url })

-- The second reading of the status.
pub unchanged : RuntimeStatus → String → RuntimeStatus → Result (Unit {0})
unchanged status installation latest =
    needs
      (is_value latest.installation_id installation
        && same_value latest.generation status.generation
        && same_value latest.connection_ref status.connection_ref)
      "PACKAGE_RUNTIME_RECEIPT_CHANGED"

abbrev pub Asking : Type 0 → Type 0
Asking = Exec (List Call)

-- A call, with the checks of its answer.
abbrev pub consult : {A : Type 0} → Call → (List Call → Result A) → Asking A
consult call checked calls = (checked calls, call ∷ calls)

-- The checks that call nobody.
abbrev pub check : {A : Type 0} → Result A → Asking A
check result calls = (result, calls)

-- The generation that `authority` and the client show.
pub generation_at : Client → List Call → Result ℕ
unfolding current_authority_generation
generation_at client calls =
    current_authority_generation (client.on_authority calls) (client.generation calls)

-- The version of the validated installation.
pub version_at : Client → String → List Call → Result String
unfolding validate_installation
version_at client id calls =
    reading (client.on_installation calls) "PACKAGE_RUNTIME_INSTALLATION_INVALID"
      "PACKAGE_RUNTIME_OWNER_READ_DENIED"
    then λ installation. validate_installation installation id

pub metadata_at : Client → String → List Call → Result (Unit {0})
unfolding validate_endpoint_metadata
metadata_at client version calls =
    reading (client.on_metadata calls) "PACKAGE_RUNTIME_METADATA_MISMATCH"
      "PACKAGE_RUNTIME_METADATA_UNAVAILABLE"
    then λ metadata. validate_endpoint_metadata metadata version

-- `package_runtime_engine`
unfoldable pub package_runtime_engine : (String → Option Url) → String → Client → Asking Engine
unfolding live_status opened_port unchanged generation_at version_at metadata_at ◌>>=◌
package_runtime_engine urlsplit binding client = do
  check (needs (is_binding_id binding) "PACKAGE_RUNTIME_BINDING_ID_INVALID")
  check (needs client.configured "PACKAGE_RUNTIME_CONFIGURATION_INVALID")
  check (needs (is_reactor client.source_id) "PACKAGE_RUNTIME_SOURCE_MISMATCH")
  generation ← consult call_authority (generation_at client)
  live ← consult call_runtime_status (λ calls. live_status (client.on_status calls) binding)
  version ← consult (call_get_installation live.1) (version_at client live.1)
  engine ← check (opened_port urlsplit client.opened binding live.0)
  consult request_metadata (metadata_at client version)
  latest ← consult call_runtime_status (λ calls. live_status (client.on_status calls) binding)
  check (unchanged live.0 live.1 latest.0)
  last ← consult call_authority (generation_at client)
  check (needs (last == generation) "PACKAGE_RUNTIME_AUTHORITY_CHANGED")
  check (ok engine)
