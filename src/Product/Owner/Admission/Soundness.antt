-- ===== src/Product/Owner/Admission/Soundness.antt =====
-- What an admitted runtime has shown: two equal readings of a running binding, around the checks of
-- its installation and its endpoint, under one authority.
use cyrene_reactor.Prelude.{
  List, [], ◌∷◌, sym, and_true, ◌∙◌, ap, refl, some, true, ℕ, ◌≡◌, String, Option, Bool,
}
use cyrene_reactor.Product.Exec.{Result, ok}
use cyrene_reactor.Product.Owner.Admission.{
  Call, Client, Metadata, call_authority, call_runtime_status, call_get_installation,
  request_metadata, generation_at, version_at, metadata_at, validate_endpoint_metadata, is_reactor,
  validate_installation, package_runtime_engine, unchanged, is_value, opened_port, RuntimeStatus,
  String, Option, Bool, read, Engine, live_status, needs, or_blocked, reading,
}
use cyrene_reactor.Product.Owner.Admission.Inversion.{
  check-elim, consult-elim, bind-ok, ok_injective, needs-ok, or_blocked-ok, reading-ok,
}
use cyrene_reactor.Prelude.Keys.{nat_eq, beq→eq, ◌==◌}
use mathlib.Core.Path.{subst}
use cyrene_reactor.Product.Owner.{is_binding_id, same_value, Installation, is_value}
use cyrene_reactor.Product.Receipts.{Installation, RuntimeStatus}
use cyrene_reactor.Product.Owner.Texts.{
  is_binding_id, IsPortOf, control_url-IsPortOf, required_string, control_url_from_connection_ref,
  Url,
}
use cyrene_reactor.Product.Owner.Admission.Running.{IsRunning, live_status-IsRunning}

-- The port that the reference opens.
abbrev pub OpensPort : String → RuntimeStatus → Engine → Type 0
OpensPort binding status engine =
    (engine.binding_id ≡ binding)
    × (ref : String) × (port : ℕ) × (required_string status.connection_ref ≡ some ref)
    × IsPortOf ref engine.control_url port

opened_port-OpensPort :
    (urlsplit : String → Option Url) (opened : Bool) (binding : String) (status : RuntimeStatus)
    (engine : Engine)
    → opened_port urlsplit opened binding status ≡ ok engine
    → OpensPort binding status engine
unfolding opened_port
opened_port-OpensPort urlsplit opened binding status engine h =
    let (ref, is_ref, h₁) =
      bind-ok (or_blocked (required_string status.connection_ref) "PACKAGE_RUNTIME_RECEIPT_INVALID")
        _ engine h in
    let (url, is_url, h₂) =
      bind-ok
        (or_blocked (control_url_from_connection_ref urlsplit ref)
          "PACKAGE_RUNTIME_CONNECTION_REF_INVALID")
        _ engine h₁ in
    let (u, is_open, h₃) =
      bind-ok (needs opened "PACKAGE_RUNTIME_CREDENTIAL_INVALID") _ engine h₂ in
    let (port, ported) = control_url-IsPortOf urlsplit ref url (or_blocked-ok _ _ url is_url) in
    let same : record { binding_id = binding; control_url = url } ≡ engine = ok_injective _ _ h₃ in
    subst (OpensPort binding status) same (refl, ref, port, or_blocked-ok _ _ ref is_ref, ported)

-- The calls that come before each call of an admission, newest first.
abbrev pub before_status : List Call
before_status = call_authority ∷ []

abbrev pub before_installation : List Call
before_installation = call_runtime_status ∷ before_status

abbrev pub before_metadata : String → List Call
before_metadata id = call_get_installation id ∷ before_installation

abbrev pub before_latest : String → List Call
before_latest id = request_metadata ∷ before_metadata id

abbrev pub before_last : String → List Call
before_last id = call_runtime_status ∷ before_latest id

-- What the installation and the endpoint showed.
abbrev pub IsInstalled : Client → String → Installation → Metadata → String → Type 0
IsInstalled client id installation metadata version =
    (client.on_installation before_installation ≡ read installation)
    × (validate_installation installation id ≡ ok version)
    × (client.on_metadata (before_metadata id) ≡ read metadata)
    × (validate_endpoint_metadata metadata version ≡ ok tt)

-- What the two readings of the status showed.
abbrev pub IsUnchanged : String → Client → RuntimeStatus → RuntimeStatus → String → Type 0
IsUnchanged binding client status latest id =
    IsRunning (client.on_status before_status) binding status id
    × ((latest_id : String) × IsRunning (client.on_status (before_latest id)) binding latest
          latest_id)
    × (is_value latest.installation_id id ≡ true)
    × (same_value latest.generation status.generation ≡ true)
    × (same_value latest.connection_ref status.connection_ref ≡ true)

-- The authority's generation, at the first call and at the last.
abbrev pub IsGeneration : Client → String → ℕ → Type 0
IsGeneration client id generation =
    (generation_at client [] ≡ ok generation)
    × (generation_at client (before_last id) ≡ ok generation)

unchanged-same :
    (status : RuntimeStatus) (id : String) (latest : RuntimeStatus) (u : Unit {0})
    → unchanged status id latest ≡ ok u
    → (is_value latest.installation_id id ≡ true)
      × (same_value latest.generation status.generation ≡ true)
      × (same_value latest.connection_ref status.connection_ref ≡ true)
unfolding unchanged
unchanged-same status id latest u h =
    let (two, ref) = and_true _ _ (needs-ok _ _ u h) in
    let (first, generation) =
      and_true (is_value latest.installation_id id) (same_value latest.generation status.generation)
        two in
    (first, generation, ref)

read_installation :
    (client : Client) (id version : String) (calls : List Call)
    → version_at client id calls ≡ ok version
    → (installation : Installation) × (client.on_installation calls ≡ read installation)
      × (validate_installation installation id ≡ ok version)
unfolding version_at
read_installation client id version calls h =
    let (installation, was_read, valid) =
      bind-ok (reading (client.on_installation calls) _ _) _ version h in
    (installation, reading-ok (client.on_installation calls) _ _ installation was_read, valid)

read_metadata :
    (client : Client) (version : String) (calls : List Call) (u : Unit {0})
    → metadata_at client version calls ≡ ok u
    → (metadata : Metadata) × (client.on_metadata calls ≡ read metadata)
      × (validate_endpoint_metadata metadata version ≡ ok tt)
unfolding metadata_at
read_metadata client version calls u h =
    let (metadata, was_read, valid) = bind-ok (reading (client.on_metadata calls) _ _) _ u h in
    (metadata, reading-ok (client.on_metadata calls) _ _ metadata was_read, valid)

-- The evidence of an admission.
abbrev pub IsAdmitted :
    String
    → Client
    → Engine
    → List Call
    → RuntimeStatus
    → RuntimeStatus
    → Installation
    → Metadata
    → String
    → String
    → ℕ
    → Type 0
IsAdmitted binding client engine calls status latest installation metadata id version generation =
    (calls ≡ call_authority ∷ before_last id)
    × IsUnchanged binding client status latest id
    × IsInstalled client id installation metadata version
    × OpensPort binding status engine
    × IsGeneration client id generation

abbrev Evidence : String → Client → Engine → List Call → Type 0
Evidence binding client engine calls =
    (status : RuntimeStatus) × (latest : RuntimeStatus) × (installation : Installation)
    × (metadata : Metadata) × (id : String) × (version : String) × (generation : ℕ) × IsAdmitted
        binding client engine calls status latest installation metadata id version generation

-- What the steps of the code have shown, put together.
admitted :
    (urlsplit : String → Option Url) (binding : String) (client : Client) (engine : Engine)
    (calls : List Call) (generation : ℕ) (seen : RuntimeStatus × String) (version : String)
    (port : Engine) (u : Unit {0}) (again : RuntimeStatus × String) (v : Unit {0}) (last : ℕ)
    (w : Unit {0})
    → generation_at client [] ≡ ok generation
    → live_status (client.on_status before_status) binding ≡ ok seen
    → version_at client seen.1 before_installation ≡ ok version
    → opened_port urlsplit client.opened binding seen.0 ≡ ok port
    → metadata_at client version (before_metadata seen.1) ≡ ok u
    → live_status (client.on_status (before_latest seen.1)) binding ≡ ok again
    → unchanged seen.0 seen.1 again.0 ≡ ok v
    → generation_at client (before_last seen.1) ≡ ok last
    → needs (last == generation) "PACKAGE_RUNTIME_AUTHORITY_CHANGED" ≡ ok w
    → ◌≡◌ {A = Result Engine × List Call}
        (ok port, call_authority ∷ before_last seen.1)
        (ok engine, calls)
    → Evidence binding client engine calls
admitted urlsplit binding client engine calls generation seen version port u again v last w first
      live versioned opened matching live_again same finally current answer =
    let (installation, installed, valid) = read_installation client seen.1 version _ versioned in
    let (metadata, told, matches) = read_metadata client version _ u matching in
    let ports : ok port ≡ ok engine = ap (λ (p : Result Engine × List Call). p.0) answer in
    let generations : last ≡ generation = beq→eq last generation (needs-ok _ _ w current) in
    let unchanging = unchanged-same seen.0 seen.1 again.0 v same in
    (
      seen.0,
      again.0,
      installation,
      metadata,
      seen.1,
      version,
      generation,
      (
        sym (ap (λ (p : Result Engine × List Call). p.1) answer),
        (
          live_status-IsRunning _ binding seen.0 seen.1 live,
          (again.1, live_status-IsRunning _ binding again.0 again.1 live_again),
          unchanging.0,
          unchanging.1,
          unchanging.2,
        ),
        (installed, valid, told, matches),
        opened_port-OpensPort urlsplit client.opened binding seen.0 engine (opened ∙ ports),
        (first, finally ∙ ap ok generations),
      ),
    )

-- An engine is admitted only after these six calls, in this order, whatever the client answers at
-- each: the authority, the binding's status, its installation, the endpoint's metadata, the status
-- again and the authority again. Both readings of the status show the binding running, with the same
-- installation, generation and connection reference; the installation that was read in between is
-- valid and the endpoint's metadata match its version; the engine's control URL is that of the
-- loopback port of the first reading's reference; and the authority's generation was the same at the
-- first call and at the last.
pub package_runtime_engine-IsAdmitted :
    (urlsplit : String → Option Url) (binding : String) (client : Client) (engine : Engine)
    (calls : List Call)
    → package_runtime_engine urlsplit binding client [] ≡ (ok engine, calls)
    → (status : RuntimeStatus) × (latest : RuntimeStatus) × (installation : Installation)
      × (metadata : Metadata) × (id : String) × (version : String) × (generation : ℕ) × IsAdmitted
          binding client engine calls status latest installation metadata id version generation
unfolding package_runtime_engine
package_runtime_engine-IsAdmitted urlsplit binding client engine calls h =
    let status_at : List Call → Result (RuntimeStatus × String) =
      λ log. live_status (client.on_status log) binding in
    check-elim (needs (is_binding_id binding) _) _ [] engine calls h λ u₁ named h₁.
      check-elim (needs client.configured _) _ [] engine calls h₁ λ u₂ configured h₂.
        check-elim (needs (is_reactor client.source_id) _) _ [] engine calls h₂ λ u₃ owned h₃.
          consult-elim call_authority (generation_at client) _ [] engine calls h₃
            λ generation first h₄.
              consult-elim call_runtime_status status_at _ before_status engine calls h₄
                λ seen live h₅.
                  consult-elim (call_get_installation seen.1) (version_at client seen.1) _
                    before_installation engine calls h₅
                    λ version versioned h₆.
                      check-elim (opened_port urlsplit client.opened binding seen.0) _
                        (before_metadata seen.1) engine calls h₆
                        λ port opened h₇.
                          consult-elim request_metadata (metadata_at client version) _
                            (before_metadata seen.1) engine calls h₇
                            λ u₄ matching h₈.
                              consult-elim call_runtime_status status_at _ (before_latest seen.1)
                                engine calls h₈
                                λ again live_again h₉.
                                  check-elim (unchanged seen.0 seen.1 again.0) _
                                    (before_last seen.1) engine calls h₉
                                    λ u₅ same h₁₀.
                                      consult-elim call_authority (generation_at client) _
                                        (before_last seen.1) engine calls h₁₀
                                        λ last finally h₁₁.
                                          check-elim (needs (last == generation) _) _
                                            (call_authority ∷ before_last seen.1) engine calls h₁₁
                                            λ u₆ current h₁₂.
                                              admitted urlsplit binding client engine calls
                                                generation seen version port u₄ again u₅ last u₆
                                                first live versioned opened matching live_again same
                                                finally current h₁₂
