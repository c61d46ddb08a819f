-- ===== src/Runtime/CapabilitySeam/Binding.antt =====
-- `DirectPluginEngineProvider`, `ConfiguredExecutionEngineResolver`,
-- `ExecutionEngineCapabilityFactory` and `resolve_execution_engine_resolver`.
--
-- `normalise` is `str.strip` followed by `str.upper`, applied to CYRENE_SERVING_PROFILE.
use cyrene_reactor.Prelude.Keys.{string_eq, ◌==◌}
use cyrene_reactor.Prelude.{
  arith, true, [], ◌∷◌, ◌⊎◌, ◌&&◌, ◌≡◌, not, none, false, if◌then◌else◌, some, Bool, Option, List,
  String,
}
use cyrene_reactor.Runtime.CapabilitySeam.{
  serving_provider_mismatch, serving_binding_invalid, is_missing, serving_profile_unsupported,
  value_error, serving_binding_required, failure_at, ◌==◌, execution_engine_requirement, failed,
  returned, ExecutionEngineRequirement, Answer, ExecutionEngineBinding,
}
use cyrene_reactor.Runtime.CapabilitySeam.Adapter.{Session, create}

pub record Provider (Client : Type 0) : Type 0 where
  pub binding : ExecutionEngineBinding
  pub client : Option Client

pub record Resolver (Client : Type 0) : Type 0 where
  pub binding : ExecutionEngineBinding
  pub direct_client : Option Client

-- `Answer` with its continuation.
abbrev bind : {A B : Type 0} → Answer A → (A → Answer B) → Answer B
bind (returned a) next = next a
bind (failed e) next = failed e
bind value_error next = value_error

-- `provider_id != self.binding.provider_id`
abbrev is_bound_id : String → Option String → Bool
is_bound_id id none = false
is_bound_id id (some bound) = id == bound

-- `requirement != EXECUTION_ENGINE_REQUIREMENT`, a comparison of frozen dataclasses.
abbrev same_modes : List String → List String → Bool
same_modes [] [] = true
same_modes (x ∷ xs) (y ∷ ys) = x == y && same_modes xs ys
same_modes _ _ = false

abbrev is_standard : ExecutionEngineRequirement → Bool
is_standard r =
    r.capability == execution_engine_requirement.capability
    && r.interface_version == execution_engine_requirement.interface_version
    && same_modes r.execution_modes execution_engine_requirement.execution_modes

-- What the serving variables of the environment hold.
pub record Environment : Type 0 where
  pub serving_profile : Option String
  pub serving_connection_ref : Option String
  pub serving_provider_id : Option String

module _ {Client : Type 0} (connect : String → Option Client) where
  -- `self._client`, connected first where there is none.
  abbrev connected : Option String → Answer Client
  connected none = failed (failure_at serving_binding_required 503)
  connected (some ref) =
      if ref == "" then failed (failure_at serving_binding_required 503) else elim (connect ref) [
        | none ↦ failed (failure_at serving_binding_invalid 503)
        | some client ↦ returned client
      ]

  abbrev client_of : Provider Client → Answer Client
  client_of provider = elim provider.client [
    | some client ↦ returned client
    | none ↦ connected provider.binding.connection_ref
  ]

  -- The adapter, and the provider with its client.
  unfoldable pub provide :
      {World : Type 0}
      → String
      → World
      → Provider Client
      → Answer (Session Client World × Provider Client)
  unfolding create
  provide id world provider =
      if is_bound_id id provider.binding.provider_id
      then bind (client_of provider) (λ client.
        returned
          (create provider.binding (some client) world, record provider { client = some client }))
      else failed (failure_at serving_provider_mismatch 409)

module _ {Client : Type 0} where
  unfoldable pub resolve : ExecutionEngineRequirement → Resolver Client → Answer (Provider Client)
  resolve requirement resolver =
      if not (is_standard requirement)
      then value_error
      else if resolver.binding.profile == "DIRECT_PLUGIN"
      then if is_missing resolver.binding.connection_ref
        then failed (failure_at serving_binding_required 503)
        else if is_missing resolver.binding.provider_id
        then failed (failure_at serving_binding_required 503)
        else returned (record { binding = resolver.binding; client = resolver.direct_client })
      else failed (failure_at serving_profile_unsupported 500)

-- `ExecutionEngineCapabilityFactory.__call__`
unfoldable pub make_engine :
    {Client World : Type 0}
    → (String → Option Client)
    → Resolver Client
    → String
    → World
    → Answer (Session Client World × Provider Client)
unfolding resolve provide
make_engine connect resolver id world =
    bind (resolve execution_engine_requirement resolver) (provide connect id world)

-- `profile_str`, `DIRECT_PLUGIN` where it is empty.
abbrev profile_text : (String → String) → Option String → String
profile_text normalise none = "DIRECT_PLUGIN"
profile_text normalise (some value) =
    if normalise value == "" then "DIRECT_PLUGIN" else normalise value

unfoldable pub resolve_execution_engine_resolver :
    {Client : Type 0} → (String → String) → Environment → Answer (Resolver Client)
resolve_execution_engine_resolver normalise environment =
    if profile_text normalise environment.serving_profile == "DIRECT_PLUGIN"
    then returned (record {
      binding = record {
        profile = "DIRECT_PLUGIN";
        capability = "execution.engine.v1";
        connection_ref = environment.serving_connection_ref;
        provider_id = environment.serving_provider_id;
        timeout_seconds = 30;
      };
      direct_client = none;
    })
    else failed (failure_at serving_profile_unsupported 500)

-- The engine that a process with these variables makes.
unfoldable pub engine_of :
    {Client World : Type 0}
    → (String → String)
    → (String → Option Client)
    → Environment
    → String
    → World
    → Answer (Session Client World × Provider Client)
unfolding resolve_execution_engine_resolver make_engine
engine_of normalise connect environment id world =
    bind (resolve_execution_engine_resolver normalise environment)
      (λ resolver. make_engine connect resolver id world)

-- What an engine that was made is bound to.
abbrev pub IsBoundTo :
    {Client World : Type 0}
    → (String → Option Client)
    → Environment
    → String
    → Answer (Session Client World × Provider Client)
    → Type 0
IsBoundTo connect environment id (returned (session, provider)) =
    (environment.serving_provider_id ≡ some id)
    × (session.binding.connection_ref ≡ environment.serving_connection_ref)
    × (is_missing environment.serving_connection_ref ≡ false)
    × (elim environment.serving_connection_ref [ none ↦ none | some ref ↦ connect ref ]
        ≡ session.client)
    × (session.is_loaded ≡ false)
IsBoundTo connect environment id (failed f) = (f.status ≡ 409) ⊎ (f.status ≡ 500) ⊎ (f.status ≡ 503)
IsBoundTo connect environment id value_error = ⊥

bound_by :
    {Client World : Type 0} (normalise : String → String) (connect : String → Option Client)
    (profile ref provider : Option String) (id : String) (world : World)
    → IsBoundTo connect
        (record {
          serving_profile = profile;
          serving_connection_ref = ref;
          serving_provider_id = provider;
        })
        id
        (engine_of normalise connect
          (record {
            serving_profile = profile;
            serving_connection_ref = ref;
            serving_provider_id = provider;
          })
          id
          world)
unfolding engine_of make_engine resolve_execution_engine_resolver resolve provide create
bound_by normalise connect profile none provider id world = ground arith
bound_by normalise connect profile (some ref) none id world = ground arith
bound_by normalise connect profile (some ref) (some provider) id world =
    ground (arith, string_eq.beq_iff id provider)

-- The engine that the environment gives is the one that was asked for by id, on a client of the
-- configured connection and not loaded; otherwise the call fails with 409, 500 or 503. The standard
-- requirement is never refused as unsupported.
pub engine_of-IsBoundTo :
    {Client World : Type 0} (normalise : String → String) (connect : String → Option Client)
    (environment : Environment) (id : String) (world : World)
    → IsBoundTo connect environment id (engine_of normalise connect environment id world)
engine_of-IsBoundTo normalise connect environment id world =
    bound_by normalise connect environment.serving_profile environment.serving_connection_ref
      environment.serving_provider_id id world
