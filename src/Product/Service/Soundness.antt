-- ===== src/Product/Service/Soundness.antt =====
-- What the commands' building blocks keep: a sound store.
use cyrene_reactor.Product.Store.Imports.Soundness.{
  save_model_import-Keeps, commit_model_import_intent-Keeps,
}
use cyrene_reactor.Product.Store.Deployments.Soundness.{
  create_intent-Keeps, save_pair-Keeps, save_deployment-Keeps,
}
use cyrene_reactor.Product.Store.{Store}
use cyrene_reactor.Product.Store.Imports.{TaskId}
use cyrene_reactor.Product.Exec.Keeps.{Keeps-pure, Keeps-option, Keeps-raise, keeps_rules, Keeps}
use cyrene_reactor.Product.Domain.{DeploymentPhase, ModelVersion, Deployment}
use cyrene_reactor.Product.Errors.{Code}
use cyrene_reactor.Prelude.{none, some, String, Option, ℕ, List}
use cyrene_reactor.Product.Exec.{Result, Exec}
use cyrene_reactor.Product.Service.{
  runtime_model_version, Store, TaskId, String, Option, Keyword, Deployment, ℕ, Code, List, Exec,
  State, Host, Engine, Call, Note, on_store, ask, try, require, utc_now, uuid4, require_deployment,
  require_endpoint, endpoint_of, serving_artifact, serving_identity, engine_for,
  require_model_version_keyword, require_for, tracked, append_event, record_deployment_diagnostic,
}
use cyrene_reactor.Product.Store.Soundness.{
  append_deployment_event-Keeps, append_diagnostics-Keeps, IsSound,
}

abbrev pub HasSoundStore : State → Type 0
HasSoundStore s = IsSound s.store

pub on_store-Keeps :
    {A : Type 0} (m : Exec Store A) → Keeps IsSound m → Keeps HasSoundStore (on_store m)
unfolding on_store
on_store-Keeps m k = record { at = λ s h. k.at s.store h }

pub ask-Keeps : {A : Type 0} (c : Call) (f : List Call → Result A) → Keeps HasSoundStore (ask c f)
unfolding ask
ask-Keeps c f = record { at = λ s h. h }

pub try-Keeps :
    {A : Type 0} (m : Exec State A) → Keeps HasSoundStore m → Keeps HasSoundStore (try m)
unfolding try
try-Keeps m k = record { at = k.at }

pub require-Keeps :
    {A : Type 0} (code : Code) (status : ℕ) (o : Option A)
    → Keeps HasSoundStore (require code status o)
unfolding require
require-Keeps code status none = Keeps-raise _
require-Keeps code status (some a) = Keeps-pure a

pub require_deployment-Keeps : (id : ℕ) → Keeps HasSoundStore (require_deployment id)
unfolding require_deployment
require_deployment-Keeps id = search (keeps_rules, require-Keeps)

pub require_endpoint-Keeps : (id : ℕ) → Keeps HasSoundStore (require_endpoint id)
unfolding require_endpoint
require_endpoint-Keeps id = search (keeps_rules, require-Keeps)

pub endpoint_of-Keeps : (d : Deployment) → Keeps HasSoundStore (endpoint_of d)
unfolding endpoint_of
endpoint_of-Keeps d =
    Keeps-option d.endpoint_id _ _ (Keeps-pure _)
      (λ id. search (keeps_rules, require_endpoint-Keeps))

pub serving_artifact-Keeps : (d : Deployment) → Keeps HasSoundStore (serving_artifact d)
unfolding serving_artifact
serving_artifact-Keeps d = search require-Keeps

pub serving_identity-Keeps : (d : Deployment) → Keeps HasSoundStore (serving_identity d)
unfolding serving_identity
serving_identity-Keeps d =
    Keeps-option (runtime_model_version d) _ _ (search (keeps_rules, serving_artifact-Keeps))
      (λ v. Keeps-pure v.id)

pub require_keyword-Keeps :
    (e : Engine) (k : Keyword) → Keeps HasSoundStore (require_model_version_keyword e k)
unfolding require_model_version_keyword
require_keyword-Keeps e k = search keeps_rules

pub require_for-Keeps :
    (v : Option ModelVersion) (e : Engine) (k : Keyword) → Keeps HasSoundStore (require_for v e k)
unfolding require_for
require_for-Keeps none e k = Keeps-pure tt
require_for-Keeps (some v) e k = require_keyword-Keeps e k

module _ (h : Host) where
  pub utc_now-Keeps : Keeps HasSoundStore (utc_now h)
  unfolding utc_now
  utc_now-Keeps = record { at = λ s v. v }

  pub uuid4-Keeps : Keeps HasSoundStore (uuid4 h)
  unfolding uuid4
  uuid4-Keeps = record { at = λ s v. v }

  pub engine_for-Keeps : (binding : String) → Keeps HasSoundStore (engine_for h binding)
  unfolding engine_for
  engine_for-Keeps binding = Keeps-option h.engines _ _ (Keeps-pure _) (λ es. require-Keeps _ _ _)

  pub tracked-Keeps :
      {A : Type 0} (note : Note) (task : TaskId) (m : Exec State A)
      → Keeps HasSoundStore m
      → Keeps HasSoundStore (tracked h note task m)
  unfolding tracked
  tracked-Keeps note task m k =
      Keeps-option h.activity_source _ _ k (λ source. search (keeps_rules, ask-Keeps))

  pub append_event-Keeps :
      (id : ℕ) (phase : DeploymentPhase) (message : String) (code : Option String)
      → Keeps HasSoundStore (append_event h id phase message code)
  unfolding append_event
  append_event-Keeps id phase message code =
      search (keeps_rules, utc_now-Keeps, on_store-Keeps, append_deployment_event-Keeps)

  pub record_diagnostic-Keeps :
      (id : ℕ) (message level : String) (code : Option String)
      → Keeps HasSoundStore (record_deployment_diagnostic h id message level code)
  unfolding record_deployment_diagnostic
  record_diagnostic-Keeps id message level code =
      search (keeps_rules, utc_now-Keeps, on_store-Keeps, append_diagnostics-Keeps)

pub ruleset service_rules = (
  keeps_rules, on_store-Keeps, ask-Keeps, try-Keeps, require-Keeps, require_deployment-Keeps,
  require_endpoint-Keeps, endpoint_of-Keeps, serving_artifact-Keeps, serving_identity-Keeps,
  require_keyword-Keeps, require_for-Keeps, utc_now-Keeps, uuid4-Keeps, engine_for-Keeps,
  tracked-Keeps, append_event-Keeps, record_diagnostic-Keeps, save_deployment-Keeps,
  save_pair-Keeps, create_intent-Keeps, commit_model_import_intent-Keeps, save_model_import-Keeps,
)
