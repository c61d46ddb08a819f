-- ===== src/Product/Service/Runs.antt =====
-- Histories of the service: any sequence of its commands, from a new database.
mod Examples
use cyrene_reactor.Product.Service.Diagnostics.{ℤ}
use cyrene_reactor.Product.Store.Timeline.Numbering.{upto}
use cyrene_reactor.Product.Store.Soundness.{IsSound}
use cyrene_reactor.Product.Service.Diagnostics.Soundness.{deployment_diagnostics-Keeps}
use cyrene_reactor.Product.Service.Stopping.Soundness.{stop_deployment-Keeps}
use cyrene_reactor.Product.Exec.Keeps.{Keeps-pure}
use cyrene_reactor.Product.Service.Reading.Soundness.{get_endpoint-Keeps, get_deployment-Keeps}
use cyrene_reactor.Product.Service.Importing.Soundness.{create_model_import-Keeps}
use cyrene_reactor.Product.Service.Creating.Soundness.{
  restart_deployment-Keeps, create_deployment-Keeps,
}
use cyrene_reactor.Prelude.{refl, ◌∷◌, ℕ, List, String, Bool, Option, []}
use cyrene_reactor.Product.Exec.{pure, Exec}
use cyrene_reactor.Product.Domain.{
  NodeRef, CreateModelImportRequest, Diagnostic, CreateDeploymentRequest,
}
use cyrene_reactor.Product.Service.Diagnostics
use cyrene_reactor.Product.Service.Stopping
use cyrene_reactor.Product.Service.Importing
use cyrene_reactor.Product.Service.Creating
use cyrene_reactor.Product.Service.{
  record_deployment_diagnostic, [], Diagnostic, Exec, CreateDeploymentRequest, State, Host,
}
use cyrene_reactor.Product.Service.Soundness.{record_diagnostic-Keeps, HasSoundStore}
use cyrene_reactor.Product.Service.Reading
use cyrene_reactor.Product.Service.Reading.Soundness
use cyrene_reactor.Product.Store.Imports.{Scope}
use cyrene_reactor.Product.Store.{DiagnosticRow, empty}

-- A command of the API; the answers are dropped.
pub data Command : Type 0 where
  create_deployment : CreateDeploymentRequest → Option String → Command
  create_model_import : CreateModelImportRequest → Option String → Scope → Command
  get_deployment get_endpoint stop_deployment : ℕ → Command
  restart_deployment : ℕ → NodeRef → ℕ → Command
  deployment_diagnostics : ℕ → ℤ → ℕ → Command
  write_diagnostic : ℕ → String → String → Option String → Command

abbrev effect : {A : Type 0} → Exec State A → State → State
effect m s = (m s).1

module _ (h : Host) (mentions : Diagnostic → Bool) (page_bytes : List DiagnosticRow → ℕ) where
  pub execute : Command → State → State
  execute (Command.create_deployment command key) =
      effect (Creating.create_deployment h command key)
  execute (Command.create_model_import command key scope) =
      effect (Importing.create_model_import h command key scope)
  execute (Command.get_deployment id) = effect (Reading.get_deployment h (pure tt) id)
  execute (Command.get_endpoint id) = effect (Reading.get_endpoint h (pure tt) id)
  execute (Command.stop_deployment id) = effect (Stopping.stop_deployment h id)
  execute (Command.restart_deployment id node version) =
      effect (Creating.restart_deployment h id node version)
  execute (Command.deployment_diagnostics id after limit) =
      effect (Diagnostics.deployment_diagnostics h mentions page_bytes id after limit)
  execute (Command.write_diagnostic id message level code) =
      effect (record_deployment_diagnostic h id message level code)

  pub execute_all : List Command → State → State
  unfolding execute
  execute_all [] s = s
  execute_all (c ∷ cs) s = execute_all cs (execute c s)

  execute-HasSoundStore : (c : Command) (s : State) → HasSoundStore s → HasSoundStore (execute c s)
  unfolding execute
  execute-HasSoundStore (Command.create_deployment command key) =
      (create_deployment-Keeps h command key).at
  execute-HasSoundStore (Command.create_model_import command key scope) =
      (create_model_import-Keeps h command key scope).at
  execute-HasSoundStore (Command.get_deployment id) =
      (get_deployment-Keeps h (pure tt) (Keeps-pure tt) id).at
  execute-HasSoundStore (Command.get_endpoint id) =
      (get_endpoint-Keeps h (pure tt) (Keeps-pure tt) id).at
  execute-HasSoundStore (Command.stop_deployment id) = (stop_deployment-Keeps h id).at
  execute-HasSoundStore (Command.restart_deployment id node version) =
      (restart_deployment-Keeps h id node version).at
  execute-HasSoundStore (Command.deployment_diagnostics id after limit) =
      (deployment_diagnostics-Keeps h mentions page_bytes id after limit).at
  execute-HasSoundStore (Command.write_diagnostic id message level code) =
      (record_diagnostic-Keeps h id message level code).at

  execute_all-keeps :
      (cs : List Command) (s : State) → HasSoundStore s → HasSoundStore (execute_all cs s)
  unfolding execute_all
  execute_all-keeps [] s v = v
  execute_all-keeps (c ∷ cs) s v = execute_all-keeps cs (execute c s) (execute-HasSoundStore c s v)

abbrev pub new_state : State
new_state = record { store = empty; calls = []; clock = 0; drawn = 0 }

-- Whatever the commands, the serving engines and the activity broker do, and whichever commands
-- fail half way, the store of a service that started on a new database numbers each deployment's
-- events and diagnostics 1, 2, … without a gap, and has at most one endpoint to a deployment.
pub execute_all-IsSound :
    (h : Host) (mentions : Diagnostic → Bool) (page_bytes : List DiagnosticRow → ℕ)
    (cs : List Command)
    → IsSound (execute_all h mentions page_bytes cs new_state).store
unfolding upto
execute_all-IsSound h mentions page_bytes cs =
    execute_all-keeps h mentions page_bytes cs new_state (record {
      timeline = record { events = λ id. refl; diagnostics = λ id. refl; places = λ id. refl };
      endpoints = record { by_id = tt; by_owner = tt };
    })
