-- ===== src/Runtime/AlertManager/Examples.antt =====
-- The alert theorems at concrete inputs.
use cyrene_reactor.Runtime.AlertManager.History.{Call, observed, IsTidy, run, run-create-IsTidy}
use cyrene_reactor.Runtime.AlertManager.Excursions.{
  observe_all, observe_signal, crossings, observe_all-crossings,
}
use cyrene_reactor.Prelude.{ℕ, ◌≡◌, refl, List, [], ◌∷◌, some, none, true, false}
use cyrene_reactor.Runtime.AlertManager.{
  Manager, all_clear, queue_depth, latency_high, check_queue_depth, check, publish, create,
}

abbrev manager : Manager
manager = record {
  queue_threshold = 100;
  memory_threshold = 90;
  latency_threshold = 5000;
  alert_states = all_clear;
  alert_history = [];
  callbacks = [];
}

abbrev depths : List (ℕ × ℕ)
depths = (50, 1) ∷ (150, 2) ∷ (160, 3) ∷ (100, 4) ∷ []

depths_cross : observe_all manager queue_depth depths ≡ none ∷ some false ∷ none ∷ some true ∷ []
unfolding observe_all observe_signal check_queue_depth check publish
depths_cross = refl

observe_all-crossings_example :
    observe_all manager queue_depth depths ≡ crossings false 100 (50 ∷ 150 ∷ 160 ∷ 100 ∷ [])
observe_all-crossings_example = observe_all-crossings manager queue_depth depths

abbrev calls : List Call
calls =
    observed (record { signal = queue_depth; value = 150; now = 1 })
    ∷ observed (record { signal = latency_high; value = 6000; now = 2 })
    ∷ observed (record { signal = queue_depth; value = 10; now = 3 })
    ∷ []

run-create-IsTidy_example : IsTidy (run (create 100 90 5000) calls)
run-create-IsTidy_example = run-create-IsTidy 100 90 5000 calls
