-- ===== src/Runtime/Residency/Examples.antt =====
-- A registry in which one model was replaced and another one unloaded.
use cyrene_reactor.Prelude.Keys.{nat_eq, ◌==◌}
use cyrene_reactor.Prelude.{is_some, true, if◌then◌else◌, none, ◌≡◌, ◌∷◌, ℕ, [], List, refl}
use cyrene_reactor.Runtime.Residency.{
  complete, broken_total, ◌==◌, ◌∷◌, ℕ, [], List, get_loaded_model, get_loaded_models,
  memory_observation, Usage,
}
use cyrene_reactor.Runtime.Residency.Laws.{
  Operation, registers, unregisters, run, engine_after_all, occurrences, run-resident,
}

abbrev operations : List (Operation ℕ)
operations = registers "a" 1 ∷ registers "b" 2 ∷ registers "a" 3 ∷ unregisters "b" ∷ []

run-resident_example :
    (get_loaded_model "a" (run operations []) ≡ engine_after_all "a" operations none)
    × (occurrences "a" (get_loaded_models (run operations []))
        ≡ (if is_some (engine_after_all "a" operations none) then 1 else 0))
run-resident_example = run-resident "a" operations

-- Engine 3 does not count as reporting, but its allocated size is added.
abbrev usage : ℕ → Usage
usage n = if n == 3 then broken_total 5 else complete n 10

observed :
    memory_observation usage (("a", 3) ∷ ("b", 2) ∷ [])
    ≡ record { available = true; allocated = 7; total = 10; reporting_engines = 1 }
unfolding memory_observation
observed = refl
