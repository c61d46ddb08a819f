-- ===== src/Runtime/Residency.antt =====
-- runtime/core/src/cy_exec/core/memory_manager.py, class `ModelResidencyRegistry`.
--
-- `_engines` is the dict's entries in their order. What `get_memory_usage` of an engine reports is a
-- parameter; sizes are numbers in one fixed unit. Each method holds the lock.
pub mod Laws
mod Examples
use cyrene_reactor.Prelude.Keys.{string_eq, ◌==◌}
use cyrene_reactor.Prelude.{
  ◌+◌, true, [], if◌then◌else◌, false, some, none, ◌∷◌, Option, Bool, ℕ, List, String,
}

module _ {E : Type 0} where
  -- `self._engines[model_id] = engine`
  unfoldable pub register_model : String → E → List (String × E) → List (String × E)
  register_model id engine [] = (id, engine) ∷ []
  register_model id engine ((k, e) ∷ rest) =
      let after = register_model id engine rest in
      if k == id then (k, engine) ∷ rest else (k, e) ∷ after

  -- `self._engines.pop(model_id, None)`
  unfoldable pub unregister_model : String → List (String × E) → List (String × E)
  unregister_model id [] = []
  unregister_model id ((k, e) ∷ rest) =
      let after = unregister_model id rest in if k == id then rest else (k, e) ∷ after

  unfoldable pub get_loaded_model : String → List (String × E) → Option E
  get_loaded_model id [] = none
  get_loaded_model id ((k, e) ∷ rest) = if k == id then some e else get_loaded_model id rest

  unfoldable pub get_loaded_models : List (String × E) → List String
  get_loaded_models [] = []
  get_loaded_models ((k, e) ∷ rest) = k ∷ get_loaded_models rest

-- A report of an engine: with both sizes; with a `total_gb` that cannot be read, after `allocated_gb`
-- was; or none, where the method or the first size raises.
pub data Usage : Type 0 where
  complete : ℕ → ℕ → Usage
  broken_total : ℕ → Usage
  no_usage : Usage

pub record Observation : Type 0 where
  pub available : Bool
  pub allocated : ℕ
  pub total : ℕ
  pub reporting_engines : ℕ

-- `allocated_gb` is added before `total_gb` is read.
abbrev add_usage : Usage → Observation → Observation
add_usage no_usage o = o
add_usage (broken_total allocated) o = record o { allocated = o.allocated + allocated }
add_usage (complete allocated total) o = record {
  available = true;
  allocated = o.allocated + allocated;
  total = o.total + total;
  reporting_engines = o.reporting_engines + 1;
}

module _ {E : Type 0} (get_memory_usage : E → Usage) where
  observe : List (String × E) → Observation → Observation
  observe [] o = o
  observe ((k, e) ∷ rest) o = observe rest (add_usage (get_memory_usage e) o)

  unfoldable pub memory_observation : List (String × E) → Observation
  unfolding observe
  memory_observation registry =
      observe registry
        (record { available = false; allocated = 0; total = 0; reporting_engines = 0 })
