-- ===== src/Runtime/Residency/Laws.antt =====
-- The registry holds each model's newest engine, and lists each resident model once.
use cyrene_reactor.Prelude.Keys.{string_eq, ◌==◌}
use cyrene_reactor.Prelude.{
  refl, some, ◌+◌, ap, is_some, ◌∙◌, arith, none, if◌then◌else◌, [], ◌≡◌, Option, ◌∷◌, ℕ, List,
  String,
}
use cyrene_reactor.Runtime.Residency.{
  string_eq, ◌==◌, List, String, register_model, unregister_model, get_loaded_model,
  get_loaded_models,
}

pub data Operation (E : Type 0) : Type 0 where
  registers : String → E → Operation E
  unregisters : String → Operation E

abbrev pub occurrences : String → List String → ℕ
occurrences id [] = 0
occurrences id (k ∷ ks) = (if k == id then 1 else 0) + occurrences id ks

module _ {E : Type 0} where
  perform : Operation E → List (String × E) → List (String × E)
  unfolding register_model unregister_model
  perform (registers id engine) registry = register_model id engine registry
  perform (unregisters id) registry = unregister_model id registry

  unfoldable pub run : List (Operation E) → List (String × E) → List (String × E)
  unfolding perform
  run [] registry = registry
  run (o ∷ os) registry = run os (perform o registry)

  -- What one operation makes of the engine of the model `id`.
  abbrev pub engine_after : String → Operation E → Option E → Option E
  engine_after id (registers k engine) before = if k == id then some engine else before
  engine_after id (unregisters k) before = if k == id then none else before

  abbrev pub engine_after_all : String → List (Operation E) → Option E → Option E
  engine_after_all id [] before = before
  engine_after_all id (o ∷ os) before = engine_after_all id os (engine_after id o before)

  abbrev IsDistinct : List (String × E) → Type 0
  IsDistinct [] = Unit
  IsDistinct ((k, e) ∷ rest) = (get_loaded_model k rest ≡ none) × IsDistinct rest

  get-register :
      (id k : String) (engine : E) (registry : List (String × E))
      → get_loaded_model id (register_model k engine registry)
        ≡ (if k == id then some engine else get_loaded_model id registry)
  unfolding register_model get_loaded_model
  get-register id k engine [] = refl
  get-register id k engine ((j, e) ∷ rest) = ground (
    arith,
    get-register id k engine rest,
    string_eq.beq_iff j k,
    string_eq.beq_iff j id,
    string_eq.beq_iff k id,
  )

  IsDistinct-register :
      (k : String) (engine : E) (registry : List (String × E))
      → IsDistinct registry
      → IsDistinct (register_model k engine registry)
  unfolding register_model get_loaded_model
  IsDistinct-register k engine [] d = (refl, tt)
  IsDistinct-register k engine ((j, e) ∷ rest) d = ground (
    arith,
    IsDistinct-register k engine rest d.1,
    get-register j k engine rest,
    string_eq.beq_iff j k,
    string_eq.beq_iff k j,
  )

  get-unregister :
      (id k : String) (registry : List (String × E))
      → IsDistinct registry
      → get_loaded_model id (unregister_model k registry)
        ≡ (if k == id then none else get_loaded_model id registry)
  unfolding unregister_model get_loaded_model
  get-unregister id k [] d = ground arith
  get-unregister id k ((j, e) ∷ rest) d = ground (
    arith,
    get-unregister id k rest d.1,
    string_eq.beq_iff j k,
    string_eq.beq_iff j id,
    string_eq.beq_iff k id,
  )

  IsDistinct-unregister :
      (k : String) (registry : List (String × E))
      → IsDistinct registry
      → IsDistinct (unregister_model k registry)
  unfolding unregister_model get_loaded_model
  IsDistinct-unregister k [] d = tt
  IsDistinct-unregister k ((j, e) ∷ rest) d =
      ground (arith, IsDistinct-unregister k rest d.1, get-unregister j k rest d.1)

  listed_once :
      (id : String) (registry : List (String × E))
      → IsDistinct registry
      → occurrences id (get_loaded_models registry)
        ≡ (if is_some (get_loaded_model id registry) then 1 else 0)
  unfolding get_loaded_model get_loaded_models
  listed_once id [] d = refl
  listed_once id ((j, e) ∷ rest) d = ground (arith, listed_once id rest d.1, string_eq.beq_iff j id)

  run_sound :
      (id : String) (os : List (Operation E)) (registry : List (String × E))
      → IsDistinct registry
      → IsDistinct (run os registry)
        × (get_loaded_model id (run os registry)
            ≡ engine_after_all id os (get_loaded_model id registry))
  unfolding run
  run_sound id [] registry d = (d, refl)
  run_sound id (registers k engine ∷ os) registry d =
      let (distinct, newest) =
        run_sound id os (register_model k engine registry)
          (IsDistinct-register k engine registry d) in
      (distinct, newest ∙ ap (engine_after_all id os) (get-register id k engine registry))
  run_sound id (unregisters k ∷ os) registry d =
      let (distinct, newest) =
        run_sound id os (unregister_model k registry) (IsDistinct-unregister k registry d) in
      (distinct, newest ∙ ap (engine_after_all id os) (get-unregister id k registry d))

  -- After any operations on a new registry, the engine of a model is that of its newest registration,
  -- or none when it was never registered or was unregistered since; and the model is listed once if
  -- it has an engine, and not at all if it has none.
  pub run-resident :
      (id : String) (os : List (Operation E))
      → (get_loaded_model id (run os []) ≡ engine_after_all id os none)
        × (occurrences id (get_loaded_models (run os []))
            ≡ (if is_some (engine_after_all id os none) then 1 else 0))
  unfolding get_loaded_model
  run-resident id os =
      let (distinct, newest) = run_sound id os [] tt in
      (
        newest,
        listed_once id (run os []) distinct
            ∙ ap (λ (o : Option E). if is_some o then 1 else 0) newest,
      )
