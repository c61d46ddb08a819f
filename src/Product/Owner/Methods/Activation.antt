-- ===== src/Product/Owner/Methods/Activation.antt =====
-- `activate`: when it runs the client, and what it leaves when it returns.
use mathlib.Core.Path.{subst}
use cyrene_reactor.Product.Store.Operations.Orderly.{IsOrderly}
use cyrene_reactor.Product.Store.Operations.{
  pending_package_runtime_operation, package_runtime_operation,
}
use cyrene_reactor.Product.Owner.{
  StatusAnswer, OperationPhase, require, pending_package_runtime_operation,
  package_runtime_operation, Clock, ActivationCall, Script,
}
use cyrene_reactor.Prelude.{
  refl, some, inl, inr, Option-cases, ◌||◌, is_some, ◌≡◌, false, ℕ, true, String, Bool,
}
use cyrene_reactor.Product.Store.{OperationPhase, Operation, Store}
use cyrene_reactor.Product.Exec.{◌>>◌, Exec, ok, ◌>>=◌, Result}
use cyrene_reactor.Product.Owner.Methods.{
  status, run_activation, Operation, Script, Bool, Store, activate_valid, Result, activate, Owner,
  Platform,
}
use cyrene_reactor.Product.Exec.Inversion.{bind-ok, raise-fails}
use cyrene_reactor.Product.Owner.Methods.Outcome.{
  run-completed, status-IsDone, again-IsDone, IsDone,
}

module _ (platform : Platform) (owner : Owner) where
  -- The refusals of an ill-formed request do not look at the rest.
  required :
      {A : Type 0} (first second : Bool) (code code' : String) (n n' : ℕ) (m m' : Exec Store A)
      (s : Store)
      → m s ≡ m' s
      → (require first code n >> require second code' n' >> m) s
        ≡ (require first code n >> require second code' n' >> m') s
  unfolding ◌>>=◌
  required false second code code' n n' m m' s same = refl
  required true false code code' n n' m m' s same = refl
  required true true code code' n n' m m' s same = same

  valid-asks_once :
      (request installation : String) (client other : Script ActivationCall) (clock : Clock)
      (s : Store)
      → (is_some (package_runtime_operation s request)
          || is_some (pending_package_runtime_operation s owner.binding_id))
        ≡ true
      → activate_valid platform owner request installation client clock s
        ≡ activate_valid platform owner request installation other clock s
  unfolding activate_valid ◌>>=◌
  valid-asks_once request installation client other clock s known =
      elim (Option-cases (package_runtime_operation s request)) [
        | inr (r, e) ↦ rw e refl
        | inl e ↦ elim (Option-cases (pending_package_runtime_operation s owner.binding_id)) [
          | inr (p, e') ↦ rw (e, e') refl
          | inl e' ↦ let no : false ≡ true = rw (e, e') at known in cc
        ]
      ]

  -- A request that the store knows, or whose binding has a pending operation, never reaches the
  -- client: the outcome is the same whatever the client would do.
  pub activate-asks_once :
      (request installation : String) (client other : Script ActivationCall) (clock : Clock)
      (s : Store)
      → (is_some (package_runtime_operation s request)
          || is_some (pending_package_runtime_operation s owner.binding_id))
        ≡ true
      → activate platform owner request installation client clock s
        ≡ activate platform owner request installation other clock s
  unfolding activate
  activate-asks_once request installation client other clock s known =
      required _ _ _ _ _ _ (activate_valid platform owner request installation client clock)
        (activate_valid platform owner request installation other clock) s
        (valid-asks_once request installation client other clock s known)

  valid-IsDone :
      (request installation : String) (client : Script ActivationCall) (clock : Clock) (s : Store)
      (answer : StatusAnswer) (s' : Store)
      → IsOrderly s.operations
      → activate_valid platform owner request installation client clock s ≡ (ok answer, s')
      → IsDone request s'
  unfolding activate_valid ◌>>=◌
  valid-IsDone request installation client clock s answer s' o h =
      elim (Option-cases (package_runtime_operation s request)) [
        | inr (r, e) ↦
            again-IsDone platform owner request installation r clock.recovered_at s answer s' o e
              (rw (e, activate_valid) at h)
        | inl e ↦ elim (Option-cases (pending_package_runtime_operation s owner.binding_id)) [
          | inr (p, e') ↦ absurd (raise-fails _ s answer s' (rw (e, e', activate_valid) at h))
          | inl e' ↦
              let (u, s₁, ran, read) =
                bind-ok (run_activation platform owner request installation client clock)
                  (λ d. status platform owner clock.read_at) s answer s'
                  (rw (e, e', activate_valid) at h) in
              subst (λ (p : Result StatusAnswer × Store). IsDone request p.1) read
                (status-IsDone platform owner request clock.read_at s₁
                  (run-completed platform owner request installation client clock s u s₁ o ran))
        ]
      ]

  required-ok :
      {A : Type 0} (first second : Bool) (code code' : String) (n n' : ℕ) (m : Exec Store A)
      (s : Store) (a : A) (s' : Store)
      → (require first code n >> require second code' n' >> m) s ≡ (ok a, s')
      → m s ≡ (ok a, s')
  unfolding ◌>>=◌
  required-ok false second code code' n n' m s a s' h = absurd (raise-fails _ s a s' h)
  required-ok true false code code' n n' m s a s' h = absurd (raise-fails _ s a s' h)
  required-ok true true code code' n n' m s a s' h = h

  -- On an orderly store, `activate` returns only when the operation of its request is completed, with
  -- its receipt: whatever the client did, and also for a request that was known before.
  pub activate-IsDone :
      (request installation : String) (client : Script ActivationCall) (clock : Clock) (s : Store)
      (answer : StatusAnswer) (s' : Store)
      → IsOrderly s.operations
      → activate platform owner request installation client clock s ≡ (ok answer, s')
      → (r : Operation) × (package_runtime_operation s' request ≡ some r)
        × (is_some r.receipt ≡ true)
        × (r.phase ≡ OperationPhase.completed)
  unfolding activate
  activate-IsDone request installation client clock s answer s' o h =
      valid-IsDone request installation client clock s answer s' o (
        required-ok _ _ _ _ _ _ (activate_valid platform owner request installation client clock) s
          answer s' h)
