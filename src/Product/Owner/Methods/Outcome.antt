-- ===== src/Product/Owner/Methods/Outcome.antt =====
-- What the parts of `activate` leave when they return: the completed operation and its receipt.
use mathlib.Core.Path.{subst}
use cyrene_reactor.Product.Store.Operations.Orderly.{get-settled, is_settled, KeepsOrder, IsOrderly}
use cyrene_reactor.Product.Errors.{Raised}
use cyrene_reactor.Product.Store.Operations.{
  complete_package_runtime_operation, package_runtime_operation,
}
use cyrene_reactor.Product.Owner.{
  StatusAnswer, complete_package_runtime_operation, run_script, OperationPhase, Raised,
  package_runtime_operation, is_completed, Clock, ActivationCall, Script,
}
use cyrene_reactor.Prelude.{
  ◌∙◌, refl, some, sym, ap, Bool-cases, inl, inr, arith, is_some, ◌≡◌, false, ℕ, true, String, Bool,
}
use cyrene_reactor.Product.Store.{OperationPhase, Operation, Store}
use cyrene_reactor.Product.Exec.{raise, continue, ◌>>◌, Exec, err, ok, ◌>>=◌, Result}
use cyrene_reactor.Product.Owner.Methods.{
  status, activation_callback, is_owner_failure, except, handled, reported, run_activation,
  activation_failed, Operation, Script, Bool, check_scope, Store, activate_again, Result, Owner,
  Platform,
}
use cyrene_reactor.Product.Exec.Inversion.{bind-ok}
use cyrene_reactor.Product.Store.Operations.Completion.{complete-ok}
use cyrene_reactor.Product.Store.Operations.Lifecycle.{Kept, mark-Kept}
use cyrene_reactor.Product.Owner.Methods.Keeping.{run_script-KeepsOrder}
use cyrene_reactor.Product.Owner.Methods.Soundness.{status-Keeps, activation_callback-KeepsOrder}

abbrev is_ok : {A : Type 0} → Result A × Store → Bool
is_ok (ok a, s) = true
is_ok (err e, s) = false

continue-raises :
    {A : Type 0} (r : Result A) (error : A → Raised) (s : Store)
    → is_ok (continue r (λ a. raise {A = Unit {0}} (error a)) s) ≡ false
unfolding ◌>>=◌
continue-raises (ok a) error s = refl
continue-raises (err e) error s = refl

except-ok :
    {A : Type 0} (p : Result A × Store) (handler : Raised → Exec Store A) (a : A) (s' : Store)
    → ((e : Raised) (s : Store) → is_ok (handler e s) ≡ false)
    → handled handler p ≡ (ok a, s')
    → p ≡ (ok a, s')
except-ok (ok x, s) handler a s' raises h = h
except-ok {A} (err e, s) handler a s' raises h =
    let fine : is_ok (handler e s) ≡ true = ap is_ok h in
    let no : false ≡ true = sym (raises e s) ∙ fine in cc

IsOrderly-after :
    {A : Type 0} (m : Exec Store A)
    → KeepsOrder m
    → (s : Store) (a : A) (s' : Store) → IsOrderly s.operations
    → m s ≡ (ok a, s')
    → IsOrderly s'.operations
IsOrderly-after {A} m kept s a s' o h =
    subst (λ (p : Result A × Store). IsOrderly p.1.operations) h (kept.at s o)

abbrev pub IsDone : String → Store → Type 0
IsDone request s =
    (r : Operation) × (package_runtime_operation s request ≡ some r)
    × (is_some r.receipt ≡ true)
    × (r.phase ≡ OperationPhase.completed)

is_completed-phase :
    (phase : OperationPhase) → is_completed phase ≡ true → phase ≡ OperationPhase.completed
is_completed-phase OperationPhase.completed h = refl
is_completed-phase OperationPhase.intent h = cc
is_completed-phase OperationPhase.unknown h = cc
is_completed-phase OperationPhase.receipt_pending h = cc

settled-receipt :
    (r : Operation)
    → r.phase ≡ OperationPhase.completed
    → is_settled r ≡ true
    → is_some r.receipt ≡ true
settled-receipt r completed settled = ground (arith, completed, settled)

module _ (platform : Platform) (owner : Owner) where
  again-completed :
      (request installation : String) (r : Operation) (now : ℕ) (s : Store)
      → is_ok (activate_again platform owner request installation r now s) ≡ true
      → (is_completed r.phase ≡ true)
        × ((activate_again platform owner request installation r now s).1 ≡ s)
  unfolding activate_again check_scope ◌>>=◌
  again-completed request installation r now s fine = ground (arith, fine)

  -- The handler always raises.
  failed-raises :
      (request installation : String) (now : ℕ) (e : Raised) (s : Store)
      → is_ok (activation_failed platform owner request installation now e s) ≡ false
  unfolding activation_failed reported ◌>>=◌
  failed-raises request installation now e s = elim (Bool-cases (is_owner_failure e)) [
    | inl own ↦ rw own refl
    | inr other ↦ rw other (continue-raises _ _ _)
  ]

  pub run-completed :
      (request installation : String) (client : Script ActivationCall) (clock : Clock) (s : Store)
      (u : Unit {0}) (s' : Store)
      → IsOrderly s.operations
      → run_activation platform owner request installation client clock s ≡ (ok u, s')
      → (r : Operation) × (package_runtime_operation s' request ≡ some r)
        × (is_some r.receipt ≡ true)
        × (r.phase ≡ OperationPhase.completed)
  unfolding run_activation except
  run-completed request installation client clock s u s' o h =
      let body = run_script (activation_callback platform owner request installation) client in
      let ran =
        except-ok ((body >> complete_package_runtime_operation request clock.completed_at) s) _ u s'
          (failed-raises request installation clock.recovered_at) h in
      let (v, s₁, script, done) =
        bind-ok body (λ d. complete_package_runtime_operation request clock.completed_at) s u s'
          ran in
      let (r, found, receipt, after) =
        complete-ok request clock.completed_at s₁ u s'
          (IsOrderly-after body
            (run_script-KeepsOrder _
              (activation_callback-KeepsOrder platform owner request installation) client)
            s v s₁ o script)
          done in
      (
        record r { phase = OperationPhase.completed; updated_at = clock.completed_at },
        after,
        receipt,
        refl,
      )

  pub status-IsDone :
      (request : String) (now : ℕ) (s : Store)
      → IsDone request s
      → IsDone request (status platform owner now s).1
  unfolding package_runtime_operation
  status-IsDone request now s (r, found, receipt, completed) =
      let kept =
        status-Keeps {P = Kept request r completed}
          (λ other at. record { at = mark-Kept request r completed other at }) platform owner now in
      (r, kept.at s found, receipt, completed)

  pub again-IsDone :
      (request installation : String) (r : Operation) (now : ℕ) (s : Store) (answer : StatusAnswer)
      (s' : Store)
      → IsOrderly s.operations
      → package_runtime_operation s request ≡ some r
      → activate_again platform owner request installation r now s ≡ (ok answer, s')
      → IsDone request s'
  unfolding package_runtime_operation
  again-IsDone request installation r now s answer s' o found h =
      let (done, same) = again-completed request installation r now s (ap is_ok h) in
      let completed = is_completed-phase r.phase done in
      let here : s ≡ s' = sym same ∙ ap (λ (p : Result StatusAnswer × Store). p.1) h in
      subst (IsDone request) here (
        r,
        found,
        settled-receipt r completed (get-settled request s.operations r o found),
        completed,
      )
