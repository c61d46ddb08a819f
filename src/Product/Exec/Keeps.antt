-- ===== src/Product/Exec/Keeps.antt =====
-- Invariants of actions, one rule for each way to build an action.
use cyrene_reactor.Prelude.{◌≡◌, refl, Bool, true, false, Option, none, some, if◌then◌else◌}
use cyrene_reactor.Product.Errors.{Raised}
use cyrene_reactor.Product.Exec.{
  Exec, Result, ok, err, pure, raise, lift, gets, modify, continue, roll_back, transaction, ◌>>=◌,
}

pub record Keeps {S A : Type 0} (P : S → Type 0) (m : Exec S A) : Type 0 where
  pub at : (s : S) → P s → P (m s).1

roll_back-keeps :
    {S A : Type 0} (P : S → Type 0) (s : S) (r : Result A × S) → P s → P r.1 → P (roll_back s r).1
roll_back-keeps P s (ok a, s') h h' = h'
roll_back-keeps P s (err e, s') h h' = h

module _ {S A : Type 0} {P : S → Type 0} where
  -- An action that writes nothing keeps everything.
  pub Keeps-unchanged : (action : Exec S A) → ((s : S) → (action s).1 ≡ s) → Keeps P action
  Keeps-unchanged action same = record { at = λ s held. rw (same s) held }

  pub Keeps-option :
      {X : Type 0} (o : Option X) (m : Exec S A) (f : X → Exec S A)
      → Keeps P m
      → ((x : X) → Keeps P (f x))
      → Keeps P (elim o [ none ↦ m | some x ↦ f x ])
  Keeps-option none m f km kf = km
  Keeps-option (some x) m f km kf = kf x

  pub Keeps-transaction : (m : Exec S A) → Keeps P m → Keeps P (transaction m)
  unfolding transaction
  Keeps-transaction m k = record { at = λ s h. roll_back-keeps P s (m s) h (k.at s h) }

module _ {S A : Type 0} {P : S → Type 0} where
  pub Keeps-if :
      (test : Bool) (yes_action no_action : Exec S A)
      → Keeps P yes_action
      → Keeps P no_action
      → Keeps P (if test then yes_action else no_action)
  Keeps-if false yes_action no_action ky kn = kn
  Keeps-if true yes_action no_action ky kn = ky

  pub Keeps-gets : (read : S → A) → Keeps P (gets read)
  unfolding gets
  Keeps-gets read = Keeps-unchanged (gets read) (λ s. refl)

  pub Keeps-lift : (result : Result A) → Keeps P (lift result)
  unfolding lift
  Keeps-lift result = Keeps-unchanged (lift result) (λ s. refl)

  pub Keeps-raise : (error : Raised) → Keeps P (raise {A = A} error)
  unfolding raise
  Keeps-raise error = Keeps-unchanged (raise error) (λ s. refl)

  pub Keeps-pure : (value : A) → Keeps P (pure value)
  unfolding pure
  Keeps-pure value = Keeps-unchanged (pure value) (λ s. refl)

module _ {S : Type 0} {P : S → Type 0} where
  pub Keeps-modify : (f : S → S) → ((s : S) → P s → P (f s)) → Keeps P (modify f)
  unfolding modify
  Keeps-modify f k = record { at = k }

module _ {S A B : Type 0} {P : S → Type 0} where
  continue-keeps :
      (r : Result A) (f : A → Exec S B) (s : S)
      → ((a : A) → Keeps P (f a))
      → P s
      → P (continue r f s).1
  continue-keeps (ok a) f s kf h = (kf a).at s h
  continue-keeps (err e) f s kf h = h

  pub Keeps-bind :
      (first : Exec S A) (next : A → Exec S B)
      → Keeps P first
      → ((a : A) → Keeps P (next a))
      → Keeps P (first >>= next)
  unfolding ◌>>=◌
  Keeps-bind first next kept kept_next = record {
    at = λ s held. continue-keeps (first s).0 next (first s).1 kept_next (kept.at s held);
  }

pub ruleset keeps_rules = (
  Keeps-pure, Keeps-raise, Keeps-lift, Keeps-gets, Keeps-if, Keeps-option, Keeps-transaction,
  Keeps-bind,
)
