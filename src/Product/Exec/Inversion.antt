-- ===== src/Product/Exec/Inversion.antt =====
-- What an action that ended well went through.
use cyrene_reactor.Product.Errors.{Raised}
use cyrene_reactor.Prelude.{refl, ap, ◌≡◌}
use cyrene_reactor.Product.Exec.{
  raise, Raised, lift, gets, pure, Exec, Result, ok, err, continue, ◌>>=◌,
}

module _ {S A B : Type 0} where
  continue-ok :
      (p : Result A × S) (f : A → Exec S B) (b : B) (s' : S)
      → continue p.0 f p.1 ≡ (ok b, s')
      → (a : A) × (s₁ : S) × (p ≡ (ok a, s₁)) × (f a s₁ ≡ (ok b, s'))
  continue-ok (ok a, s₁) f b s' e = (a, s₁, refl, e)
  continue-ok (err x, s₁) f b s' e = let no : err x ≡ ok b = ap (λ (q : Result B × S). q.0) e in cc

  pub bind-ok :
      (m : Exec S A) (f : A → Exec S B) (s : S) (b : B) (s' : S)
      → (m >>= f) s ≡ (ok b, s')
      → (a : A) × (s₁ : S) × (m s ≡ (ok a, s₁)) × (f a s₁ ≡ (ok b, s'))
  unfolding ◌>>=◌
  bind-ok m f s b s' e = continue-ok (m s) f b s' e

module _ {S A : Type 0} where
  pub pure-ok : (a : A) (s : S) (b : A) (s' : S) → pure a s ≡ (ok b, s') → (a ≡ b) × (s ≡ s')
  unfolding ◌>>=◌
  pure-ok a s b s' e =
      let answer : ok a ≡ ok b = ap (λ (p : Result A × S). p.0) e in
      (cc, ap (λ (p : Result A × S). p.1) e)

  -- A refusal that is read off the state does not change it.
  pub lift-ok :
      {B : Type 0} (f : S → B) (g : B → Result A) (s : S) (a : A) (s' : S)
      → (gets f >>= λ b. lift (g b)) s ≡ (ok a, s')
      → s ≡ s'
  unfolding ◌>>=◌
  lift-ok f g s a s' e = ap (λ (p : Result A × S). p.1) e

  pub raise-fails : (x : Raised) (s : S) (a : A) (s' : S) → ¬ (raise x s ≡ (ok a, s'))
  unfolding ◌>>=◌
  raise-fails x s a s' e = let no : err x ≡ ok a = ap (λ (p : Result A × S). p.0) e in cc
