-- ===== src/Product/Exec.antt =====
-- Methods that change an object and may raise: what was written before a raise stays written, so
-- the state comes back beside the error too. `Keeps P m` says that `m` keeps `P` either way.
pub mod Keeps
pub mod Inversion
use cyrene_reactor.Prelude.{Option, none, some}
use cyrene_reactor.Product.Errors.{Raised}

pub data Result (A : Type 0) : Type 0 where
  ok : A → Result A
  err : Raised → Result A

abbrev pub Exec : Type 0 → Type 0 → Type 0
Exec S A = S → Result A × S

-- A write, which returns nothing.
pub modify : {S : Type 0} → (S → S) → Exec S (Unit {0})
modify change s = (ok tt, change s)

module _ {S A : Type 0} where
  pub gets : (S → A) → Exec S A
  gets read s = (ok (read s), s)

  pub lift : Result A → Exec S A
  lift result s = (result, s)

  pub raise : Raised → Exec S A
  raise error s = (err error, s)

  pub pure : A → Exec S A
  pure value s = (ok value, s)

module _ {S A B : Type 0} where
  abbrev pub continue : Result A → (A → Exec S B) → Exec S B
  continue (ok a) f s = f a s
  continue (err e) f s = (err e, s)

  infixl 10 ◌>>=◌ ◌>>◌
  -- Opening this opens the actions above too.
  unfoldable pub ◌>>=◌ : Exec S A → (A → Exec S B) → Exec S B
  unfolding modify gets lift raise pure
  ◌>>=◌ first next s = continue (first s).0 next (first s).1

  abbrev pub ◌>>◌ : Exec S A → Exec S B → Exec S B
  m >> n = m >>= λ _. n

module _ {S A : Type 0} where
  abbrev pub roll_back : S → Result A × S → Result A × S
  roll_back s (ok a, s') = (ok a, s')
  roll_back s (err e, s') = (err e, s)

  -- `with self._connection:` commits, or rolls back when the block raises.
  unfoldable pub transaction : Exec S A → Exec S A
  transaction m s = roll_back s (m s)
