-- ===== src/Prelude/Table.antt =====
-- A table with a primary key as a list of rows in `rowid` order: sqlite gives a new row the next
-- `rowid`, and `INSERT OR REPLACE` deletes the old row before it inserts the new one.
use cyrene_reactor.Prelude.Keys.{Eq, ◌==◌, beq_refl}
use cyrene_reactor.Prelude.Tests.{if◌then◌else◌}
use mathlib.Core.Path.{◌≡◌, refl}
use mathlib.Core.Option.{Option, none, some}
use mathlib.Core.List.{List, [], ◌∷◌, ◌++◌}
use native.Mathlib.Omega.{arith}

module _ {K R : Type 0} ⦃e : Eq K⦄ (key : R → K) where
  -- SELECT ... WHERE id = ?
  unfoldable pub get : K → List R → Option R
  get k [] = none
  get k (r ∷ rs) = if key r == k then some r else get k rs

  -- DELETE ... WHERE id = ?
  unfoldable pub remove : K → List R → List R
  remove k [] = []
  remove k (r ∷ rs) = let rest = remove k rs in if key r == k then rest else r ∷ rest

  -- INSERT OR REPLACE
  unfoldable pub replace : R → List R → List R
  replace r rs = remove (key r) rs ++ r ∷ []

  pub get-remove :
      (k j : K) (rs : List R) → get j (remove k rs) ≡ (if k == j then none else get j rs)
  unfolding get remove
  get-remove k j [] = ground arith
  get-remove k j (r ∷ rs) =
      ground (arith, get-remove k j rs, e.beq_iff (key r) k, e.beq_iff (key r) j, e.beq_iff k j)

  pub get-append :
      (k : K) (rs : List R) (r : R)
      → get k (rs ++ r ∷ [])
        ≡ elim (get k rs) [ some x ↦ some x | none ↦ if key r == k then some r else none ]
  unfolding get
  get-append k [] r = refl
  get-append k (x ∷ rs) r = ground (arith, get-append k rs r)

  -- A replaced row is read back under its key, and the other keys read as before.
  pub get-replace :
      (k : K) (r : R) (rs : List R)
      → get k (replace r rs) ≡ (if key r == k then some r else get k rs)
  unfolding replace
  get-replace k r rs = ground (arith, get-append k (remove (key r) rs) r, get-remove (key r) k rs)

  -- The primary key: no two rows share it.
  abbrev pub IsKeyed : List R → Type 0
  IsKeyed [] = Unit
  IsKeyed (r ∷ rs) = (get (key r) rs ≡ none) × IsKeyed rs

  pub IsKeyed-remove : (k : K) (rs : List R) → IsKeyed rs → IsKeyed (remove k rs)
  unfolding remove
  IsKeyed-remove k [] h = tt
  IsKeyed-remove k (r ∷ rs) h = ground (arith, IsKeyed-remove k rs h.1, get-remove k (key r) rs)

  pub IsKeyed-append :
      (rs : List R) (r : R) → IsKeyed rs → get (key r) rs ≡ none → IsKeyed (rs ++ r ∷ [])
  unfolding get
  IsKeyed-append [] r h n = (refl, tt)
  IsKeyed-append (x ∷ rs) r h n = (
    ground (arith, get-append (key x) rs r, e.beq_iff (key x) (key r), e.beq_iff (key r) (key x)),
    IsKeyed-append rs r h.1 (ground arith),
  )

  pub IsKeyed-replace : (r : R) (rs : List R) → IsKeyed rs → IsKeyed (replace r rs)
  unfolding replace
  IsKeyed-replace r rs h =
      IsKeyed-append (remove (key r) rs) r (IsKeyed-remove (key r) rs h)
        (ground (arith, get-remove (key r) (key r) rs, beq_refl (key r)))

  -- A row with a new key is added at the end.
  pub remove_missing : (k : K) (rs : List R) → get k rs ≡ none → remove k rs ≡ rs
  unfolding get remove
  remove_missing k [] h = refl
  remove_missing k (r ∷ rs) h = ground (arith, remove_missing k rs)

  pub replace_missing : (r : R) (rs : List R) → get (key r) rs ≡ none → replace r rs ≡ rs ++ r ∷ []
  unfolding replace
  replace_missing r rs h = rw (remove_missing (key r) rs h)
