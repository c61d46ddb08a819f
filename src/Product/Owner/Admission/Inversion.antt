-- ===== src/Product/Owner/Admission/Inversion.antt =====
-- What a check of `package_runtime_engine` that passed has shown.
use cyrene_reactor.Prelude.Keys.{nat_eq}
use cyrene_reactor.Prelude.{refl, none, false, some, true, ◌≡◌, String, Option, Bool, List, ◌∷◌, ap}
use cyrene_reactor.Product.Exec.{Result, ok, err, continue, ◌>>=◌}
use cyrene_reactor.Product.Owner.Admission.{
  Call, Asking, consult, check, ◌then◌, raised, no_mapping, String, Option, Bool, Result, Reading,
  read, needs, or_blocked, reading,
}

pub bind-ok :
    {A B : Type 0} (m : Result A) (f : A → Result B) (b : B)
    → (m then f) ≡ ok b
    → (a : A) × (m ≡ ok a) × (f a ≡ ok b)
bind-ok (ok a) f b h = (a, refl, h)
bind-ok (err e) f b h = cc

pub ok_injective : {A : Type 0} (a b : A) → ok a ≡ ok b → a ≡ b
ok_injective a b h = cc

pub needs-ok : (test : Bool) (code : String) (u : Unit {0}) → needs test code ≡ ok u → test ≡ true
needs-ok true code u h = refl
needs-ok false code u h = cc

pub or_blocked-ok :
    {A : Type 0} (o : Option A) (code : String) (a : A) → or_blocked o code ≡ ok a → o ≡ some a
or_blocked-ok none code a h = cc
or_blocked-ok (some x) code a h = cc

pub reading-ok :
    {A : Type 0} (r : Reading A) (malformed unavailable : String) (a : A)
    → reading r malformed unavailable ≡ ok a
    → r ≡ read a
reading-ok (read x) malformed unavailable a h = cc
reading-ok no_mapping malformed unavailable a h = cc
reading-ok raised malformed unavailable a h = cc

continue-elim :
    {A B C : Type 0} (r : Result A) (next : A → Asking B) (calls : List Call) (b : B)
    (calls' : List Call)
    → continue r next calls ≡ (ok b, calls')
    → ((a : A) → r ≡ ok a → next a calls ≡ (ok b, calls') → C)
    → C
continue-elim (ok a) next calls b calls' h go = go a refl h
continue-elim {B = B} (err e) next calls b calls' h go =
    let no : err e ≡ ok b = ap (λ (p : Result B × List Call). p.0) h in absurd cc

-- A call that went well, and what is left behind it.
pub consult-elim :
    {A B C : Type 0} (call : Call) (checked : List Call → Result A) (next : A → Asking B)
    (calls : List Call) (b : B) (calls' : List Call)
    → (consult call checked >>= next) calls ≡ (ok b, calls')
    → ((a : A) → checked calls ≡ ok a → next a (call ∷ calls) ≡ (ok b, calls') → C)
    → C
unfolding ◌>>=◌
consult-elim call checked next calls b calls' h go =
    continue-elim (checked calls) next (call ∷ calls) b calls' h go

pub check-elim :
    {A B C : Type 0} (result : Result A) (next : A → Asking B) (calls : List Call) (b : B)
    (calls' : List Call)
    → (check result >>= next) calls ≡ (ok b, calls')
    → ((a : A) → result ≡ ok a → next a calls ≡ (ok b, calls') → C)
    → C
unfolding ◌>>=◌
check-elim result next calls b calls' h go = continue-elim result next calls b calls' h go
