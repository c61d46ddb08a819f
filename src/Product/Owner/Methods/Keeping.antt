-- ===== src/Product/Owner/Methods/Keeping.antt =====
-- A rule for each construct of the owner's methods: what keeps the operations orderly.
use cyrene_reactor.Product.Owner.{finishes, throws, require, calls, Script, run_script}
use cyrene_reactor.Product.Store.{Store}
use cyrene_reactor.Product.Exec.{err, ok, Result, Exec}
use cyrene_reactor.Product.Errors.{Raised}
use cyrene_reactor.Prelude.{String, Bool, ℕ}
use cyrene_reactor.Product.Exec.Keeps.{
  Keeps, Keeps-bind, Keeps-pure, Keeps-raise, Keeps-gets, Keeps-if, Keeps-option, keeps_rules,
}
use cyrene_reactor.Product.Store.Operations.Orderly.{
  KeepsOrder, IsOrderly, mark-KeepsOrder, persist-KeepsOrder, complete-KeepsOrder,
  commit-KeepsOrder, create-KeepsOrder,
}
use cyrene_reactor.Product.Owner.Methods.{handled, except}

module _ {Q : Type 0} (callback : Q → ℕ → Exec Store (Unit {0}))
    (kept : (q : Q) (now : ℕ) → KeepsOrder (callback q now)) where
  run_script-at :
      (script : Script Q) (s : Store)
      → IsOrderly s.operations
      → IsOrderly (run_script callback script s).1.operations
  unfolding run_script
  run_script-at (calls q now next) s o =
      run_script-at (next (callback q now s).0) (callback q now s).1 ((kept q now).at s o)
  run_script-at finishes s o = o
  run_script-at (throws error) s o = o

  pub run_script-KeepsOrder : (script : Script Q) → KeepsOrder (run_script callback script)
  run_script-KeepsOrder script = record { at = run_script-at script }

module _ {A : Type 0} (handler : Raised → Exec Store A)
    (kept : (e : Raised) → KeepsOrder (handler e)) where
  handled-at :
      (p : Result A × Store) → IsOrderly p.1.operations → IsOrderly (handled handler p).1.operations
  handled-at (ok a, s) o = o
  handled-at (err e, s) o = (kept e).at s o

  pub except-KeepsOrder : (body : Exec Store A) → KeepsOrder body → KeepsOrder (except body handler)
  unfolding except
  except-KeepsOrder body inner = record { at = λ s o. handled-at (body s) (inner.at s o) }

pub require-KeepsOrder : (test : Bool) (code : String) (n : ℕ) → KeepsOrder (require test code n)
require-KeepsOrder test code n = Keeps-if test _ _ (Keeps-pure tt) (Keeps-raise _)

pub ruleset owner_rules = (
  keeps_rules, require-KeepsOrder, mark-KeepsOrder, persist-KeepsOrder, complete-KeepsOrder,
  commit-KeepsOrder, create-KeepsOrder,
)
