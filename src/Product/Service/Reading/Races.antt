-- ===== src/Product/Service/Reading/Races.antt =====
-- `get_deployment` under the commands of other threads: what it writes, and when it writes nothing.
use mathlib.Core.Path.{subst}
use cyrene_reactor.Prelude.{
  sym, ◌≢◌, ◌⊎◌, String, Option, ◌+◌, ◌∙◌, ap, Option-cases, inr, inl, Bool-cases, refl, some, none,
  ◌≡◌, ℕ, false, true,
}
use cyrene_reactor.Prelude.Keys.{beq→eq, nat_eq, ◌==◌, beq_refl}
use cyrene_reactor.Product.Exec.Inversion.{bind-ok, pure-ok}
use cyrene_reactor.Product.Errors.{Code, product_error}
use cyrene_reactor.Product.Store.Deployments.Pairs.{save_pair-ok, get_deployment-save_pair}
use cyrene_reactor.Product.Domain.{EngineObservation, Endpoint, Deployment}
use cyrene_reactor.Product.Exec.{Exec, pure, Result, err, ok, ◌>>=◌, gets, ◌>>◌}
use cyrene_reactor.Product.Service.{
  Host, product_error, Deployment, ℕ, ◌>>=◌, State, on_store, require_deployment, require, utc_now,
  require_endpoint,
}
use cyrene_reactor.Product.Service.Reading
use cyrene_reactor.Product.Service.Reading.{
  ask_engine, is_live, observe_endpoint, observe_execution, agrees, reconciled, observe, compare,
  save_pair, settle,
}
use cyrene_reactor.Product.Store.Deployments.{get_execution_ref, save_pair, get_deployment}
use cyrene_reactor.Product.Store.{Store}

ok_injective : {A : Type 0} (a b : A) → ok a ≡ ok b → a ≡ b
ok_injective a b h = cc

require_deployment-ok :
    (id : ℕ) (s : State) (d : Deployment) (s' : State)
    → require_deployment id s ≡ (ok d, s')
    → (get_deployment s.store id ≡ some d) × (s ≡ s')
unfolding require_deployment require ◌>>=◌
require_deployment-ok id s d s' e = elim (Option-cases (get_deployment s.store id)) [
  | inl missing ↦
      let no : err (product_error Code.deployment_not_found 404) ≡ ok d =
        ap (λ (p : Result Deployment × State). p.0) (rw missing at e) in
      absurd cc
  | inr (x, found) ↦
      let answer : ◌≡◌ {A = Result Deployment × State} (ok x, s) (ok d, s') = rw found at e in
      let same : ok x ≡ ok d = ap (λ (p : Result Deployment × State). p.0) answer in
      (found ∙ ap some (ok_injective x d same), ap (λ (p : Result Deployment × State). p.1) answer)
]

-- What a reconciling read has to write: the deployment that was read, one version later.
abbrev IsNext : Deployment → Deployment → Type 0
IsNext d d' = (d'.id ≡ d.id) × (d'.resource_version ≡ d.resource_version + 1)

abbrev Pair : Type 0
Pair = Deployment × Endpoint

abbrev NextIn : Deployment → Option Pair → Type 0
NextIn d none = Unit
NextIn d (some (d', e)) = IsNext d d'

-- Whatever `m` returns has the property.
abbrev Returns : {A : Type 0} → (A → Type 0) → Exec State A → Type 0
Returns {A} P m = (s : State) (a : A) (s' : State) → m s ≡ (ok a, s') → P a

Returns-bind :
    {A B : Type 0} (P : B → Type 0) (m : Exec State A) (f : A → Exec State B)
    → ((a : A) → Returns P (f a))
    → Returns P (m >>= f)
Returns-bind P m f rule s b s' k =
    let (a, s₁, first, rest) = bind-ok m f s b s' k in rule a s₁ b s' rest

pure-NextIn :
    (d : Deployment) (pair : Option Pair) (s : State) (o : Option Pair) (s' : State)
    → NextIn d pair
    → pure pair s ≡ (ok o, s')
    → NextIn d o
pure-NextIn d pair s o s' next e = subst (NextIn d) ((pure-ok pair s o s' e).0) next

settle-stored :
    (version : ℕ) (d : Deployment) (e : Endpoint) (s : State) (current : Deployment)
    → get_deployment s.store d.id ≡ some current
    → (current.resource_version == version) ≡ true
    → settle version d e s ≡ (ok d, record s { store = (save_pair d e none s.store).1 })
unfolding settle require_deployment require on_store ◌>>=◌
settle-stored version d e s current found same =
    rw (found, same, save_pair-ok d e none s.store) refl

settle-overtaken :
    (version : ℕ) (d : Deployment) (e : Endpoint) (s : State) (current : Deployment)
    → get_deployment s.store d.id ≡ some current
    → (current.resource_version == version) ≡ false
    → settle version d e s ≡ (ok current, s)
unfolding settle require_deployment require on_store ◌>>=◌
settle-overtaken version d e s current found other = rw (found, other) refl

read_back :
    (d : Deployment) (e : Endpoint) (s : Store)
    → get_deployment (save_pair d e none s).1 d.id ≡ some d
read_back d e s = rw (get_deployment-save_pair d e none s d.id, beq_refl d.id) refl

versions_differ :
    (a b : Deployment)
    → (a.resource_version == b.resource_version) ≡ false
    → a.resource_version ≢ b.resource_version
versions_differ a b other same =
    let no : true ≡ false =
      sym (beq_refl b.resource_version)
      ∙ sym (ap (λ (n : ℕ). n == b.resource_version) same)
      ∙ other in
    cc

answer_of :
    (p : Result Deployment × State) (a b : Deployment) (s s' : State)
    → p ≡ (ok a, s)
    → p ≡ (ok b, s')
    → (b ≡ a) × (s' ≡ s)
answer_of p a b s s' one two = (
  ok_injective b a (ap (λ (x : Result Deployment × State). x.0) (sym two ∙ one)),
  ap (λ (x : Result Deployment × State). x.1) (sym two ∙ one),
)

module _ (h : Host) where
  compare-NextIn :
      (d : Deployment) (e : Endpoint) (observation : EngineObservation) (s : State)
      (o : Option Pair) (s' : State)
      → compare h d e observation s ≡ (ok o, s')
      → NextIn d o
  unfolding compare reconciled
  compare-NextIn d e observation s o s' k =
      elim (Bool-cases (agrees observation.ready d.observed_state e.state)) [
        | inl same ↦ pure-NextIn d none s o s' tt (rw (same, compare) at k)
        | inr other ↦
            let (now, s₁, clock, rest) = bind-ok (utc_now h) _ s o s' (rw (other, compare) at k) in
            pure-NextIn d _ s₁ o s' (refl, refl) rest
      ]

  observe_execution-NextIn :
      (d : Deployment) (e : Endpoint) (ref : Option String)
      → Returns (NextIn d) (observe_execution h d e ref)
  unfolding observe_execution
  observe_execution-NextIn d e none s o s' k = pure-NextIn d none s o s' tt k
  observe_execution-NextIn d e (some ref) s o s' k =
      Returns-bind (NextIn d) (ask_engine h d e ref) _
        (λ observation. compare-NextIn d e observation) s o s' k

  observe_endpoint-NextIn :
      (d : Deployment) (id : Option ℕ) → Returns (NextIn d) (observe_endpoint h d id)
  unfolding observe_endpoint
  observe_endpoint-NextIn d none s o s' k = pure-NextIn d none s o s' tt k
  observe_endpoint-NextIn d (some id) s o s' k =
      Returns-bind (NextIn d) (require_endpoint id) _
        (λ e.
          Returns-bind (NextIn d) (gets (λ s. get_execution_ref s.store d.id)) _
            (λ ref. observe_execution-NextIn d e ref))
        s o s' k

  observe-NextIn : (d : Deployment) → Returns (NextIn d) (observe h d)
  unfolding observe
  observe-NextIn d s o s' k = elim (Bool-cases (is_live d.observed_state)) [
    | inl live ↦ observe_endpoint-NextIn d d.endpoint_id s o s' (rw (live, observe) at k)
    | inr over ↦ pure-NextIn d none s o s' tt (rw (over, observe) at k)
  ]

  -- A reading that compared the engine's evidence with the deployment `d` and found a difference:
  -- `d'` and `e` are what it has to write, `current` is what other threads have left stored.
  abbrev pub IsSettled :
      Exec State (Unit {0}) → Deployment → State → Deployment → State → Deployment → Type 0
  IsSettled others d s r s' d' =
      (e : Endpoint) × (s₁ : State) × (s₂ : State) × (current : Deployment) × (observe h d s
        ≡ (ok (some (d', e)), s₁))
      × (others s₁ ≡ (ok tt, s₂))
      × (get_deployment s₂.store d.id ≡ some current)
      × (((current.resource_version ≡ d.resource_version)
            × (r ≡ d')
            × (r.resource_version ≡ d.resource_version + 1)
            × (s' ≡ record s₂ { store = (save_pair d' e none s₂.store).1 })
            × (get_deployment s'.store d.id ≡ some r))
          ⊎ ((current.resource_version ≢ d.resource_version) × (r ≡ current) × (s' ≡ s₂)))

  settle-IsSettled :
      (others : Exec State (Unit {0})) (d : Deployment) (s : State) (r : Deployment) (s' : State)
      (d' : Deployment) (e : Endpoint) (s₁ s₂ : State)
      → observe h d s ≡ (ok (some (d', e)), s₁)
      → others s₁ ≡ (ok tt, s₂)
      → settle d.resource_version d' e s₂ ≡ (ok r, s')
      → IsSettled others d s r s' d'
  unfolding settle
  settle-IsSettled others d s r s' d' e s₁ s₂ observed waited settled =
      let (same_id, later) = observe-NextIn d s (some (d', e)) s₁ observed in
      let (current, s₃, required, rest) = bind-ok (require_deployment d'.id) _ s₂ r s' settled in
      let found = (require_deployment-ok d'.id s₂ current s₃ required).0 in
      let stored = rw same_id at found in
      elim (Bool-cases (current.resource_version == d.resource_version)) [
        | inl same ↦
            let saved = settle-stored d.resource_version d' e s₂ current found same in
            let (answer, after) = answer_of _ d' r _ s' saved settled in
            (
              e,
              s₁,
              s₂,
              current,
              observed,
              waited,
              stored,
              inl (
                beq→eq current.resource_version d.resource_version same,
                answer,
                ap (λ (x : Deployment). x.resource_version) answer ∙ later,
                after,
                ap (λ (x : State). get_deployment x.store d.id) after
                    ∙ ap (λ (n : ℕ). get_deployment (save_pair d' e none s₂.store).1 n)
                        (sym same_id)
                    ∙ read_back d' e s₂.store
                    ∙ ap some (sym answer),
              ),
            )
        | inr other ↦
            let kept = settle-overtaken d.resource_version d' e s₂ current found other in
            let (answer, after) = answer_of _ current r _ s' kept settled in
            (
              e,
              s₁,
              s₂,
              current,
              observed,
              waited,
              stored,
              inr (versions_differ current d other, answer, after),
            )
      ]

  -- What the reading that found the deployment `d` stored returns and leaves.
  settled :
      (others : Exec State (Unit {0})) (d : Deployment) (s : State) (o : Option Pair) (s₁ : State)
      (r : Deployment) (s' : State)
      → observe h d s ≡ (ok o, s₁)
      → elim o as (λ x. Exec State Deployment) [
        | none ↦ pure d
        | some (d', e) ↦ others >> settle d.resource_version d' e
      ]
          s₁
        ≡ (ok r, s')
      → ((observe h d s ≡ (ok none, s')) × (r ≡ d))
        ⊎ ((d' : Deployment) × IsSettled others d s r s' d')
  settled others d s none s₁ r s' observed k =
      let (answer, after) = pure-ok d s₁ r s' k in
      inl (observed ∙ ap (λ (x : State). (ok none, x)) after, sym answer)
  settled others d s (some (d', e)) s₁ r s' observed k =
      let (u, s₂, waited, done) = bind-ok others _ s₁ r s' k in
      inr (d', settle-IsSettled others d s r s' d' e s₁ s₂ observed waited done)

  -- Whatever other threads do while the engine is asked, a read that returns either found nothing to
  -- write, and returns what was stored at its start; or it found the evidence changed. Then, if the
  -- stored deployment still has the version that was read at the start, the reconciled one is stored
  -- and returned, with the next version; and if not, what the others left is returned and nothing is
  -- written.
  pub get_deployment_checks_version :
      (others : Exec State (Unit {0})) (id : ℕ) (s : State) (r : Deployment) (s' : State)
      → Reading.get_deployment h others id s ≡ (ok r, s')
      → (d : Deployment) × (get_deployment s.store id ≡ some d)
        × (((observe h d s ≡ (ok none, s')) × (r ≡ d))
            ⊎ ((d' : Deployment) × IsSettled others d s r s' d'))
  unfolding Reading.get_deployment
  get_deployment_checks_version others id s r s' k =
      let (d, s₀, required, rest) = bind-ok (require_deployment id) _ s r s' k in
      let (found, same) = require_deployment-ok id s d s₀ required in
      let (o, s₁, observed, after) = bind-ok (observe h d) _ s₀ r s' rest in
      (d, found, settled others d s o s₁ r s' (rw (sym same) at observed) after)
