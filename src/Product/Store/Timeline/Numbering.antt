-- ===== src/Product/Store/Timeline/Numbering.antt =====
-- Within a deployment the events are numbered 1, 2, … in the order in which they were appended, and
-- the diagnostics too, with the record indices 0, 1, ….
use cyrene_reactor.Product.Exec.{ok}
use cyrene_reactor.Prelude.Table
use mathlib.Core.Path.{subst}
use mathlib.Core.List.{append-nil, append_assoc}
use cyrene_reactor.Prelude.Keys.{pair_eq, beq_refl, beq→eq, nat_eq, ◌==◌}
use cyrene_reactor.Product.Domain.{Diagnostic, DeploymentPhase}
use cyrene_reactor.Product.Store.Timeline.{
  ok, diagnostics_of, append_deployment_diagnostics, number, replace_all, ◌==◌, events_of,
  append_deployment_event, max_of,
}
use cyrene_reactor.Product.Store.{
  diagnostic_key, DiagnosticRow, DeploymentPhase, DeploymentEvent, Store,
}
use cyrene_reactor.Prelude.{
  sym, false, true, some, ◌∙◌, ◌&&◌, none, ◌≤◌, All, length-append, inl, inr, keep-append,
  Bool-cases, if◌then◌else◌, keep, refl, Option, ap, String, zero, ◌∷◌, length, arith, ◌++◌, ◌+◌,
  ◌≡◌, suc, map, [], List, ℕ,
}

-- `from + 1`, `from + 2`, …: the numbers of `n` rows after the first `from`.
unfoldable pub upto : ℕ → ℕ → List ℕ
upto from zero = []
upto from (suc n) = (from + 1) ∷ upto (from + 1) n

upto-append : (from n : ℕ) → upto from (suc n) ≡ upto from n ++ (from + n + 1) ∷ []
unfolding upto
upto-append from zero = ground arith
upto-append from (suc n) = ground (arith, upto-append (from + 1) n)

max_of-upto : (from n : ℕ) → max_of (upto from (suc n)) ≡ from + n + 1
unfolding upto max_of
max_of-upto from zero = omega arith
max_of-upto from (suc n) = omega (arith, max_of-upto (from + 1) n)

max_of-upto_zero : (n : ℕ) → max_of (upto 0 n) ≡ n
unfolding upto max_of
max_of-upto_zero zero = omega arith
max_of-upto_zero (suc n) = omega (arith, max_of-upto 0 n)

map-append_one {ℓ κ} :
    {A : Type ℓ} {B : Type κ} (f : A → B) (xs : List A) (x : A)
    → map f (xs ++ x ∷ []) ≡ map f xs ++ f x ∷ []
map-append_one f [] x = refl
map-append_one f (y ∷ ys) x = ap (◌∷◌ (f y)) (map-append_one f ys x)

-- Rows that belong to owners.
module _ {R : Type 0} (owner : R → ℕ) where
  abbrev pub rows_of : ℕ → List R → List R
  rows_of id rows = keep (λ r. owner r == id) rows

  pub rows_of-append :
      (rows : List R) (r : R) (id : ℕ)
      → rows_of id (rows ++ r ∷ [])
        ≡ (if owner r == id then rows_of id rows ++ r ∷ [] else rows_of id rows)
  rows_of-append rows r id =
      ground (arith, keep-append (λ x. owner x == id) rows (r ∷ []), append-nil (rows_of id rows))

-- Rows that carry numbers too.
module _ {R : Type 0} (owner number : R → ℕ) where
  -- Of every owner the rows are numbered from 1 without a gap, in table order.
  abbrev pub IsNumbered : List R → Type 0
  IsNumbered rows =
      (id : ℕ) → map number (rows_of owner id rows) ≡ upto 0 (length (rows_of owner id rows))

  pub max_of-number :
      (rows : List R) (id : ℕ)
      → IsNumbered rows
      → max_of (map number (rows_of owner id rows)) ≡ length (rows_of owner id rows)
  max_of-number rows id v = rw (v id) (max_of-upto_zero (length (rows_of owner id rows)))

  pub IsNumbered-append :
      (rows : List R) (r : R)
      → IsNumbered rows
      → number r ≡ length (rows_of owner (owner r) rows) + 1
      → IsNumbered (rows ++ r ∷ [])
  IsNumbered-append rows r v e id =
      rw (rows_of-append owner rows r id) (elim (Bool-cases (owner r == id)) [
        | inr other ↦ rw other (v id)
        | inl same ↦ rw same (extend (beq→eq (owner r) id same))
      ])
    where
      extend :
          owner r ≡ id
          → map number (rows_of owner id rows ++ r ∷ [])
            ≡ upto 0 (length (rows_of owner id rows ++ r ∷ []))
      extend same = ground (
        arith,
        map-append_one number (rows_of owner id rows) r,
        v id,
        e,
        ap (λ (k : ℕ). length (rows_of owner k rows)) same,
        length-append (rows_of owner id rows) (r ∷ []),
        upto-append 0 (length (rows_of owner id rows)),
      )

abbrev pub event_owner : DeploymentEvent → ℕ
event_owner r = r.deployment_id

abbrev pub event_number : DeploymentEvent → ℕ
event_number r = r.sequence

abbrev pub diagnostic_owner : DiagnosticRow → ℕ
diagnostic_owner r = r.deployment_id

abbrev pub diagnostic_number : DiagnosticRow → ℕ
diagnostic_number r = r.sequence

-- One more than the index, so that indices from 0 are numbers from 1.
abbrev pub diagnostic_place : DiagnosticRow → ℕ
diagnostic_place r = r.record_index + 1

-- Events and diagnostics of every deployment carry the numbers 1, 2, … in the order in which they
-- were appended, and the diagnostics the record indices 0, 1, ….
pub record IsTimeline (s : Store) : Type 0 where
  pub events : IsNumbered event_owner event_number s.events
  pub diagnostics : IsNumbered diagnostic_owner diagnostic_number s.diagnostics
  pub places : IsNumbered diagnostic_owner diagnostic_place s.diagnostics

-- In a store whose timelines are numbered, an appended event keeps the numbering of every
-- deployment gapless.
pub append_deployment_event-IsTimeline :
    (s : Store) (id : ℕ) (phase : DeploymentPhase) (message : String) (at : ℕ)
    (code : Option String)
    → IsTimeline s
    → IsTimeline (append_deployment_event id phase message at code s).1
unfolding append_deployment_event events_of
append_deployment_event-IsTimeline s id phase message at code v = record {
  events =
      IsNumbered-append event_owner event_number s.events _ v.events
        (rw (max_of-number event_owner event_number s.events id v.events));
  diagnostics = v.diagnostics;
  places = v.places;
}

upto-le : (from n m : ℕ) → from + n ≤ m → All (λ x. x ≤ m) (upto from n)
unfolding upto
upto-le from zero m h = tt
upto-le from (suc n) m h = (omega arith, upto-le (from + 1) n m (omega arith))

-- The record index after the last one is not in use.
index_missing :
    (rows : List DiagnosticRow) (id m : ℕ)
    → All (λ x. x ≤ m) (map diagnostic_place (rows_of diagnostic_owner id rows))
    → Table.get diagnostic_key (id, m) rows ≡ none
unfolding Table.get
index_missing [] id m h = refl
index_missing (r ∷ rows) id m h =
    elim (r.deployment_id == id)
        as (λ b.
          All (λ x. x ≤ m)
            (map diagnostic_place (
              if b then r ∷ rows_of diagnostic_owner id rows else rows_of diagnostic_owner id rows))
          → (if b && r.record_index == m then some r else Table.get diagnostic_key (id, m) rows)
            ≡ none) [
              | true ↦ λ k. let rest = index_missing rows id m k.1 in ground arith
              | false ↦ λ k. index_missing rows id m k
            ]
      h

index_free :
    (rows : List DiagnosticRow) (id : ℕ)
    → IsNumbered diagnostic_owner diagnostic_place rows
    → Table.get diagnostic_key (id, length (rows_of diagnostic_owner id rows)) rows ≡ none
index_free rows id v =
    index_missing rows id _
      (rw (v id) (upto-le 0 (length (rows_of diagnostic_owner id rows)) _ (omega arith)))

-- Appending numbered diagnostics one after another, each at the end of the table.
record Appended (id : ℕ) (rows appended : List DiagnosticRow) : Type 0 where
  at_end : replace_all appended rows ≡ rows ++ appended
  diagnostics : IsNumbered diagnostic_owner diagnostic_number (replace_all appended rows)
  places : IsNumbered diagnostic_owner diagnostic_place (replace_all appended rows)

append_all :
    (ds : List Diagnostic) (rows : List DiagnosticRow) (id n : ℕ)
    → n ≡ length (rows_of diagnostic_owner id rows)
    → IsNumbered diagnostic_owner diagnostic_number rows
    → IsNumbered diagnostic_owner diagnostic_place rows
    → Appended id rows (number id n n ds)
unfolding number replace_all
append_all [] rows id n e v w = record { at_end = rw append-nil; diagnostics = v; places = w }
append_all (d ∷ ds) rows id n e v w =
    let r : DiagnosticRow = record {
      deployment_id = id;
      record_index = n;
      sequence = n + 1;
      document = d;
    } in
    let tail = number id (n + 1) (n + 1) ds in
    let added = Table.replace_missing diagnostic_key r rows (rw e (index_free rows id w)) in
    let rest =
      append_all ds (rows ++ r ∷ []) id (n + 1)
        (ground (
          arith,
          rows_of-append diagnostic_owner rows r id,
          length-append (rows_of diagnostic_owner id rows) (r ∷ []),
          beq_refl id,
        ))
        (IsNumbered-append diagnostic_owner diagnostic_number rows r v (rw (← e)))
        (IsNumbered-append diagnostic_owner diagnostic_place rows r w (rw (← e))) in
    record {
      at_end =
          subst (λ x. replace_all tail x ≡ rows ++ r ∷ tail) (sym added)
            (rest.at_end ∙ append_assoc rows (r ∷ []) tail);
      diagnostics =
          subst (λ x. IsNumbered diagnostic_owner diagnostic_number (replace_all tail x))
            (sym added) rest.diagnostics;
      places =
          subst (λ x. IsNumbered diagnostic_owner diagnostic_place (replace_all tail x)) (sym added)
            rest.places;
    }

-- A row without its numbers.
abbrev pub contents : DiagnosticRow → ℕ × Diagnostic
contents r = (r.deployment_id, r.document)

abbrev pub for_deployment : ℕ → Diagnostic → ℕ × Diagnostic
for_deployment id d = (id, d)

number-documents :
    (ds : List Diagnostic) (id index sequence : ℕ)
    → map contents (number id index sequence ds) ≡ map (for_deployment id) ds
unfolding number
number-documents [] id index sequence = refl
number-documents (d ∷ ds) id index sequence =
    ap (◌∷◌ (id, d)) (number-documents ds id (index + 1) (sequence + 1))

-- In a store whose timelines are numbered, a batch of diagnostics goes to the end of the table, as
-- the rows that are returned: the deployment's, and with the documents of the batch in their order;
-- no row is replaced, and the numbering stays gapless.
pub append_deployment_diagnostics-IsTimeline :
    (s : Store) (id : ℕ) (ds : List Diagnostic)
    → IsTimeline s
    → IsTimeline (append_deployment_diagnostics id ds s).1
      × ((rows : List DiagnosticRow) × ((append_deployment_diagnostics id ds s).0 ≡ ok rows)
          × ((append_deployment_diagnostics id ds s).1.diagnostics ≡ s.diagnostics ++ rows)
          × (map contents rows ≡ map (for_deployment id) ds))
unfolding append_deployment_diagnostics diagnostics_of
append_deployment_diagnostics-IsTimeline s id ds v =
    let n = length (rows_of diagnostic_owner id s.diagnostics) in
    let last = max_of-number diagnostic_owner diagnostic_number s.diagnostics id v.diagnostics in
    let all = append_all ds s.diagnostics id n refl v.diagnostics v.places in
    (
      record {
        events = v.events;
        diagnostics = rw last all.diagnostics;
        places = rw last all.places;
      },
      (_, refl, rw last all.at_end, number-documents ds id _ _),
    )
