-- ===== src/Runtime/AlertManager/History.antt =====
-- The alert history: bounded, and alternating for each signal.
use cyrene_reactor.Runtime.AlertManager.Excursions.{Reading, observe, observe_signal}
use cyrene_reactor.Prelude.{
  refl, sym, ◌∙◌, Bool-cases, inl, inr, ℕ, zero, suc, ◌-◌, ◌≤◌, ◌≡◌, Bool, true, false, not, List,
  [], ◌∷◌, ◌++◌, arith, ltb, length, length-append, length-drop, drop, if◌then◌else◌,
}
use cyrene_reactor.Runtime.AlertManager.{
  check_latency, check_memory_pressure, reset, check_queue_depth, register_callback, all_clear,
  create, AlertLevel, set_active, check, publish, States, AlertType, Alert, Manager, queue_depth,
  memory_pressure, latency_high, max_history, is_active, last, record_alert,
}

abbrev pub is_type : AlertType → AlertType → Bool
is_type queue_depth queue_depth = true
is_type memory_pressure memory_pressure = true
is_type latency_high latency_high = true
is_type _ _ = false

-- Whether the events of one signal in the history are recoveries, oldest first.
pub phases : AlertType → List Alert → List Bool
phases t [] = []
phases t (a ∷ as') =
    let rest = phases t as' in if is_type a.alert_type t then a.resolved ∷ rest else rest

-- Alerts and recoveries take turns from `first` on, and `next` is due after the last.
abbrev pub Alternates : Bool → List Bool → Bool → Type 0
Alternates first [] next = first ≡ next
Alternates first (x ∷ xs) next = (x ≡ first) × Alternates (not first) xs next

-- Of each signal the history alternates, and a recovery is due next exactly if it is active.
pub record IsTidy (m : Manager) : Type 0 where
  pub bounded : length m.alert_history ≤ max_history
  pub turns :
      (t : AlertType)
      → (first : Bool) × Alternates first (phases t m.alert_history) (is_active m.alert_states t)

Alternates-append :
    (first : Bool) (xs : List Bool) (next : Bool)
    → Alternates first xs next
    → Alternates first (xs ++ next ∷ []) (not next)
Alternates-append first [] next h = ground arith
Alternates-append first (x ∷ xs) next h = (h.0, Alternates-append (not first) xs next h.1)

phases-append :
    (t : AlertType) (xs : List Alert) (a : Alert)
    → phases t (xs ++ a ∷ [])
      ≡ (if is_type a.alert_type t then phases t xs ++ a.resolved ∷ [] else phases t xs)
unfolding phases
phases-append t [] a = ground arith
phases-append t (x ∷ xs) a = ground (arith, phases-append t xs a)

drop-Alternates :
    (t : AlertType) (n : ℕ) (xs : List Alert) (first next : Bool)
    → Alternates first (phases t xs) next
    → (first' : Bool) × Alternates first' (phases t (drop n xs)) next
unfolding phases
drop-Alternates t zero xs first next h = (first, h)
drop-Alternates t (suc n) [] first next h = (first, h)
drop-Alternates t (suc n) (x ∷ xs) first next h =
    let rest = drop-Alternates t n xs in
    elim (is_type x.alert_type t)
        as (λ b.
          Alternates first (if b then x.resolved ∷ phases t xs else phases t xs) next
          → (first' : Bool) × Alternates first' (phases t (drop n xs)) next) [
            | true ↦ λ k. rest (not first) next k.1
            | false ↦ λ k. rest first next k
          ]
      h

record_alert-Alternates :
    (t : AlertType) (xs : List Alert) (a : Alert) (first active : Bool)
    → Alternates first (phases t xs) active
    → (is_type a.alert_type t ≡ true → a.resolved ≡ active)
    → (first' : Bool) × Alternates first'
        (phases t (record_alert xs a))
        (if is_type a.alert_type t then not active else active)
unfolding record_alert last
record_alert-Alternates t xs a first active h due =
    elim (ltb max_history (length (xs ++ a ∷ [])))
      as (λ b.
        (first' : Bool) × Alternates first'
          (phases t
            (if b then drop (length (xs ++ a ∷ []) - max_history) (xs ++ a ∷ []) else xs ++ a ∷ []))
          (if is_type a.alert_type t then not active else active)) [
            | true ↦ drop-Alternates t _ (xs ++ a ∷ []) first _ longer
            | false ↦ (first, longer)
          ]
  where
    longer :
        Alternates first
          (phases t (xs ++ a ∷ []))
          (if is_type a.alert_type t then not active else active)
    longer = rw (phases-append t xs a) (elim (Bool-cases (is_type a.alert_type t)) [
      | inl e ↦ rw e (rw (due e) (Alternates-append first (phases t xs) active h))
      | inr e ↦ rw e h
    ])

record_alert-le-max :
    (xs : List Alert) (a : Alert)
    → length xs ≤ max_history
    → length (record_alert xs a) ≤ max_history
unfolding record_alert last
record_alert-le-max xs a h = ground (
  arith,
  length-drop (length (xs ++ a ∷ []) - max_history) (xs ++ a ∷ []),
  length-append xs (a ∷ []),
)

set_active_lem :
    (s : States) (t u : AlertType) (b : Bool)
    → is_active (set_active s t b) u ≡ (if is_type t u then b else is_active s u)
set_active_lem s queue_depth queue_depth b = refl
set_active_lem s queue_depth _ b = refl
set_active_lem s memory_pressure memory_pressure b = refl
set_active_lem s memory_pressure _ b = refl
set_active_lem s latency_high latency_high b = refl
set_active_lem s latency_high _ b = refl

is_type_same : (s : States) (t u : AlertType) → is_type t u ≡ true → is_active s t ≡ is_active s u
is_type_same s queue_depth queue_depth h = refl
is_type_same s memory_pressure memory_pressure h = refl
is_type_same s latency_high latency_high h = refl
is_type_same s _ _ h = cc

publish-IsTidy :
    (m : Manager) (t : AlertType) (active : Bool) (a : Alert)
    → a.alert_type ≡ t
    → is_active m.alert_states t ≡ a.resolved
    → active ≡ not (is_active m.alert_states t)
    → IsTidy m
    → IsTidy (publish m t active a).0
unfolding publish
publish-IsTidy m t active a et er ea v = record {
  bounded = record_alert-le-max m.alert_history a v.bounded;
  turns = λ u.
      let (first, h) = v.turns u in
      let agree = λ (same : is_type a.alert_type u ≡ true).
        is_type_same m.alert_states t u (rw (← et) same) in
      let due = λ (same : is_type a.alert_type u ≡ true). sym er ∙ agree same in
      rw (set_active_lem m.alert_states t u active, ← et)
        (elim (Bool-cases (is_type a.alert_type u)) [
          | inl same ↦ rw same (
              rw (ea, agree same)
                (rw same at (record_alert-Alternates u m.alert_history a first _ h due)))
          | inr other ↦
              rw other (rw other at (record_alert-Alternates u m.alert_history a first _ h due))
        ]);
}

check-IsTidy :
    (m : Manager) (t : AlertType) (value threshold : ℕ) (level : AlertLevel) (now : ℕ)
    → IsTidy m
    → IsTidy (check m t value threshold level now).0
unfolding check
check-IsTidy m t value threshold level now v = elim (Bool-cases (ltb threshold value)) [
  | inl above ↦ elim (Bool-cases (is_active m.alert_states t)) [
    | inl on ↦ rw (above, on) v
    | inr off ↦ rw (above, off) (publish-IsTidy m t true _ refl off (rw off) v)
  ]
  | inr below ↦ elim (Bool-cases (is_active m.alert_states t)) [
    | inl on ↦ rw (below, on) (publish-IsTidy m t false _ refl on (rw on) v)
    | inr off ↦ rw (below, off) v
  ]
]

-- The calls that change a manager.
pub data Call : Type 0 where
  observed : Reading → Call
  registered cleared : Call

pub step : Manager → Call → Manager
step m (observed r) = (observe m r).0
step m registered = register_callback m
step m cleared = reset m

pub run : Manager → List Call → Manager
run m [] = m
run m (c ∷ cs) = run (step m c) cs

observe-IsTidy :
    (m : Manager) (t : AlertType) (value now : ℕ)
    → IsTidy m
    → IsTidy (observe_signal m t value now).0
unfolding observe_signal check_queue_depth check_memory_pressure check_latency
observe-IsTidy m queue_depth value now v =
    check-IsTidy m queue_depth value m.queue_threshold _ now v
observe-IsTidy m memory_pressure value now v =
    check-IsTidy m memory_pressure value m.memory_threshold _ now v
observe-IsTidy m latency_high value now v =
    check-IsTidy m latency_high value m.latency_threshold _ now v

step-IsTidy : (m : Manager) (c : Call) → IsTidy m → IsTidy (step m c)
unfolding step observe reset register_callback phases
step-IsTidy m (observed r) v = observe-IsTidy m r.signal r.value r.now v
step-IsTidy m registered v = record { bounded = v.bounded; turns = v.turns }
step-IsTidy m cleared v = record {
  bounded = omega arith;
  turns = λ t. elim t as (λ u. (first : Bool) × (first ≡ is_active all_clear u)) [
    | queue_depth ↦ (false, refl)
    | memory_pressure ↦ (false, refl)
    | latency_high ↦ (false, refl)
  ];
}

run-IsTidy : (m : Manager) (cs : List Call) → IsTidy m → IsTidy (run m cs)
unfolding run
run-IsTidy m [] v = v
run-IsTidy m (c ∷ cs) v = run-IsTidy (step m c) cs (step-IsTidy m c v)

-- After any readings of any signals, registrations and resets of a new manager, the history holds
-- at most 1000 events, and those of each signal are alternately alerts and recoveries, with a
-- recovery due next exactly if the signal's state is active.
pub run-create-IsTidy :
    (queue memory latency : ℕ) (cs : List Call) → IsTidy (run (create queue memory latency) cs)
unfolding create phases
run-create-IsTidy queue memory latency cs = run-IsTidy _ cs (record {
  bounded = omega arith;
  turns = λ t. elim t as (λ u. (first : Bool) × (first ≡ is_active all_clear u)) [
    | queue_depth ↦ (false, refl)
    | memory_pressure ↦ (false, refl)
    | latency_high ↦ (false, refl)
  ];
})
