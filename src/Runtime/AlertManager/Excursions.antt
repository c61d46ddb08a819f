-- ===== src/Runtime/AlertManager/Excursions.antt =====
-- One alert for each excursion above the threshold, and one recovery after it.
use cyrene_reactor.Prelude.{
  map, ℕ, ◌≡◌, refl, Bool, true, false, Option, none, some, List, [], ◌∷◌, arith, ltb,
  if◌then◌else◌,
}
use cyrene_reactor.Runtime.AlertManager.{
  publish, AlertType, Alert, Manager, queue_depth, memory_pressure, latency_high, is_active, check,
  check_queue_depth, check_memory_pressure, check_latency,
}

-- A reading of one signal.
pub record Reading : Type 0 where
  pub signal : AlertType
  pub value : ℕ
  pub now : ℕ

abbrev pub threshold_of : Manager → AlertType → ℕ
threshold_of m queue_depth = m.queue_threshold
threshold_of m memory_pressure = m.memory_threshold
threshold_of m latency_high = m.latency_threshold

unfoldable pub observe_signal : Manager → AlertType → ℕ → ℕ → Manager × Option Alert
observe_signal m queue_depth value now = check_queue_depth m value now
observe_signal m memory_pressure value now = check_memory_pressure m value now
observe_signal m latency_high value now = check_latency m value now

unfoldable pub observe : Manager → Reading → Manager × Option Alert
unfolding observe_signal
observe m r = observe_signal m r.signal r.value r.now

module _ (m : Manager) (t : AlertType) (value now : ℕ) where
  state-observe_signal :
      (is_active (observe_signal m t value now).0.alert_states t ≡ ltb (threshold_of m t) value)
      × (threshold_of (observe_signal m t value now).0 t ≡ threshold_of m t)
  unfolding observe_signal check_queue_depth check_memory_pressure check_latency check publish
  state-observe_signal =
      elim t
        as (λ u.
          (is_active (observe_signal m u value now).0.alert_states u ≡ ltb (threshold_of m u) value)
          × (threshold_of (observe_signal m u value now).0 u ≡ threshold_of m u)) [
            | queue_depth ↦ ground arith
            | memory_pressure ↦ ground arith
            | latency_high ↦ ground arith
          ]

-- Whether the alert that a reading yields, if any, is a recovery.
abbrev pub recovery : Option Alert → Option Bool
recovery none = none
recovery (some a) = some a.resolved

-- What readings of one signal should yield: an event exactly where the value crosses the
-- threshold, a recovery exactly on the way down. `above` is the side of the reading before.
pub crossings : Bool → ℕ → List ℕ → List (Option Bool)
crossings above threshold [] = []
crossings above threshold (v ∷ vs) =
    (if ltb threshold v
      then (if above then none else some false)
      else (if above then some true else none))
    ∷ crossings (ltb threshold v) threshold vs

unfoldable pub observe_all : Manager → AlertType → List (ℕ × ℕ) → List (Option Bool)
observe_all m t [] = []
observe_all m t ((value, now) ∷ rest) =
    let (m', alert) = observe_signal m t value now in recovery alert ∷ observe_all m' t rest

recovery-observe_signal :
    (m : Manager) (t : AlertType) (value now : ℕ)
    → recovery (observe_signal m t value now).1 ≡ (
        if ltb (threshold_of m t) value
        then (if is_active m.alert_states t then none else some false)
        else (if is_active m.alert_states t then some true else none))
unfolding observe_signal check_queue_depth check_memory_pressure check_latency check publish
recovery-observe_signal m queue_depth value now = ground arith
recovery-observe_signal m memory_pressure value now = ground arith
recovery-observe_signal m latency_high value now = ground arith

-- Any readings of one signal, at any times, yield one alert at each crossing above its threshold
-- and one recovery at each crossing back, and nothing while the value stays on its side.
pub observe_all-crossings :
    (m : Manager) (t : AlertType) (readings : List (ℕ × ℕ))
    → observe_all m t readings
      ≡ crossings (is_active m.alert_states t) (threshold_of m t) (map (λ r. r.0) readings)
unfolding observe_all crossings
observe_all-crossings m t [] = refl
observe_all-crossings m t ((value, now) ∷ rest) =
    let (same_state, same_threshold) = state-observe_signal m t value now in
    rw (
      recovery-observe_signal m t value now,
      observe_all-crossings (observe_signal m t value now).0 t rest,
      same_state,
      same_threshold,
    )
