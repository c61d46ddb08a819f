-- ===== src/Runtime/AlertManager.antt =====
-- runtime/pro/src/cy_exec_pro/core/alert_manager.py, class `AlertManager`.
--
-- Values and thresholds are floats there and are only compared: here they are numbers in one fixed
-- unit. `time.time()` is an argument. The texts are the constructors of `Message`. A callback's
-- exceptions are logged and dropped, so a callback is the list of the alerts that it was given.
pub mod Excursions
pub mod History
mod Examples
use cyrene_reactor.Prelude.{
  ℕ, suc, ◌+◌, ◌-◌, ◌≡◌, Bool, true, false, Option, none, some, List, [], ◌∷◌, ◌++◌, ltb, length,
  drop, map, if◌then◌else◌,
}

pub data AlertLevel : Type 0 where
  info warning critical : AlertLevel

pub data AlertType : Type 0 where
  queue_depth memory_pressure latency_high : AlertType

pub data Message : Type 0 where
  too_high recovered : AlertType → ℕ → Message

pub record Alert : Type 0 where
  pub alert_type : AlertType
  pub level : AlertLevel
  pub message : Message
  pub value : ℕ
  pub threshold : ℕ
  pub timestamp : ℕ
  pub resolved : Bool

-- `_alert_states`, a dict with an entry for every type.
pub record States : Type 0 where
  pub queue_depth : Bool
  pub memory_pressure : Bool
  pub latency_high : Bool

pub record Manager : Type 0 where
  pub queue_threshold : ℕ
  pub memory_threshold : ℕ
  pub latency_threshold : ℕ
  pub alert_states : States
  pub alert_history : List Alert
  pub callbacks : List (List Alert)

abbrev pub max_history : ℕ
max_history = 1000

abbrev pub is_active : States → AlertType → Bool
is_active s queue_depth = s.queue_depth
is_active s memory_pressure = s.memory_pressure
is_active s latency_high = s.latency_high

abbrev pub set_active : States → AlertType → Bool → States
set_active s queue_depth b = record s { queue_depth = b }
set_active s memory_pressure b = record s { memory_pressure = b }
set_active s latency_high b = record s { latency_high = b }

abbrev pub all_clear : States
all_clear = record { queue_depth = false; memory_pressure = false; latency_high = false }

pub create : ℕ → ℕ → ℕ → Manager
create queue memory latency = record {
  queue_threshold = queue;
  memory_threshold = memory;
  latency_threshold = latency;
  alert_states = all_clear;
  alert_history = [];
  callbacks = [];
}

-- `xs[-n:]` for `0 < n`
pub last {ℓ} : {A : Type ℓ} → ℕ → List A → List A
last n xs = drop (length xs - n) xs

pub record_alert : List Alert → Alert → List Alert
unfolding last
record_alert history alert =
    let history' = history ++ alert ∷ [] in
    if ltb max_history (length history') then last max_history history' else history'

pub trigger_callbacks : List (List Alert) → Alert → List (List Alert)
trigger_callbacks callbacks alert = map (λ seen. seen ++ alert ∷ []) callbacks

-- The end of `_check`: record, trigger and return the alert.
pub publish : Manager → AlertType → Bool → Alert → Manager × Option Alert
unfolding record_alert trigger_callbacks
publish m t active alert = (
  record m {
    alert_states = set_active m.alert_states t active;
    alert_history = record_alert m.alert_history alert;
    callbacks = trigger_callbacks m.callbacks alert;
  },
  some alert,
)

pub check : Manager → AlertType → ℕ → ℕ → AlertLevel → ℕ → Manager × Option Alert
check m t value threshold level now =
    if ltb threshold value
    then (if is_active m.alert_states t
        then (m, none)
        else publish m t true (record {
          alert_type = t;
          level = level;
          message = too_high t value;
          value = value;
          threshold = threshold;
          timestamp = now;
          resolved = false;
        }))
    else (if is_active m.alert_states t
        then publish m t false (record {
          alert_type = t;
          level = info;
          message = recovered t value;
          value = value;
          threshold = threshold;
          timestamp = now;
          resolved = true;
        })
        else (m, none))

pub check_queue_depth : Manager → ℕ → ℕ → Manager × Option Alert
check_queue_depth m depth = check m queue_depth depth m.queue_threshold warning

pub check_memory_pressure : Manager → ℕ → ℕ → Manager × Option Alert
check_memory_pressure m pressure = check m memory_pressure pressure m.memory_threshold critical

pub check_latency : Manager → ℕ → ℕ → Manager × Option Alert
check_latency m latency = check m latency_high latency m.latency_threshold warning

pub register_callback : Manager → Manager
register_callback m = record m { callbacks = m.callbacks ++ [] ∷ [] }

pub get_alert_state : Manager → AlertType → Bool
get_alert_state m t = is_active m.alert_states t

-- `self._alert_history[-limit:]`, where `[-0:]` is the whole list.
pub get_alert_history : Manager → ℕ → List Alert
unfolding last
get_alert_history m ℕ.zero = m.alert_history
get_alert_history m (suc n) = last (suc n) m.alert_history

pub reset : Manager → Manager
reset m = record m { alert_states = all_clear; alert_history = [] }
