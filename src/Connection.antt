-- ===== src/Connection.antt =====
-- internal/connection/state.go: the connection manager. A method returns the new manager and the
-- calls that it makes of the callbacks, in order. Instants and delays are nanoseconds. The
-- counters are not wrapped: at the heartbeat's pace they stay far below the range of an `int`.
pub mod Backoff
pub mod Calls
pub mod Transient
pub mod Once
mod Tests
use seawise_client.Prelude.{
  ℕ, ◌+◌, ◌-◌, ◌*◌, ◌^◌, Bool, true, false, ◌||◌, Option, none, some, List, [], ◌∷◌, ◌++◌, ltb, leb,
  eqb, if◌then◌else◌,
}
use seawise_client.Prelude.Bytes.{Bytes, lit}

pub data State : Type 0 where
  disconnected connecting connected reconnecting unpaired : State

-- The text of a state, as the program compares and prints it.
unfoldable pub name : State → Bytes
unfolding lit
name disconnected = lit "disconnected"
name connecting = lit "connecting"
name connected = lit "connected"
name reconnecting = lit "reconnecting"
name unpaired = lit "unpaired"

abbrev rank : State → ℕ
rank disconnected = 0
rank connecting = 1
rank connected = 2
rank reconnecting = 3
rank unpaired = 4

-- Equality of two of the five constants.
abbrev pub same : State → State → Bool
same a b = eqb (rank a) (rank b)

pub record Config : Type 0 where
  pub heartbeat_interval : ℕ
  pub base_retry_delay : ℕ
  pub max_retry_delay : ℕ

abbrev pub second : ℕ
second = 1000000000

unfoldable pub default_config : Config
default_config = record {
  heartbeat_interval = 30 * second;
  base_retry_delay = 1 * second;
  max_retry_delay = 300 * second;
}

-- `has_on_*` says whether the callback is set; `last_heartbeat` is `none` for the zero time.
pub record Manager : Type 0 where
  pub state : State
  pub last_heartbeat : Option ℕ
  pub last_heartbeat_ok : Bool
  pub consecutive_fails : ℕ
  pub reconnect_attempt : ℕ
  pub heartbeat_interval : ℕ
  pub base_retry_delay : ℕ
  pub max_retry_delay : ℕ
  pub has_on_state_change : Bool
  pub has_on_unpair : Bool

unfoldable pub new_manager : Config → Manager
new_manager cfg = record {
  state = disconnected;
  last_heartbeat = none;
  last_heartbeat_ok = false;
  consecutive_fails = 0;
  reconnect_attempt = 0;
  heartbeat_interval = cfg.heartbeat_interval;
  base_retry_delay = cfg.base_retry_delay;
  max_retry_delay = cfg.max_retry_delay;
  has_on_state_change = false;
  has_on_unpair = false;
}

unfoldable pub set_callbacks : Bool → Bool → Manager → Manager
set_callbacks on_state_change on_unpair m = record m {
  has_on_state_change = on_state_change;
  has_on_unpair = on_unpair;
}

-- A call of a callback.
pub data Call : Type 0 where
  state_changed : State → State → Call
  unpair_called : Call

abbrev notify : Bool → Call → List Call
notify set call = if set then call ∷ [] else []

unfoldable pub set_state : State → Manager → Manager × List Call
set_state new_state m = (
  record m { state = new_state },
  if same m.state new_state
      then []
      else notify m.has_on_state_change (state_changed m.state new_state),
)

unfoldable pub heartbeat_ok : ℕ → Manager → Manager × List Call
heartbeat_ok now m =
    let fresh = record m {
      last_heartbeat = some now;
      last_heartbeat_ok = true;
      consecutive_fails = 0;
      reconnect_attempt = 0;
    } in
    if same m.state reconnecting || same m.state connecting
    then (
      record fresh { state = connected },
      notify m.has_on_state_change (state_changed m.state connected),
    )
    else (fresh, [])

-- The first critical section of `HeartbeatFailed`; the second is that of `SetState`.
unfoldable pub count_failure : Manager → Manager
count_failure m = record m {
  last_heartbeat_ok = false;
  consecutive_fails = m.consecutive_fails + 1;
}

unfoldable pub heartbeat_failed : Manager → Manager × List Call
unfolding set_state count_failure
heartbeat_failed m =
    let counted = count_failure m in
    if leb 3 counted.consecutive_fails then set_state reconnecting counted else (counted, [])

unfoldable pub unpair_requested : Manager → Manager × List Call
unpair_requested m = if same m.state unpaired then (m, []) else (
  record m { state = unpaired },
  notify m.has_on_state_change (state_changed m.state unpaired)
      ++ notify m.has_on_unpair unpair_called,
)

-- base * 2^attempt, capped. The products of the program are exact in float64: the base is below
-- 2^53, and a power that overflows to infinity is above the cap.
unfoldable pub capped_delay : ℕ → ℕ → ℕ → ℕ
capped_delay base cap attempt = if ltb cap (base * 2 ^ attempt) then cap else base * 2 ^ attempt

-- `spread delay word` is time.Duration(delay + jitter), in floats, for the random word.
module _ (spread : ℕ → ℕ → ℕ) where
  unfoldable pub calculate_backoff : ℕ → Manager → Manager × ℕ
  unfolding capped_delay
  calculate_backoff word m =
      let final_delay =
        spread (capped_delay m.base_retry_delay m.max_retry_delay m.reconnect_attempt) word in
      (
        record m { reconnect_attempt = m.reconnect_attempt + 1 },
        if ltb m.max_retry_delay final_delay then m.max_retry_delay else final_delay,
      )

unfoldable pub reset_backoff : Manager → Manager
reset_backoff m = record m { reconnect_attempt = 0 }

-- time.Since of an instant before `now`.
unfoldable pub last_heartbeat_age : ℕ → Manager → ℕ
last_heartbeat_age now m = elim m.last_heartbeat [ none ↦ 0 | some t ↦ now - t ]

-- A call of a method that changes the manager.
pub data Op : Type 0 where
  set_state_op : State → Op
  heartbeat_ok_op : ℕ → Op
  heartbeat_failed_op unpair_requested_op reset_backoff_op : Op
  calculate_backoff_op : ℕ → Op

module _ (spread : ℕ → ℕ → ℕ) where
  unfoldable pub step : Op → Manager → Manager × List Call
  unfolding set_state heartbeat_ok heartbeat_failed unpair_requested calculate_backoff reset_backoff
  step (set_state_op s) m = set_state s m
  step (heartbeat_ok_op now) m = heartbeat_ok now m
  step heartbeat_failed_op m = heartbeat_failed m
  step unpair_requested_op m = unpair_requested m
  step reset_backoff_op m = (reset_backoff m, [])
  step (calculate_backoff_op word) m = ((calculate_backoff spread word m).0, [])

  -- A sequence of calls, as the lock orders them.
  unfoldable pub run : List Op → Manager → Manager × List Call
  run [] m = (m, [])
  run (op ∷ ops) m =
      let (m', calls) = step op m in let (m'', later) = run ops m' in (m'', calls ++ later)
