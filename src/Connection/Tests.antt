-- ===== src/Connection/Tests.antt =====
-- The theorems about the connection manager at concrete inputs.
use seawise_client.Prelude.{ℕ, ◌+◌, ◌*◌, ◌≡◌, refl, true, false, none, List, [], ◌∷◌, ◌/◌}
use seawise_client.Connection.{
  unpaired, connecting, connected, reconnecting, Manager, default_config, new_manager,
  set_callbacks, set_state, state_changed, unpair_called, Op, heartbeat_ok_op, heartbeat_failed_op,
  unpair_requested_op, calculate_backoff_op, run, step, second,
}
use seawise_client.Connection.Calls.{Follows, run-Follows}

-- A spread for tests: half of the delay on top.
abbrev half_more : ℕ → ℕ → ℕ
half_more d w = d + d / 2

abbrev started : Manager
started = record {
  state = connecting;
  last_heartbeat = none;
  last_heartbeat_ok = false;
  consecutive_fails = 0;
  reconnect_attempt = 0;
  heartbeat_interval = 30 * second;
  base_retry_delay = 1 * second;
  max_retry_delay = 300 * second;
  has_on_state_change = true;
  has_on_unpair = true;
}

started_lem :
    (set_state connecting (set_callbacks true true (new_manager default_config))).0 ≡ started
unfolding set_state set_callbacks new_manager default_config
started_lem = refl

abbrev script : List Op
script =
    heartbeat_ok_op 5
    ∷ heartbeat_failed_op
    ∷ heartbeat_failed_op
    ∷ heartbeat_failed_op
    ∷ unpair_requested_op
    ∷ unpair_requested_op
    ∷ []

script_calls :
    (run half_more script started).1
    ≡ state_changed connecting connected
      ∷ state_changed connected reconnecting
      ∷ state_changed reconnecting unpaired
      ∷ unpair_called
      ∷ []
unfolding run step
script_calls = refl

run-Follows_example :
    Follows (run half_more script started).1 connecting (run half_more script started).0.state
run-Follows_example = run-Follows half_more script started refl

abbrev outage : List Op
outage = heartbeat_failed_op ∷ heartbeat_failed_op ∷ heartbeat_failed_op ∷ heartbeat_ok_op 9 ∷ []

abbrev parted : Manager
parted = record started { state = unpaired; consecutive_fails = 2 }

abbrev quiet : List Op
quiet = heartbeat_ok_op 5 ∷ unpair_requested_op ∷ calculate_backoff_op 3 ∷ unpair_requested_op ∷ []
