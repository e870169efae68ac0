-- ===== src/Web/Status.antt =====
-- The handlers of cmd/seawise/server/webui.go that answer with the state of the server.
use seawise_client.Server.{pending, no_pairing, Server, PairingState, paired}
use seawise_client.Auth.{setup_timed_out, has_password, AuthManager}
use seawise_client.Frp.{FrpClient, ProcessState}
use seawise_client.Prelude.Bytes.{Bytes}
use seawise_client.Frp.Methods.{is_running}
use seawise_client.Connection.{Manager}
use seawise_client.Auth.Middleware.{cookie_session}
use seawise_client.Prelude.{
  ℕ, ◌-◌, Bool, true, false, ◌&&◌, Option, none, some, if◌then◌else◌, is_empty,
}
use mathlib.Core.Option
use seawise_client.Connection

-- GetStatus of the connection manager; the last heartbeat comes with its age.
pub record ConnectionStatus : Type 0 where
  pub state : Connection.State
  pub consecutive_fails : ℕ
  pub reconnect_attempt : ℕ
  pub last_heartbeat : Option (ℕ × ℕ)

unfoldable pub get_status : ℕ → Manager → ConnectionStatus
get_status now m = record {
  state = m.state;
  consecutive_fails = m.consecutive_fails;
  reconnect_attempt = m.reconnect_attempt;
  last_heartbeat = Option.map (λ t. (t, now - t)) m.last_heartbeat;
}

pub record FrpStatus : Type 0 where
  pub frp_state : ProcessState
  pub frp_running : Bool
  pub frp_crash_count : ℕ

pub record AccountStatus : Type 0 where
  pub server_id : Bytes
  pub server_name : Bytes
  pub user_id : Bytes
  pub user_email : Bytes

-- What only an authenticated caller gets.
pub record Details : Type 0 where
  pub pairing_code : Bytes
  pub connection : ConnectionStatus
  pub frp : Option FrpStatus
  pub account : Option AccountStatus

pub record StatusReply : Type 0 where
  pub pairing_state : PairingState
  pub default_hostname : Bytes
  pub version : Bytes
  pub password_set : Bool
  pub setup_timed_out : Bool
  pub authenticated : Bool
  pub latest_version : Option Bytes
  pub details : Option Details

unfoldable pub details_of : ℕ → Server → Details
unfolding get_status is_running
details_of now s = record {
  pairing_code = s.pairing_code;
  connection = get_status now s.manager;
  frp =
      Option.map
        (λ c. record {
          frp_state = c.state;
          frp_running = is_running c;
          frp_crash_count = c.crash_count;
        })
        s.frp;
  account =
      Option.map
        (λ a. record {
          server_id = a.server_id;
          server_name = a.server_name;
          user_id = a.user_id;
          user_email = a.user_email;
        })
        s.cfg;
}

-- Whether the caller is authenticated, and the manager after the check.
unfoldable pub is_authenticated : ℕ → Option Bytes → AuthManager → Bool × AuthManager
unfolding cookie_session
is_authenticated now cookie am =
    if has_password am then cookie_session cookie now am else (true, am)

-- `hostname` is what the environment or the system says.
unfoldable pub status_reply : Bytes → Bytes → ℕ → Bool → AuthManager → Server → StatusReply
unfolding details_of
status_reply version hostname now valid am s = record {
  pairing_state = s.pairing_state;
  default_hostname = hostname;
  version = version;
  password_set = has_password am;
  setup_timed_out = setup_timed_out now am;
  authenticated = valid;
  latest_version = if is_empty s.latest_version then none else some s.latest_version;
  details = if valid then some (details_of now s) else none;
}

unfoldable pub handle_status :
    Bytes → Bytes → ℕ → Option Bytes → AuthManager → Server → StatusReply × AuthManager
unfolding status_reply is_authenticated
handle_status version hostname now cookie am s =
    let (valid, am') = is_authenticated now cookie am in
    (status_reply version hostname now valid am' s, am')

abbrev is_paired : PairingState → Bool
is_paired paired = true
is_paired pending = false
is_paired no_pairing = false

unfoldable pub frp_runs : Option FrpClient → Bool
unfolding is_running
frp_runs none = false
frp_runs (some c) = is_running c

-- The status code, and whether it is paired and frp runs.
unfoldable pub handle_readyz : Server → ℕ × Bool × Bool
unfolding is_paired frp_runs
handle_readyz s =
    let ready = is_paired s.pairing_state in
    let runs = frp_runs s.frp in (if ready && runs then 200 else 503, ready, runs)
