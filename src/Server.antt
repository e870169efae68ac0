-- ===== src/Server.antt =====
-- cmd/seawise/server: the state that the parts share (server.go), and what happens on it. A
-- handler is one step on the state; a goroutine that it starts is noted in `spawned` and is a step
-- of its own. What a step takes from outside stands in `World`.
pub mod Starting
pub mod Beating
pub mod Polling
pub mod Apps
pub mod Recovering
pub mod Reporting
pub mod Steps
pub mod Frames
pub mod Restarts
pub mod Trust
pub mod Binding
pub mod Ending
pub mod Pairings
pub mod Health
pub mod Pacing
pub mod Adding
pub mod Lost
pub mod Certificates
pub mod Looping
pub mod Releasing
pub mod Upgrading
pub mod Tests
mod RunTests
use seawise_client.Prelude.{
  ℕ, Bool, true, false, not, ◌&&◌, ◌||◌, Option, none, some, List, [], ◌∷◌, ◌++◌, if◌then◌else◌,
}
use seawise_client.Prelude.Bytes.{Bytes, lit}
use seawise_client.Prelude.Dict.{Dict, empty}
use seawise_client.Connection.{
  State, connecting, connected, reconnecting, unpaired, Manager, Call, state_changed, unpair_called,
  same, set_state,
}
use seawise_client.Config.{Account, Disk, File, Write, Saving, save_config, delete_account}
use seawise_client.Services.{clear_server_registrations}
use seawise_client.Frp.{FrpClient, Launch, StartError, spawn_failed, start}
use seawise_client.Api.{Http, ApiClient}
use seawise_client.Api.Requests.{Decoders}

pub data PairingState : Type 0 where
  no_pairing pending paired : PairingState

-- A goroutine that a step starts.
pub data Task : Type 0 where
  checks_health handles_crash restarts_superseded reconciles registers_again : Task
  polls_for_approval cancels_remotely : Bytes → Task
  runs_loops : Task

-- `certs_enabled` says whether there is a certificate manager; `heartbeat_period` is that of the
-- heartbeat's ticker.
pub record Server : Type 0 where
  pub api : ApiClient
  pub cfg : Option Account
  pub frp : Option FrpClient
  pub manager : Manager
  pub certs_enabled : Bool
  pub e2e_tls_enabled : Bool
  pub pairing_code : Bytes
  pub pairing_device_code : Bytes
  pub pairing_state : PairingState
  pub latest_version : Bytes
  pub service_cache : Dict Bytes
  pub last_health_status : Dict Bytes
  pub reconcile_in_progress : Bool
  pub restart_in_progress : Bool
  pub loops_started : Bool
  pub heartbeat_period : ℕ
  pub disk : Disk
  pub spawned : List Task

-- What the certificate store and the key generation answer for a domain: whether there is a
-- certificate, whether it has to be renewed, its paths, a signing request for a fresh key, and the
-- paths once the key and the certificate are saved.
pub record Certs : Type 0 where
  pub cert_exists : Bytes → Bool
  pub needs_renewal : Bytes → Bool
  pub cert_paths : Bytes → Option (Bytes × Bytes)
  pub signing_request : Bytes → Option Bytes
  pub saved_paths : Bytes → Bytes → Option (Bytes × Bytes)

-- `vetted` is the resolved host check; `domains` are the trusted ones; the last fields are the
-- environment and the build.
pub record World : Type 0 where
  pub http : Http
  pub decoders : Decoders
  pub now : ℕ
  pub vetted : Bytes → Bool
  pub launch : Launch
  pub found_frpc : Option Bytes
  pub found_config : Bool
  pub config_stays : Bool
  pub saving : Saving
  pub account_goes : Bool
  pub certs : Certs
  pub makes_certs_dir : Bool
  pub domains : List Bytes
  pub frp_addr_env : Bytes
  pub subdomain_env : Bytes
  pub is_dev : Bool
  pub version : Bytes

unfoldable pub spawn : Task → Server → Server
spawn t s = record s { spawned = s.spawned ++ t ∷ [] }

module _ (w : World) where
  -- handleUnpairInternal
  unfoldable pub handle_unpair_internal : Server → Server
  unfolding delete_account clear_server_registrations
  handle_unpair_internal s = record s {
    frp = none;
    disk = record s.disk {
      account = (delete_account w.account_goes s.disk.account).1;
      machine = (clear_server_registrations w.saving.machine_write s.disk.machine).1;
    };
    cfg = none;
    pairing_state = no_pairing;
    pairing_code = [];
    pairing_device_code = [];
  }

  -- The callback for state changes that `run` sets.
  unfoldable pub on_state_change : State → State → Server → Server
  unfolding spawn
  on_state_change old new s =
      if same new connected && (same old reconnecting || same old connecting)
      then spawn checks_health (record s { last_health_status = empty })
      else s

  -- The callbacks that a call of the manager makes.
  unfoldable pub run_callbacks : List Call → Server → Server
  unfolding on_state_change handle_unpair_internal
  run_callbacks [] s = s
  run_callbacks (state_changed old new ∷ calls) s = run_callbacks calls (on_state_change old new s)
  run_callbacks (unpair_called ∷ calls) s = run_callbacks calls (handle_unpair_internal s)

  -- A call of a method of the manager, with its callbacks.
  unfoldable pub managed : (Manager → Manager × List Call) → Server → Server
  unfolding run_callbacks
  managed f s = let (m, calls) = f s.manager in run_callbacks calls (record s { manager = m })

  unfoldable pub set_connection : State → Server → Server
  unfolding managed set_state
  set_connection new s = managed (set_state new) s

  -- The callback of the frp client: a process that could not be spawned has crashed.
  unfoldable pub after_start : Option StartError → Server → Server
  unfolding set_connection spawn
  after_start none s = s
  after_start (some spawn_failed) s = spawn handles_crash (set_connection reconnecting s)
  after_start (some e) s = s

  -- s.cfg.Save with the config already replaced, and whether it succeeds.
  unfoldable pub save_cfg : Account → Server → Bool × Server
  unfolding save_config
  save_cfg c s =
      let (e, disk) = save_config w.saving c s.disk in
      (elim e [ none ↦ true | some err ↦ false ], record s { cfg = some c; disk = disk })
