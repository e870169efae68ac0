-- ===== src/Server/Looping.antt =====
-- The heartbeat loop and the update check of cmd/seawise/server/heartbeat.go, and the start and the
-- end of `run` in server.go.
use seawise_client.Config.{Disk, Error, Account}
use seawise_client.Prelude.{
  ℕ, Bool, true, false, not, ◌&&◌, ◌||◌, Option, none, some, List, [], ◌∷◌, eqb, if◌then◌else◌,
  is_empty,
}
use seawise_client.Prelude.Bytes.{has_prefix, lit, ◌==◌, Bytes}
use seawise_client.Config.Migrate.{Outcomes, migrate_legacy}
use seawise_client.Frp.{crashed, ProcessState, stopped, starting, running, stop}
use seawise_client.Server.Starting.{start_paired}
use seawise_client.Api.Registry.{mark_offline}
use seawise_client.Server.Recovering.{begin_recovery, finish_recovery, end_recovery}
use seawise_client.Server.Beating.{send_heartbeat}
use mathlib.Core.Option
use seawise_client.Api.{Request}
use seawise_client.Server.{Server, World}

abbrev pub is_crashed : ProcessState → Bool
is_crashed crashed = true
is_crashed stopped = false
is_crashed starting = false
is_crashed running = false

unfoldable pub has_crashed : Server → Bool
has_crashed s = elim s.frp [ none ↦ false | some c ↦ is_crashed c.state ]

-- What a recovery meets at its wait: the steps of other goroutines during it, whether the shutdown
-- ends it, and the world after it.
pub record Waiting : Type 0 where
  pub meanwhile : Server → Server
  pub interrupted : Bool
  pub later : World

-- The wait and the rest of handleFRPCrash, for the binding it has captured.
unfoldable pub after_wait : Waiting → Option Account → Server → Server
unfolding finish_recovery end_recovery
after_wait wait none s = end_recovery s
after_wait wait (some c) s =
    if wait.interrupted
    then end_recovery (wait.meanwhile s)
    else end_recovery (finish_recovery wait.later c (wait.meanwhile s))

-- handleFRPCrash to its end.
unfoldable pub handle_frp_crash : World → (ℕ → ℕ → ℕ) → ℕ → Waiting → Server → Server
unfolding begin_recovery after_wait
handle_frp_crash w spread word wait s =
    let (delay, s') = begin_recovery w spread word s in
    elim delay [ none ↦ s' | some d ↦ after_wait wait s.cfg s' ]

-- One tick of the loop: a heartbeat, and then the whole recovery of a client that has crashed.
unfoldable pub heartbeat_tick : World → (ℕ → ℕ → ℕ) → ℕ → Waiting → Server → Server
unfolding send_heartbeat has_crashed handle_frp_crash
heartbeat_tick w spread word wait s =
    let s' = send_heartbeat w s in
    if has_crashed s' then handle_frp_crash w spread word wait s' else s'

-- What the request for the newest release gives: a status, and the tag if the body is decoded.
unfoldable pub fetch_latest_version : Bytes → Option (ℕ × Option Bytes) → Server → Server
fetch_latest_version version none s = s
fetch_latest_version version (some (status, none)) s = s
fetch_latest_version version (some (status, some tag)) s =
    if eqb status 200 && not (is_empty tag) && not (tag == version)
    then record s { latest_version = tag }
    else s

unfoldable pub is_dev_version : Bytes → Bool
is_dev_version version = version == lit "dev" || has_prefix version (lit "dev-")

-- checkForUpdates over the fetches that its timers start before the shutdown.
unfoldable pub check_for_updates : Bytes → List (Option (ℕ × Option Bytes)) → Server → Server
unfolding is_dev_version fetch_latest_version
check_for_updates version [] s = s
check_for_updates version (answer ∷ answers) s =
    let rest = check_for_updates version answers (fetch_latest_version version answer s) in
    if is_dev_version version then s else rest

-- The end of `run`: the server is told, and frpc is stopped.
unfoldable pub shut_down : World → Server → Server × List Request
unfolding mark_offline stop
shut_down w s = (
  record s { frp = Option.map stop s.frp },
  (elim s.cfg [ none ↦ [] | some c ↦ (mark_offline w.http c.server_id s.api).1 ]),
)

unfoldable pub after_migration : World → Server → Option Error × Disk → Option Server
unfolding start_paired
after_migration w s (some why, disk) = none
after_migration w s (none, disk) = some (start_paired w (record s { disk = disk }))

-- The start of `run` from the migration on; `none` is a refusal to start.
unfoldable pub start_program : Outcomes → World → Server → Option Server
unfolding migrate_legacy after_migration
start_program m w s = after_migration w s (migrate_legacy m s.disk)
