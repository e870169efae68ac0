-- ===== src/Server/Recovering.antt =====
-- The goroutines of cmd/seawise/server/service_lifecycle.go and heartbeat.go that bring tunnels
-- back or up to date: after a crash, after a superseded connection, and at each reconciliation.
use seawise_client.Frp.{StartError, FrpClient, crash, start, stop, sync_services}
use seawise_client.Prelude.{ℕ, true, false, Option, none, some, List, if◌then◌else◌}
use seawise_client.Prelude.Bytes.{Bytes}
use seawise_client.Prelude.Dict.{empty}
use seawise_client.Connection.{
  reconnecting, connected, unpaired, same, calculate_backoff, reset_backoff,
}
use seawise_client.Config.{Account}
use seawise_client.Services.Registration.{
  register_local_services, reconcile_machine_services_with_server,
}
use seawise_client.Services.Tunnels.{TunnelService}
use seawise_client.Frp.Methods.{reset_connection_id, reset_crash_count}
use seawise_client.Server.{spawn, handles_crash, Server, World, set_connection, after_start}
use seawise_client.Server.Starting.{desired_tunnels, load_tunnels}
use seawise_client.Server.Polling.{services_client}

module _ (w : World) where
  -- syncServices of the server: the tunnels become those that are wanted.
  unfoldable pub sync_server_services : Server → Server
  unfolding desired_tunnels sync_services after_start
  sync_server_services s = elim s.cfg [
    | none ↦ s
    | some c ↦ elim s.frp [
      | none ↦ s
      | some client ↦
          let (tunnels, s') = desired_tunnels w c.server_id s in
          elim tunnels [
            | none ↦ s'
            | some ts ↦
                let ((differs, e), client') = sync_services w.vetted w.launch ts client in
                after_start w e (record s' { frp = some client' })
          ]
    ]
  ]

  -- The goroutine that a successful heartbeat starts; the changes of the file during its calls are
  -- steps of their own.
  unfoldable pub run_reconcile : Account → Server → Server
  unfolding reconcile_machine_services_with_server services_client sync_server_services
  run_reconcile c s =
      let ((dropped, e), machine) =
        reconcile_machine_services_with_server w.saving.machine_write w.saving.machine_write
          (λ f. f) (λ f. f) (some (services_client w c.server_id s)) s.disk.machine in
      let s' : Server = record s {
        disk = record s.disk { machine = machine };
        reconcile_in_progress = false;
      } in
      elim e [ some why ↦ s' | none ↦ if dropped then sync_server_services s' else s' ]

  -- The goroutine of a service that was enabled.
  unfoldable pub run_registration : Bytes → Server → Server
  unfolding register_local_services services_client sync_server_services
  run_registration server_id s =
      let (e, machine) =
        register_local_services w.saving.machine_write (λ f. f)
          (some (services_client w server_id s)) s.disk.machine in
      let s' : Server = record s { disk = record s.disk { machine = machine } } in
      elim e [ some why ↦ s' | none ↦ sync_server_services s' ]

  -- The goroutine of a superseded heartbeat, after its delay. The client is the one it captured:
  -- once the server has dropped it, it is closed, and starting it does nothing.
  unfoldable pub restart_superseded : Server → Server
  unfolding start after_start
  restart_superseded s = elim s.cfg [
    | none ↦ s
    | some c ↦ elim s.frp [
      | none ↦ s
      | some client ↦
          let (e, client') = start w.launch client in
          after_start w e (record s { frp = some client' })
    ]
  ]

  -- The frpc process exits by itself, and the callback of the client runs.
  unfoldable pub observe_crash : Server → Server
  unfolding spawn set_connection crash
  observe_crash s = elim s.frp [
    | none ↦ s
    | some client ↦
        spawn handles_crash (set_connection w reconnecting (record s { frp = some (crash client) }))
  ]

  -- handleFRPCrash up to its wait: the delay, if it waits at all. `spread` and `word` are the
  -- jitter of the backoff.
  unfoldable pub begin_recovery : (ℕ → ℕ → ℕ) → ℕ → Server → Option ℕ × Server
  unfolding calculate_backoff
  begin_recovery spread word s = if s.restart_in_progress then (none, s) else elim s.frp [
    | none ↦ (none, s)
    | some client ↦ elim s.cfg [
      | none ↦ (none, s)
      | some c ↦
          let (m, delay) = calculate_backoff spread word s.manager in
          (some delay, record s { manager = m; restart_in_progress = true })
    ]
  ]

  -- After a restart, what a success changes; the client is given with its crashes forgotten.
  unfoldable pub recovered : Option StartError → FrpClient → Server → Server
  unfolding reset_backoff set_connection
  recovered (some why) client s = s
  recovered none client s =
      record (set_connection w connected
        (record s { manager = reset_backoff s.manager; frp = some client })) {
          last_health_status = empty;
        }

  -- The client that is restarted with the tunnels that are wanted.
  unfoldable pub recover_client : Option (List TunnelService) → FrpClient → Server → Server
  unfolding load_tunnels reset_connection_id stop start after_start reset_crash_count recovered
  recover_client tunnels client s =
      let (e, client') =
        start w.launch (reset_connection_id (stop (load_tunnels w tunnels client))) in
      recovered e (reset_crash_count client') (after_start w e (record s { frp = some client' }))

  -- The rest, after the wait, up to the release of the flag. A server that was unpaired meanwhile
  -- has closed the client.
  unfoldable pub finish_recovery : Account → Server → Server
  unfolding desired_tunnels recover_client
  finish_recovery c s =
      if same s.manager.state unpaired
      then s
      else (let (tunnels, s') = desired_tunnels w c.server_id s in
          elim s'.frp [ none ↦ s' | some client ↦ recover_client tunnels client s' ])

-- The deferred release. The goroutine of a crash that the restart itself meets may run before it.
unfoldable pub end_recovery : Server → Server
end_recovery s = record s { restart_in_progress = false }
