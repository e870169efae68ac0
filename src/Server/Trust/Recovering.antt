-- ===== src/Server/Trust/Recovering.antt =====
-- The addresses and hosts of the frp client over the recoveries, the
-- synchronisation and the health report of cmd/seawise/server/service_lifecycle.go.
use seawise_client.Prelude.{
  ℕ, Bool, false, not, ◌||◌, Option, none, some, List, ℤ, is_empty, case_some, case_if,
}
use seawise_client.Api.{case_result}
use seawise_client.Server.{
  after_start, reconnecting, connected, unpaired, same, handle_unpair_internal, spawn, Account,
  World, Server,
}
use seawise_client.Server.Trust.{
  load_tunnels-IsSafe, sync_services-IsSafe, start-IsSafe, load_tunnels, TunnelService,
  after_start-Keeps, set_connection-Keeps, Keeps-IsSafe, desired_tunnels, SafeClient, IsSafeAfter,
  IsSafeServer, Sound, IsSafe,
}
use seawise_client.Connection.{reset_backoff}
use seawise_client.Api.Registry.{report_service_health}
use seawise_client.Frp.{sync_services, start, stop, crash, StartError, FrpClient}
use seawise_client.Server.Frames.{desired_tunnels-Keeps}
use seawise_client.Frp.Methods.{reset_crash_count, reset_connection_id}
use seawise_client.Server.Reporting.{check_services, check_and_report_health}
use seawise_client.Server.Trust.Beating.{the_client}
use seawise_client.Server.Polling.{services_client}
use seawise_client.Services.Registration.{
  reconcile_machine_services_with_server, register_local_services,
}
use seawise_client.Server.Recovering.{
  recovered, restart_superseded, run_reconcile, finish_recovery, recover_client, run_registration,
  begin_recovery, observe_crash, sync_server_services,
}
use seawise_client.Server.Apps.{handle_unpair}
use seawise_client.Prelude.Bytes.{Bytes, lit, ◌==◌}

module _ (p q : Bytes → Bool) (w : World) (sound : Sound p q w) where
  pub sync_server_services-IsSafe :
      (s : Server) → IsSafe p q s.frp → IsSafe p q (sync_server_services w s).frp
  unfolding sync_server_services
  sync_server_services-IsSafe s h = case_some (IsSafeServer p q) s.cfg h (λ c set.
      case_some (IsSafeServer p q) s.frp h (λ client e.
        let out = desired_tunnels w c.server_id s in
        let kept = Keeps-IsSafe p q w sound (desired_tunnels-Keeps w c.server_id s) h in
        case_some (IsSafeServer p q) out.0 kept (λ ts e'.
          let done = sync_services w.vetted w.launch ts client in
          let s' : Server = record out.1 { frp = some done.1 } in
          Keeps-IsSafe p q w sound (after_start-Keeps w done.0.1 s')
            (sync_services-IsSafe p q w sound ts client (the_client p q w sound s client e h)))))

  pub run_reconcile-IsSafe :
      (c : Account) (s : Server) → IsSafe p q s.frp → IsSafe p q (run_reconcile w c s).frp
  unfolding run_reconcile
  run_reconcile-IsSafe c s h =
      let done =
        reconcile_machine_services_with_server w.saving.machine_write w.saving.machine_write
          (λ f. f) (λ f. f) (some (services_client w c.server_id s)) s.disk.machine in
      let s' : Server = record s {
        disk = record s.disk { machine = done.1 };
        reconcile_in_progress = false;
      } in
      case_some (IsSafeServer p q) done.0.1
        (case_if (IsSafeServer p q) done.0.0 (λ e. sync_server_services-IsSafe s' h) (λ e. h))
        (λ why e. h)

  pub run_registration-IsSafe :
      (server_id : Bytes) (s : Server)
      → IsSafe p q s.frp
      → IsSafe p q (run_registration w server_id s).frp
  unfolding run_registration
  run_registration-IsSafe server_id s h =
      let done =
        register_local_services w.saving.machine_write (λ f. f)
          (some (services_client w server_id s)) s.disk.machine in
      let s' : Server = record s { disk = record s.disk { machine = done.1 } } in
      case_some (IsSafeServer p q) done.0 (sync_server_services-IsSafe s' h) (λ why e. h)

  pub restart_superseded-IsSafe :
      (s : Server) → IsSafe p q s.frp → IsSafe p q (restart_superseded w s).frp
  unfolding restart_superseded
  restart_superseded-IsSafe s h = case_some (IsSafeServer p q) s.cfg h (λ c set.
      case_some (IsSafeServer p q) s.frp h (λ client e.
        let done = start w.launch client in
        let s' : Server = record s { frp = some done.1 } in
        Keeps-IsSafe p q w sound (after_start-Keeps w done.0 s')
          (start-IsSafe p q w.launch client (the_client p q w sound s client e h))))

  pub observe_crash-IsSafe : (s : Server) → IsSafe p q s.frp → IsSafe p q (observe_crash w s).frp
  unfolding observe_crash spawn crash
  observe_crash-IsSafe s h = case_some (IsSafeServer p q) s.frp h (λ client e.
      let s' : Server = record s { frp = some (crash client) } in
      Keeps-IsSafe p q w sound (set_connection-Keeps w reconnecting s')
        (the_client p q w sound s client e h))

  pub begin_recovery-IsSafe :
      (spread : ℕ → ℕ → ℕ) (word : ℕ) (s : Server)
      → IsSafe p q s.frp
      → IsSafe p q (begin_recovery w spread word s).1.frp
  unfolding begin_recovery
  begin_recovery-IsSafe spread word s h =
      case_if (IsSafeAfter p q) s.restart_in_progress (λ e. h)
        (λ e.
          case_some (IsSafeAfter p q) s.frp h
            (λ client e'. case_some (IsSafeAfter p q) s.cfg h (λ c set. h)))

  recovered-IsSafe :
      (e : Option StartError) (client : FrpClient) (s : Server)
      → SafeClient p q client
      → IsSafe p q s.frp
      → IsSafe p q (recovered w e client s).frp
  unfolding recovered
  recovered-IsSafe (some why) client s safe h = h
  recovered-IsSafe none client s safe h =
      Keeps-IsSafe p q w sound
        (set_connection-Keeps w connected
          (record s { manager = reset_backoff s.manager; frp = some client }))
        safe

  recover_client-IsSafe :
      (tunnels : Option (List TunnelService)) (client : FrpClient) (s : Server)
      → SafeClient p q client
      → IsSafe p q (recover_client w tunnels client s).frp
  unfolding recover_client reset_connection_id stop reset_crash_count
  recover_client-IsSafe tunnels client s safe =
      let ready = reset_connection_id (stop (load_tunnels w tunnels client)) in
      let done = start w.launch ready in
      let s' : Server = record s { frp = some done.1 } in
      let good : SafeClient p q done.1 =
        start-IsSafe p q w.launch ready (load_tunnels-IsSafe p q w sound tunnels client safe) in
      recovered-IsSafe done.0 (reset_crash_count done.1) (after_start w done.0 s') good
        (Keeps-IsSafe p q w sound (after_start-Keeps w done.0 s') good)

  pub finish_recovery-IsSafe :
      (c : Account) (s : Server) → IsSafe p q s.frp → IsSafe p q (finish_recovery w c s).frp
  unfolding finish_recovery
  finish_recovery-IsSafe c s h =
      case_if (IsSafeServer p q) (same s.manager.state unpaired) (λ e. h)
        (λ e.
          let s' = (desired_tunnels w c.server_id s).1 in
          let kept = Keeps-IsSafe p q w sound (desired_tunnels-Keeps w c.server_id s) h in
          case_some (IsSafeServer p q) s'.frp kept (λ client e'.
            recover_client-IsSafe (desired_tunnels w c.server_id s).0 client s'
              (the_client p q w sound s' client e' kept)))

  pub handle_unpair-IsSafe :
      (method : Bytes) (s : Server) → IsSafe p q s.frp → IsSafe p q (handle_unpair w method s).1.frp
  unfolding handle_unpair handle_unpair_internal
  handle_unpair-IsSafe method s h =
      case_if (IsSafeAfter p q) (not (method == lit "POST")) (λ e. h) (λ e. tt)

  pub check_and_report_health-IsSafe :
      (dials : Bytes → ℤ → Bool) (has_cache : Bool) (s : Server)
      → IsSafe p q s.frp
      → IsSafe p q (check_and_report_health w dials has_cache s).1.frp
  unfolding check_and_report_health
  check_and_report_health-IsSafe dials has_cache s h = case_some (IsSafeAfter p q) s.cfg h (λ c set.
      case_some (IsSafeAfter p q) s.frp h (λ client e.
        case_if (IsSafeAfter p q) (is_empty client.services || not has_cache) (λ e'. h)
          (λ e'.
            let out = check_services dials s.service_cache client.services s.last_health_status in
            case_if (IsSafeAfter p q) (is_empty out.0) (λ e''. h)
              (λ e''.
                case_result (IsSafeAfter p q)
                  (report_service_health w.http c.server_id out.0 s.api).0 (λ u r. h)
                  (λ why r. h)))))
