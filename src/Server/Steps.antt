-- ===== src/Server/Steps.antt =====
-- The steps on the state of the server, of cmd/seawise/server: the start of the program, the handlers of
-- the web UI that change it, the heartbeats, and the goroutines that these start.
use seawise_client.Server.Starting.{start_paired}
use seawise_client.Prelude.{ℕ, Bool, Option, List, [], ◌∷◌, ℤ}
use seawise_client.Prelude.Bytes.{Bytes}
use seawise_client.Auth.Handlers.{Body}
use seawise_client.Config.{Account}
use seawise_client.Api.{ApiError}
use seawise_client.Server.{Server, World}
use seawise_client.Server.Beating.{send_heartbeat}
use seawise_client.Server.Polling.{reset_pairing, handle_pair_start, poll_tick, handle_pair_cancel}
use seawise_client.Server.Apps.{
  NewApp, handle_add_service, handle_enable_service, handle_delete_service, handle_unpair,
}
use seawise_client.Server.Recovering.{
  sync_server_services, run_reconcile, run_registration, restart_superseded, observe_crash,
  begin_recovery, finish_recovery, end_recovery,
}
use seawise_client.Server.Reporting.{check_and_report_health}

pub data Step : Type 0 where
  boots beats syncs restarts crashes : World → Step
  starts_pairing : World → (ApiError → Bytes) → Bytes → Body Bytes → Step
  polls : World → Bytes → Step
  cancels_pairing : World → Bytes → Step
  gives_up_pairing : Step
  adds : World → Bytes → Option Bytes → Body NewApp → Step
  enables : World → Bytes → Body Bytes → Step
  deletes : World → Bytes → Body (Bytes × Bytes) → Step
  unpairs : World → Bytes → Step
  reconciles recovers : World → Account → Step
  registers : World → Bytes → Step
  begins_recovery : World → (ℕ → ℕ → ℕ) → ℕ → Step
  ends_recovery : Step
  reports_health : World → (Bytes → ℤ → Bool) → Bool → Step

unfoldable pub run_step : Step → Server → Server
run_step (boots w) s = start_paired w s
run_step (beats w) s = send_heartbeat w s
run_step (syncs w) s = sync_server_services w s
run_step (restarts w) s = restart_superseded w s
run_step (crashes w) s = observe_crash w s
run_step (starts_pairing w error_text method body) s =
    (handle_pair_start w error_text method body s).1
run_step (polls w device_code) s = (poll_tick w device_code s).1
run_step (cancels_pairing w method) s = (handle_pair_cancel w method s).1
run_step gives_up_pairing s = reset_pairing s
run_step (adds w method local_id body) s = (handle_add_service w method local_id body s).1
run_step (enables w method body) s = (handle_enable_service w method body s).1
run_step (deletes w method body) s = (handle_delete_service w method body s).1
run_step (unpairs w method) s = (handle_unpair w method s).1
run_step (reconciles w c) s = run_reconcile w c s
run_step (recovers w c) s = finish_recovery w c s
run_step (registers w server_id) s = run_registration w server_id s
run_step (begins_recovery w spread word) s = (begin_recovery w spread word s).1
run_step ends_recovery s = end_recovery s
run_step (reports_health w dials has_cache) s = (check_and_report_health w dials has_cache s).1

unfoldable pub run_steps : List Step → Server → Server
unfolding run_step
run_steps [] s = s
run_steps (x ∷ xs) s = run_steps xs (run_step x s)
