-- ===== src/Server/Trust/Steps.antt =====
-- The addresses and hosts of the frp client over every step of cmd/seawise/server.
use seawise_client.Server.Steps.{
  boots, reconciles, gives_up_pairing, ends_recovery, reports_health, begins_recovery, registers,
  recovers, unpairs, deletes, enables, adds, cancels_pairing, polls, starts_pairing, crashes,
  run_steps, restarts, Step, run_step, beats, syncs,
}
use seawise_client.Server.Trust.Booting.{start_paired-IsSafe}
use seawise_client.Server.Trust.Recovering.{
  check_and_report_health-IsSafe, begin_recovery-IsSafe, run_registration-IsSafe,
  finish_recovery-IsSafe, run_reconcile-IsSafe, handle_unpair-IsSafe, observe_crash-IsSafe,
  restart_superseded-IsSafe, sync_server_services-IsSafe,
}
use seawise_client.Server.Trust.Apps.{
  handle_delete_service-IsSafe, handle_enable_service-IsSafe, handle_add_service-IsSafe,
}
use seawise_client.Server.{Server}
use seawise_client.Server.Trust.Pairing.{
  handle_pair_cancel-IsSafe, poll_tick-IsSafe, handle_pair_start-IsSafe,
}
use seawise_client.Server.Trust.Beating.{send_heartbeat-IsSafe}
use seawise_client.Server.Recovering.{end_recovery}
use seawise_client.Server.Polling.{reset_pairing}
use seawise_client.Prelude.{Bool, List, [], ◌∷◌, All}
use seawise_client.Prelude.Bytes.{Bytes}
use seawise_client.Server.Trust.{Sound, IsSafe}

-- The tests of the worlds of a step are sound.
abbrev pub SoundStep : (p q : Bytes → Bool) → Step → Type 0
SoundStep p q (boots w) = Sound p q w
SoundStep p q (beats w) = Sound p q w
SoundStep p q (syncs w) = Sound p q w
SoundStep p q (restarts w) = Sound p q w
SoundStep p q (crashes w) = Sound p q w
SoundStep p q (starts_pairing w error_text method body) = Sound p q w
SoundStep p q (polls w device_code) = Sound p q w
SoundStep p q (cancels_pairing w method) = Sound p q w
SoundStep p q gives_up_pairing = Unit
SoundStep p q (adds w method local_id body) = Sound p q w
SoundStep p q (enables w method body) = Sound p q w
SoundStep p q (deletes w method body) = Sound p q w
SoundStep p q (unpairs w method) = Sound p q w
SoundStep p q (reconciles w c) = Sound p q w
SoundStep p q (recovers w c) = Sound p q w
SoundStep p q (registers w server_id) = Sound p q w
SoundStep p q (begins_recovery w spread word) = Sound p q w
SoundStep p q ends_recovery = Unit
SoundStep p q (reports_health w dials has_cache) = Sound p q w

module _ (p q : Bytes → Bool) where
  run_step-IsSafe :
      (x : Step) (s : Server) → SoundStep p q x → IsSafe p q s.frp → IsSafe p q (run_step x s).frp
  unfolding run_step reset_pairing end_recovery
  run_step-IsSafe (boots w) s sound h = start_paired-IsSafe p q w sound s h
  run_step-IsSafe (beats w) s sound h = send_heartbeat-IsSafe p q w sound s h
  run_step-IsSafe (syncs w) s sound h = sync_server_services-IsSafe p q w sound s h
  run_step-IsSafe (restarts w) s sound h = restart_superseded-IsSafe p q w sound s h
  run_step-IsSafe (crashes w) s sound h = observe_crash-IsSafe p q w sound s h
  run_step-IsSafe (starts_pairing w error_text method body) s sound h =
      handle_pair_start-IsSafe p q w sound error_text method body s h
  run_step-IsSafe (polls w device_code) s sound h = poll_tick-IsSafe p q w sound device_code s h
  run_step-IsSafe (cancels_pairing w method) s sound h =
      handle_pair_cancel-IsSafe p q w sound method s h
  run_step-IsSafe gives_up_pairing s sound h = h
  run_step-IsSafe (adds w method local_id body) s sound h =
      handle_add_service-IsSafe p q w sound method local_id body s h
  run_step-IsSafe (enables w method body) s sound h =
      handle_enable_service-IsSafe p q w sound method body s h
  run_step-IsSafe (deletes w method body) s sound h =
      handle_delete_service-IsSafe p q w sound method body s h
  run_step-IsSafe (unpairs w method) s sound h = handle_unpair-IsSafe p q w sound method s h
  run_step-IsSafe (reconciles w c) s sound h = run_reconcile-IsSafe p q w sound c s h
  run_step-IsSafe (recovers w c) s sound h = finish_recovery-IsSafe p q w sound c s h
  run_step-IsSafe (registers w server_id) s sound h =
      run_registration-IsSafe p q w sound server_id s h
  run_step-IsSafe (begins_recovery w spread word) s sound h =
      begin_recovery-IsSafe p q w sound spread word s h
  run_step-IsSafe ends_recovery s sound h = h
  run_step-IsSafe (reports_health w dials has_cache) s sound h =
      check_and_report_health-IsSafe p q w sound dials has_cache s h

-- If each step's tests let only addresses through that meet p and only hosts that meet q, and the
-- operator's fallback address meets p, then whatever the sequence of steps, the frp client of the
-- server is configured for an address that meets p, and the host of each of its services meets q,
-- provided that this holds of the client it starts with, if it has one.
pub run_steps-IsSafe :
    (p q : Bytes → Bool) (xs : List Step) (s : Server)
    → All (SoundStep p q) xs
    → IsSafe p q s.frp
    → IsSafe p q (run_steps xs s).frp
unfolding run_steps
run_steps-IsSafe p q [] s sounds h = h
run_steps-IsSafe p q (x ∷ xs) s (sound, sounds) h =
    run_steps-IsSafe p q xs (run_step x s) sounds (run_step-IsSafe p q x s sound h)
