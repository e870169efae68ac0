-- ===== src/Server/Frames.antt =====
-- What the small steps of cmd/seawise/server leave alone.
use seawise_client.Api.{Result-cases}
use seawise_client.Prelude.{
  ℕ, zero, suc, ◌≡◌, refl, inl, inr, Option, none, some, arith, ℤ, pos, negsuc, Option-cases,
}
use seawise_client.Auth.Handlers.{Body, too_large, malformed, parsed}
use seawise_client.Server.Beating.{start_reconcile, reset_ticker, clear_after_gap, clear_if_started}
use seawise_client.Connection.{
  connected, State, reconnecting, set_state, heartbeat_ok, heartbeat_failed, count_failure,
}
use seawise_client.Server.Starting.{connect_or_not, start_background_loops, desired_tunnels}
use seawise_client.Frp.{
  StartError, client_closed, id_failed, config_failed, frpc_not_found, spawn_failed,
}
use seawise_client.Server.{
  Server, World, spawn, on_state_change, run_callbacks, managed, set_connection, after_start,
}
use seawise_client.Prelude.Bytes.{Bytes}
use seawise_client.Config.{load}
use seawise_client.Api.Registry.{list_services}

-- The client, the binding, the files, the API client and the states of the pairing and of the
-- recovery are the same.
pub record Keeps (s t : Server) : Type 0 where
  pub same_frp : t.frp ≡ s.frp
  pub same_cfg : t.cfg ≡ s.cfg
  pub same_disk : t.disk ≡ s.disk
  pub same_api : t.api ≡ s.api
  pub same_pairing : t.pairing_state ≡ s.pairing_state
  pub same_restart : t.restart_in_progress ≡ s.restart_in_progress

Keeps-refl : (s : Server) → Keeps s s
Keeps-refl s = record {
  same_frp = refl;
  same_cfg = refl;
  same_disk = refl;
  same_api = refl;
  same_pairing = refl;
  same_restart = refl;
}

pub case_body :
    {A B : Type 0} (P : B → Type 0) (b : Body A) {s t : B} {f : A → B}
    → P s
    → P t
    → ((a : A) → b ≡ parsed a → P (f a))
    → P (elim b [ too_large ↦ s | malformed ↦ t | parsed a ↦ f a ])
case_body P too_large h k l = h
case_body P malformed h k l = k
case_body P (parsed a) h k l = l a refl

module _ (w : World) where
  pub on_state_change-Keeps : (old new : State) (s : Server) → Keeps s (on_state_change w old new s)
  unfolding on_state_change spawn
  on_state_change-Keeps old new s = record {
    same_frp = ground arith;
    same_cfg = ground arith;
    same_disk = ground arith;
    same_api = ground arith;
    same_pairing = ground arith;
    same_restart = ground arith;
  }

  pub set_connection-Keeps : (new : State) (s : Server) → Keeps s (set_connection w new s)
  unfolding set_connection managed set_state run_callbacks on_state_change spawn
  set_connection-Keeps new s = record {
    same_frp = ground arith;
    same_cfg = ground arith;
    same_disk = ground arith;
    same_api = ground arith;
    same_pairing = ground arith;
    same_restart = ground arith;
  }

  pub heartbeat_ok-Keeps : (now : ℕ) (s : Server) → Keeps s (managed w (heartbeat_ok now) s)
  unfolding managed heartbeat_ok run_callbacks on_state_change spawn
  heartbeat_ok-Keeps now s = record {
    same_frp = ground arith;
    same_cfg = ground arith;
    same_disk = ground arith;
    same_api = ground arith;
    same_pairing = ground arith;
    same_restart = ground arith;
  }

  pub heartbeat_failed-Keeps : (s : Server) → Keeps s (managed w heartbeat_failed s)
  unfolding managed heartbeat_failed count_failure set_state run_callbacks on_state_change spawn
  heartbeat_failed-Keeps s = record {
    same_frp = ground arith;
    same_cfg = ground arith;
    same_disk = ground arith;
    same_api = ground arith;
    same_pairing = ground arith;
    same_restart = ground arith;
  }

  pub after_start-Keeps : (e : Option StartError) (s : Server) → Keeps s (after_start w e s)
  unfolding after_start spawn
  after_start-Keeps none s = Keeps-refl s
  after_start-Keeps (some spawn_failed) s =
      let k = set_connection-Keeps reconnecting s in
      record {
        same_frp = k.same_frp;
        same_cfg = k.same_cfg;
        same_disk = k.same_disk;
        same_api = k.same_api;
        same_pairing = k.same_pairing;
        same_restart = k.same_restart;
      }
  after_start-Keeps (some client_closed) s = Keeps-refl s
  after_start-Keeps (some id_failed) s = Keeps-refl s
  after_start-Keeps (some config_failed) s = Keeps-refl s
  after_start-Keeps (some frpc_not_found) s = Keeps-refl s

  pub desired_tunnels-Keeps :
      (server_id : Bytes) (s : Server) → Keeps s (desired_tunnels w server_id s).1
  unfolding desired_tunnels
  desired_tunnels-Keeps server_id s =
      elim (Result-cases (list_services w.http w.decoders.registry server_id s.api).0) [
        | inl (services, listed) ↦ elim (Option-cases (load s.disk.machine)) [
          | inl unread ↦ record {
            same_frp = ground arith;
            same_cfg = ground arith;
            same_disk = ground arith;
            same_api = ground arith;
            same_pairing = ground arith;
            same_restart = ground arith;
          }
          | inr (m, loaded) ↦ record {
            same_frp = ground arith;
            same_cfg = ground arith;
            same_disk = ground arith;
            same_api = ground arith;
            same_pairing = ground arith;
            same_restart = ground arith;
          }
        ]
        | inr (e, unlisted) ↦ record {
          same_frp = ground arith;
          same_cfg = ground arith;
          same_disk = ground arith;
          same_api = ground arith;
          same_pairing = ground arith;
          same_restart = ground arith;
        }
      ]

  pub connect_or_not-Keeps : (e : Option StartError) (s : Server) → Keeps s (connect_or_not w e s)
  unfolding connect_or_not
  connect_or_not-Keeps none s = set_connection-Keeps connected s
  connect_or_not-Keeps (some why) s = set_connection-Keeps reconnecting s

  pub clear_if_started-Keeps :
      (e : Option StartError) (s : Server) → Keeps s (clear_if_started w e s)
  unfolding clear_if_started
  clear_if_started-Keeps none s = record {
    same_frp = refl;
    same_cfg = refl;
    same_disk = refl;
    same_api = refl;
    same_pairing = refl;
    same_restart = refl;
  }
  clear_if_started-Keeps (some why) s = Keeps-refl s

  pub start_background_loops-Keeps : (s : Server) → Keeps s (start_background_loops w s)
  unfolding start_background_loops spawn
  start_background_loops-Keeps s = record {
    same_frp = ground arith;
    same_cfg = ground arith;
    same_disk = ground arith;
    same_api = ground arith;
    same_pairing = ground arith;
    same_restart = ground arith;
  }

  pub start_reconcile-Keeps : (s : Server) → Keeps s (start_reconcile w s)
  unfolding start_reconcile spawn
  start_reconcile-Keeps s = record {
    same_frp = ground arith;
    same_cfg = ground arith;
    same_disk = ground arith;
    same_api = ground arith;
    same_pairing = ground arith;
    same_restart = ground arith;
  }

  pub clear_after_gap-Keeps : (gap : ℤ) (s : Server) → Keeps s (clear_after_gap w gap s)
  unfolding clear_after_gap spawn
  clear_after_gap-Keeps gap s = record {
    same_frp = ground arith;
    same_cfg = ground arith;
    same_disk = ground arith;
    same_api = ground arith;
    same_pairing = ground arith;
    same_restart = ground arith;
  }

  pub reset_ticker-Keeps : (ms : ℤ) (s : Server) → Keeps s (reset_ticker w ms s)
  unfolding reset_ticker
  reset_ticker-Keeps (pos zero) s = Keeps-refl s
  reset_ticker-Keeps (pos (suc n)) s = record {
    same_frp = refl;
    same_cfg = refl;
    same_disk = refl;
    same_api = refl;
    same_pairing = refl;
    same_restart = refl;
  }
  reset_ticker-Keeps (negsuc n) s = Keeps-refl s
