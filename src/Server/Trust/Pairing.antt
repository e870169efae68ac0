-- ===== src/Server/Trust/Pairing.antt =====
-- The addresses and hosts of the frp client over a pairing,
-- cmd/seawise/server/handlers_pairing.go.
use seawise_client.Prelude.{Bool, not, ◌||◌, [], is_empty, case_if}
use seawise_client.Api.{case_result, set_frp_token, ApiError}
use seawise_client.Server.Frames.{set_connection-Keeps}
use seawise_client.Server.Trust.{
  Keeps-IsSafe, start_services-IsSafe, IsSafeServer, IsSafeAfter, IsSafe, Sound,
}
use seawise_client.Server.{connecting, set_connection, paired, save_cfg, Server, spawn, World}
use seawise_client.Server.Polling.{
  server_name_of, binding_of, is_pending, register_again, reset_pairing, handle_pair_start,
  poll_tick, finish_pairing, handle_pair_cancel, pair_start_with,
}
use seawise_client.Prelude.Bytes.{lit, ◌==◌, Bytes}
use seawise_client.Server.Starting.{is_foreign}
use seawise_client.Api.Pairing.{
  request_pairing, PairCompleteResponse, poll_pairing_status, complete_pairing,
}
use seawise_client.Auth.Handlers.{Body, too_large, malformed, parsed}

module _ (p q : Bytes → Bool) (w : World) (sound : Sound p q w) where
  finish_pairing-IsSafe :
      (r : PairCompleteResponse) (s : Server)
      → IsSafe p q s.frp
      → IsSafe p q (finish_pairing w r s).frp
  unfolding finish_pairing reset_pairing register_again save_cfg
  finish_pairing-IsSafe r s h =
      case_if (IsSafeServer p q) (is_foreign w r.frp_server_addr) (λ foreign. h)
        (λ fine.
          case_if (IsSafeServer p q) (not (save_cfg w (binding_of w r s) s).0) (λ unsaved. h)
            (λ saved.
              let s' = (save_cfg w (binding_of w r s) s).1 in
              let bound : Server = record s' {
                api = set_frp_token r.frp_token s'.api;
                pairing_state = paired;
                pairing_code = [];
                pairing_device_code = [];
              } in
              start_services-IsSafe p q w sound
                (set_connection w connecting (register_again w r.server_id bound))
                (Keeps-IsSafe p q w sound
                  (set_connection-Keeps w connecting (register_again w r.server_id bound)) h)))

  pub poll_tick-IsSafe :
      (device_code : Bytes) (s : Server)
      → IsSafe p q s.frp
      → IsSafe p q (poll_tick w device_code s).1.frp
  unfolding poll_tick reset_pairing
  poll_tick-IsSafe device_code s h =
      case_if (IsSafeAfter p q) (not (is_pending s.pairing_state)) (λ e. h)
        (λ e.
          case_result (IsSafeAfter p q)
            (poll_pairing_status w.http w.decoders.pairing device_code s.api).0
            (λ status e'.
              case_if (IsSafeAfter p q) (status == lit "approved")
                (λ approved.
                  case_result (IsSafeAfter p q)
                    (complete_pairing w.http w.decoders.pairing device_code s.api).0
                    (λ r done. finish_pairing-IsSafe r s h) (λ why failure. h))
                (λ e''.
                  case_if (IsSafeAfter p q) (status == lit "expired" || status == lit "used")
                    (λ over. h) (λ again. h)))
            (λ why e'. h))

  pair_start_with-IsSafe :
      (error_text : ApiError → Bytes) (name : Bytes) (s : Server)
      → IsSafe p q s.frp
      → IsSafe p q (pair_start_with w error_text name s).1.frp
  unfolding pair_start_with spawn
  pair_start_with-IsSafe error_text name s h =
      case_result (IsSafeAfter p q) (request_pairing w.http w.decoders.pairing name s.api).0
        (λ r e. h) (λ why e. h)

  pub handle_pair_start-IsSafe :
      (error_text : ApiError → Bytes) (method : Bytes) (body : Body Bytes) (s : Server)
      → IsSafe p q s.frp
      → IsSafe p q (handle_pair_start w error_text method body s).1.frp
  unfolding handle_pair_start
  handle_pair_start-IsSafe error_text method too_large s h =
      case_if (IsSafeAfter p q) (not (method == lit "POST")) (λ e. h) (λ e. h)
  handle_pair_start-IsSafe error_text method malformed s h =
      case_if (IsSafeAfter p q) (not (method == lit "POST")) (λ e. h)
        (λ e. pair_start_with-IsSafe error_text (server_name_of malformed) s h)
  handle_pair_start-IsSafe error_text method (parsed name) s h =
      case_if (IsSafeAfter p q) (not (method == lit "POST")) (λ e. h)
        (λ e. pair_start_with-IsSafe error_text (server_name_of (parsed name)) s h)

  pub handle_pair_cancel-IsSafe :
      (method : Bytes) (s : Server)
      → IsSafe p q s.frp
      → IsSafe p q (handle_pair_cancel w method s).1.frp
  unfolding handle_pair_cancel reset_pairing spawn
  handle_pair_cancel-IsSafe method s h =
      case_if (IsSafeAfter p q) (not (method == lit "POST")) (λ e. h)
        (λ e. case_if (IsSafeServer p q) (is_empty s.pairing_device_code) (λ e'. h) (λ e'. h))
