-- ===== src/Server/Polling.antt =====
-- cmd/seawise/server/handlers_pairing.go: the start of a pairing, its polling goroutine as a run
-- over the events it selects on, and its cancelling.
use seawise_client.Prelude.{
  ℕ, Bool, true, false, not, ◌||◌, Option, none, some, List, [], ◌∷◌, map, if◌then◌else◌, take,
  is_empty,
}
use seawise_client.Prelude.Bytes.{Bytes, lit, ◌==◌}
use seawise_client.Validation.{sanitize_error_for_ui}
use seawise_client.Auth.Handlers.{Body, too_large, malformed, parsed}
use seawise_client.Connection.{State, connecting}
use seawise_client.Config.{Account}
use seawise_client.Services.{clear_server_registrations}
use seawise_client.Services.Registration.{Client, register_local_services}
use seawise_client.Api.{ApiError, Result, ok, err, set_frp_token}
use seawise_client.Api.Pairing.{
  PairCompleteResponse, request_pairing, poll_pairing_status, complete_pairing,
}
use seawise_client.Api.Registry.{batch_register_services, list_services}
use seawise_client.Server.{
  PairingState, no_pairing, pending, paired, polls_for_approval, cancels_remotely, Server, World,
  spawn, set_connection, save_cfg,
}
use seawise_client.Server.Starting.{is_foreign, start_services}

abbrev pub is_pending : PairingState → Bool
is_pending pending = true
is_pending no_pairing = false
is_pending paired = false

-- A reply of a handler: an error with its status, or the data of a success.
pub data Reply (A : Type 0) : Type 0 where
  refused : ℕ → Bytes → Reply A
  replied : A → Reply A

abbrev pub result_of : {A : Type 0} → Result A → Option A
result_of (ok a) = some a
result_of (err e) = none

unfoldable pub reset_pairing : Server → Server
reset_pairing s = record s {
  pairing_state = no_pairing;
  pairing_code = [];
  pairing_device_code = [];
}

-- The name in the request; a body that is not JSON and an empty name give the default.
unfoldable pub server_name_of : Body Bytes → Bytes
server_name_of too_large = []
server_name_of malformed = lit "My Server"
server_name_of (parsed name) = take 100 (if is_empty name then lit "My Server" else name)

module _ (w : World) where
  -- `error_text` is how an error prints.
  unfoldable pub pair_start_with :
      (ApiError → Bytes) → Bytes → Server → Reply (Bytes × Bytes) × Server
  unfolding spawn
  pair_start_with error_text name s =
      elim (request_pairing w.http w.decoders.pairing name s.api).0 [
        | err e ↦ (
          refused 500 (
              sanitize_error_for_ui w.http.unicode (some (error_text e))
                (lit "Failed to request pairing code")),
          s,
        )
        | ok result ↦ (
          replied (result.user_code, result.expires_at),
          spawn (polls_for_approval result.device_code) (record s {
            pairing_code = result.user_code;
            pairing_device_code = result.device_code;
            pairing_state = pending;
          }),
        )
      ]

  unfoldable pub handle_pair_start :
      (ApiError → Bytes) → Bytes → Body Bytes → Server → Reply (Bytes × Bytes) × Server
  unfolding pair_start_with server_name_of
  handle_pair_start error_text method too_large s =
      if not (method == lit "POST")
      then (refused 405 (lit "Method not allowed"), s)
      else (refused 413 (lit "Request body too large"), s)
  handle_pair_start error_text method malformed s =
      if not (method == lit "POST")
      then (refused 405 (lit "Method not allowed"), s)
      else pair_start_with error_text (server_name_of malformed) s
  handle_pair_start error_text method (parsed name) s =
      if not (method == lit "POST")
      then (refused 405 (lit "Method not allowed"), s)
      else pair_start_with error_text (server_name_of (parsed name)) s

  -- The client of the service registrations, for a server.
  unfoldable pub services_client : Bytes → Server → Client
  services_client server_id s = record {
    batch_register_services = λ inputs.
        result_of (batch_register_services w.http w.decoders.registry server_id inputs s.api).0;
    list_services = elim (list_services w.http w.decoders.registry server_id s.api).0 [
      | err e ↦ none
      | ok services ↦ some (map (λ a. a.id) services)
    ];
  }

  unfoldable pub binding_of : PairCompleteResponse → Server → Account
  binding_of r s = record {
    server_id = r.server_id;
    server_name = r.server_name;
    frp_token = r.frp_token;
    frp_server_addr = r.frp_server_addr;
    frp_server_port = r.frp_server_port;
    frp_use_tls = r.frp_use_tls;
    api_url = s.api.base_url;
    user_id = r.user_id;
    user_email = r.user_email;
  }

  -- The old registrations are cleared and the services registered on the new server.
  unfoldable pub register_again : Bytes → Server → Server
  unfolding clear_server_registrations register_local_services services_client
  register_again server_id s =
      let cleared = (clear_server_registrations w.saving.machine_write s.disk.machine).1 in
      let machine =
        (register_local_services w.saving.machine_write (λ f. f)
          (some (services_client server_id s)) cleared).1 in
      record s { disk = record s.disk { machine = machine } }

  unfoldable pub finish_pairing : PairCompleteResponse → Server → Server
  unfolding is_foreign save_cfg reset_pairing binding_of register_again set_connection
      start_services
  finish_pairing r s =
      if is_foreign w r.frp_server_addr
      then reset_pairing s
      else (let (saved, s') = save_cfg w (binding_of r s) s in
          if not saved
          then reset_pairing s'
          else start_services w (
              set_connection w connecting (
                register_again r.server_id (record s' {
                  api = set_frp_token r.frp_token s'.api;
                  pairing_state = paired;
                  pairing_code = [];
                  pairing_device_code = [];
                }))))

  -- A tick: whether the goroutine returns, and the server.
  unfoldable pub poll_tick : Bytes → Server → Bool × Server
  unfolding finish_pairing reset_pairing
  poll_tick device_code s =
      if not (is_pending s.pairing_state)
      then (true, s)
      else elim (poll_pairing_status w.http w.decoders.pairing device_code s.api).0 [
        | err e ↦ (false, s)
        | ok status ↦
            if status == lit "approved"
            then elim (complete_pairing w.http w.decoders.pairing device_code s.api).0 [
              | err e ↦ (true, record s { pairing_state = no_pairing; pairing_device_code = [] })
              | ok r ↦ (true, finish_pairing r s)
            ]
            else if status == lit "expired" || status == lit "used"
            then (true, reset_pairing s)
            else (false, s)
      ]

  unfoldable pub handle_pair_cancel : Bytes → Server → Reply (Unit {0}) × Server
  unfolding reset_pairing spawn
  handle_pair_cancel method s =
      if not (method == lit "POST") then (refused 405 (lit "Method not allowed"), s) else (
        replied tt,
        if is_empty s.pairing_device_code
            then reset_pairing s
            else spawn (cancels_remotely s.pairing_device_code) (reset_pairing s),
      )

-- What handlePairPoll shows: the state and the code of the pairing, and the connection's state.
unfoldable pub handle_pair_poll : Server → (PairingState × Bytes) × State
handle_pair_poll s = ((s.pairing_state, s.pairing_code), s.manager.state)

-- What the polling goroutine waits for: the end of its context, the timeout, or a tick, at which
-- the outside is as given. Other steps on the server may come before an event.
pub data PollEvent : Type 0 where
  cancelled timed_out : PollEvent
  ticked : World → PollEvent
  meanwhile : (Server → Server) → PollEvent

unfoldable pub poll_event : Bytes → PollEvent → Server → Bool × Server
unfolding poll_tick reset_pairing
poll_event device_code cancelled s = (true, s)
poll_event device_code timed_out s = (true, reset_pairing s)
poll_event device_code (ticked w) s = poll_tick w device_code s
poll_event device_code (meanwhile f) s = (false, f s)

-- pollForApproval: the events up to the one at which it returns, or all of them.
unfoldable pub poll_for_approval : Bytes → List PollEvent → Server → Bool × Server
unfolding poll_event
poll_for_approval device_code [] s = (false, s)
poll_for_approval device_code (e ∷ es) s =
    let (returns, s') = poll_event device_code e s in
    let later = poll_for_approval device_code es s' in if returns then (true, s') else later
