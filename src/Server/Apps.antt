-- ===== src/Server/Apps.antt =====
-- cmd/seawise/server/handlers_services.go: the handlers for the local services and for unpairing.
use seawise_client.Prelude.{
  Bool, true, false, not, ◌&&◌, Option, none, some, List, [], map, if◌then◌else◌, ℤ, is_empty,
}
use seawise_client.Prelude.Bytes.{Bytes, lit, ◌==◌}
use seawise_client.Validation.{is_valid_host, is_valid_port, is_valid_service_name}
use seawise_client.Validation.Host.{validate_service_host, error_text}
use seawise_client.Auth.Handlers.{Body, too_large, malformed, parsed}
use seawise_client.Connection.{unpaired}
use seawise_client.Config.{duplicate_service_name, Account, LocalService, load}
use seawise_client.Services.{
  add_local_service, record_server_registration, has_local_id, remove_local_service,
  set_local_service_disabled,
}
use seawise_client.Services.Tunnels.{TunnelService}
use seawise_client.Frp.Methods.{add_service, remove_service}
use seawise_client.Api.{ok, err}
use seawise_client.Api.Registry.{ApiService, register_service}
use seawise_client.Server.{
  PairingState, no_pairing, pending, paired, registers_again, Server, World, spawn, set_connection,
  after_start, handle_unpair_internal,
}
use seawise_client.Server.Starting.{configure_service_tls}
use seawise_client.Server.Polling.{Reply, refused, replied}

abbrev pub is_paired_state : PairingState → Bool
is_paired_state paired = true
is_paired_state pending = false
is_paired_state no_pairing = false

-- The binding, if the machine is paired.
unfoldable pub paired_cfg : Server → Option Account
paired_cfg s = if is_paired_state s.pairing_state then s.cfg else none

pub record NewApp : Type 0 where
  pub app_name : Bytes
  pub app_host : Bytes
  pub app_port : ℤ

-- A service that was added: only locally, with its registration still to come, or registered,
-- where the flag says that its tunnel is still to come.
pub data Added : Type 0 where
  local_only registration_pending : LocalService → Added
  registered : ApiService → Bool → Added

-- The checks of the body, in their order.
unfoldable pub app_error : World → NewApp → Option Bytes
app_error w app =
    if not (is_valid_service_name w.http.unicode app.app_name)
    then some (lit "Invalid app name (must be 1-100 characters)")
    else if not (is_valid_host app.app_host)
    then some (lit "Invalid host format (must be a valid hostname or IP)")
    else elim (validate_service_host w.http.unicode app.app_host) [
      | some e ↦ some (error_text e)
      | none ↦
          if not (is_valid_port app.app_port)
          then some (lit "Invalid port (must be 1-65535)")
          else none
    ]

module _ (w : World) where
  -- The tunnel of a service that was just registered, and whether adding it failed.
  unfoldable pub add_tunnel : NewApp → ApiService → Server → Bool × Server
  unfolding add_service after_start configure_service_tls
  add_tunnel app svc s = elim s.frp [
    | none ↦ (false, s)
    | some client ↦
        let tunnel : TunnelService = record {
          tunnel_name = app.app_name;
          local_ip = app.app_host;
          local_port = app.app_port;
          tunnel_subdomain = svc.subdomain;
          use_e2e_tls = false;
          cert_path = [];
          key_path = [];
        } in
        let (outcome, client') =
          add_service w.vetted w.launch (configure_service_tls w s tunnel) client in
        let s' : Server = record s { frp = some client' } in
        elim outcome [
          | none ↦ (true, s')
          | some e ↦ (elim e [ none ↦ false | some why ↦ true ], after_start w e s')
        ]
  ]

  -- The registration of a service that was added locally.
  unfoldable pub register_added : NewApp → LocalService → Server → Added × Server
  unfolding paired_cfg record_server_registration add_tunnel
  register_added app local s = elim (paired_cfg s) [
    | none ↦ (local_only local, s)
    | some c ↦
        elim (register_service w.http w.decoders.registry c.server_id app.app_name app.app_host
          app.app_port s.api).0 [
            | err e ↦ (registration_pending local, s)
            | ok svc ↦
                let machine =
                  (record_server_registration w.saving.machine_write local.local_id svc.id
                    svc.subdomain s.disk.machine).1 in
                let (late, s') =
                  add_tunnel app svc (record s { disk = record s.disk { machine = machine } }) in
                (registered svc late, s')
          ]
  ]

  -- `local_id` is what GenerateLocalID returns.
  unfoldable pub add_app : Option Bytes → NewApp → Server → Reply Added × Server
  unfolding app_error add_local_service register_added
  add_app local_id app s = elim (app_error w app) [
    | some why ↦ (refused 400 why, s)
    | none ↦
        let ((added, e), machine) =
          add_local_service w.http.unicode w.saving.machine_write local_id app.app_name app.app_host
            app.app_port [] s.disk.machine in
        let s' : Server = record s { disk = record s.disk { machine = machine } } in
        elim added [
          | none ↦ (
            elim e [
              | some duplicate_service_name ↦
                  refused 409 (lit "An app with that name already exists")
              | _ ↦ refused 500 (lit "Failed to save app")
            ],
            s',
          )
          | some local ↦ let (result, s'') = register_added app local s' in (replied result, s'')
        ]
  ]

  unfoldable pub handle_add_service :
      Bytes → Option Bytes → Body NewApp → Server → Reply Added × Server
  unfolding add_app
  handle_add_service method local_id body s =
      if not (method == lit "POST")
      then (refused 405 (lit "Method not allowed"), s)
      else elim body [
        | too_large ↦ (refused 413 (lit "Request body too large"), s)
        | malformed ↦ (refused 400 (lit "Invalid request body"), s)
        | parsed app ↦ add_app local_id app s
      ]

  -- The registration that follows is the goroutine `registers_again`.
  unfoldable pub enable_app : Bytes → Server → Reply (Unit {0}) × Server
  unfolding set_local_service_disabled paired_cfg spawn
  enable_app local_id s =
      let ((updated, e), machine) =
        set_local_service_disabled w.saving.machine_write local_id false s.disk.machine in
      let s' : Server = record s { disk = record s.disk { machine = machine } } in
      elim e [
        | some why ↦ (refused 500 (lit "Failed to re-enable app"), s')
        | none ↦ elim updated [
          | none ↦ (refused 404 (lit "App not found"), s')
          | some svc ↦
              (replied tt, elim (paired_cfg s') [ none ↦ s' | some c ↦ spawn registers_again s' ])
        ]
      ]

  unfoldable pub handle_enable_service : Bytes → Body Bytes → Server → Reply (Unit {0}) × Server
  unfolding enable_app
  handle_enable_service method body s =
      if not (method == lit "POST")
      then (refused 405 (lit "Method not allowed"), s)
      else elim body [
        | too_large ↦ (refused 413 (lit "Request body too large"), s)
        | malformed ↦ (refused 400 (lit "local_id is required"), s)
        | parsed local_id ↦
            if is_empty local_id
            then (refused 400 (lit "local_id is required"), s)
            else enable_app local_id s
      ]

  -- The deletion on the server, whose error is only logged, changes nothing here. The tunnel of the
  -- removed name goes with a restart.
  unfoldable pub drop_tunnel : Bytes → Server → Server
  unfolding remove_service after_start
  drop_tunnel name s = elim s.frp [
    | none ↦ s
    | some client ↦
        if is_empty name
        then s
        else let (e, client') = remove_service w.launch name client in
          after_start w e (record s { frp = some client' })
  ]

  unfoldable pub delete_app : Bytes → Bytes → Server → Reply (Unit {0}) × Server
  unfolding remove_local_service drop_tunnel
  delete_app service_id local_id s =
      if is_empty service_id && is_empty local_id
      then (refused 400 (lit "service_id or local_id is required"), s)
      else (let ((removed, e), machine) =
            remove_local_service w.saving.machine_write
              (if not (is_empty local_id) then has_local_id local_id else λ svc.
                svc.server_service_id == service_id)
              s.disk.machine in
          let s' : Server = record s { disk = record s.disk { machine = machine } } in
          elim e [
            | some why ↦ (refused 500 (lit "Failed to delete app"), s')
            | none ↦ elim removed [
              | none ↦ (refused 404 (lit "App not found"), s')
              | some svc ↦ (replied tt, drop_tunnel svc.name s')
            ]
          ])

  -- The body is the pair of service_id and local_id.
  unfoldable pub handle_delete_service :
      Bytes → Body (Bytes × Bytes) → Server → Reply (Unit {0}) × Server
  unfolding delete_app
  handle_delete_service method body s =
      if not (method == lit "POST") && not (method == lit "DELETE")
      then (refused 405 (lit "Method not allowed"), s)
      else elim body [
        | too_large ↦ (refused 413 (lit "Request body too large"), s)
        | malformed ↦ (refused 400 (lit "Invalid request body"), s)
        | parsed (service_id, local_id) ↦ delete_app service_id local_id s
      ]

  -- The answer of DeleteServer is only logged.
  unfoldable pub handle_unpair : Bytes → Server → Reply (Unit {0}) × Server
  unfolding set_connection handle_unpair_internal
  handle_unpair method s =
      if not (method == lit "POST")
      then (refused 405 (lit "Method not allowed"), s)
      else (replied tt, handle_unpair_internal w (set_connection w unpaired s))

-- The status that the list of services shows.
unfoldable pub shown_status : LocalService → Bytes
shown_status svc =
    if svc.disabled
    then lit "disabled"
    else if not (is_empty svc.server_service_id)
    then lit "registered"
    else lit "local-only"

unfoldable pub handle_list_services : Server → Reply (List (LocalService × Bytes))
unfolding shown_status
handle_list_services s = elim (load s.disk.machine) [
  | none ↦ refused 500 (lit "Failed to load apps")
  | some m ↦ replied (map (λ svc. (svc, shown_status svc)) m.services)
]
