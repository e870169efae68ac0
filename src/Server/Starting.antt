-- ===== src/Server/Starting.antt =====
-- How the tunnels start: startServices of cmd/seawise/server/server.go, and the certificates and
-- the desired tunnels of service_lifecycle.go. A loop that is started is the task `runs_loops`.
use seawise_client.Frp.{StartError, FrpClient, is_allowed_server_addr, set_services, start}
use seawise_client.Prelude.{
  zero, suc, Bool, true, false, not, ◌&&◌, ◌||◌, Option, none, some, List, [], ◌∷◌, ◌++◌, map, eqb,
  if◌then◌else◌, any, ℤ, pos, negsuc, is_empty,
}
use seawise_client.Prelude.Bytes.{Bytes, lit}
use seawise_client.Prelude.Dict.{Dict, empty, put}
use seawise_client.Validation.{is_valid_host}
use seawise_client.Connection.{connecting, connected, disconnected, reconnecting, unpaired}
use seawise_client.Config.{Account, load, exists}
use seawise_client.Services.Tunnels.{TunnelService, build_tunnel_services}
use seawise_client.Frp
use seawise_client.Frp.Methods.{new_frp_client}
use seawise_client.Api.{ApiClient, ok, err, set_frp_token}
use seawise_client.Api.Url.{new_client}
use seawise_client.Api.Registry.{ApiService, list_services}
use seawise_client.Api.Certificates.{get_cert_status, request_certificate}
use seawise_client.Server.{
  Server, World, no_pairing, paired, runs_loops, spawn, set_connection, after_start,
}

module _ (w : World) where
  unfoldable pub subdomain_host : Bytes
  subdomain_host = if is_empty w.subdomain_env then lit "seawise.dev" else w.subdomain_env

  -- A subdomain that is a valid host, but holds no dot, colon or bracket.
  unfoldable pub is_subdomain : Bytes → Bool
  is_subdomain subdomain =
      is_valid_host subdomain
      && not (any (λ c. eqb c b'.' || eqb c b':' || eqb c b'[' || eqb c b']') subdomain)

  -- `none` is an error, and two empty paths are no certificate.
  unfoldable pub ensure_service_cert : Server → Bytes → Option (Bytes × Bytes)
  unfolding subdomain_host is_subdomain
  ensure_service_cert s subdomain =
      let domain = subdomain ++ lit "." ++ subdomain_host in
      if not s.certs_enabled
      then some ([], [])
      else if not (is_subdomain subdomain)
      then none
      else if w.certs.cert_exists domain && not (w.certs.needs_renewal domain)
      then w.certs.cert_paths domain
      else elim (w.certs.signing_request domain) [
        | none ↦ none
        | some csr ↦ elim (request_certificate w.http w.decoders.certs subdomain csr s.api).0 [
          | err e ↦ none
          | ok issued ↦ w.certs.saved_paths domain issued.certificate
        ]
      ]

  unfoldable pub configure_service_tls : Server → TunnelService → TunnelService
  unfolding ensure_service_cert
  configure_service_tls s t =
      if not s.e2e_tls_enabled || not s.certs_enabled
      then t
      else elim (ensure_service_cert s t.tunnel_subdomain) [
        | none ↦ t
        | some (cert, key) ↦
            if not (is_empty cert) && not (is_empty key)
            then record t { use_e2e_tls = true; cert_path = cert; key_path = key }
            else t
      ]

  -- The map from subdomains to ids; a later service takes the place of an earlier one.
  unfoldable pub cache_of : List ApiService → Dict Bytes → Dict Bytes
  cache_of [] cache = cache
  cache_of (a ∷ rest) cache = cache_of rest (put a.subdomain a.id cache)

  unfoldable pub desired_tunnels : Bytes → Server → Option (List TunnelService) × Server
  unfolding cache_of configure_service_tls build_tunnel_services
  desired_tunnels server_id s = elim (list_services w.http w.decoders.registry server_id s.api).0 [
    | err e ↦ (none, s)
    | ok services ↦ elim (load s.disk.machine) [
      | none ↦ (none, s)
      | some m ↦
          let s' : Server = record s { service_cache = cache_of services empty } in
          (
            some (
                map (configure_service_tls s')
                  (build_tunnel_services m.services (map (λ a. a.id) services))),
            s',
          )
    ]
  ]

  unfoldable pub start_background_loops : Server → Server
  unfolding spawn
  start_background_loops s =
      if s.loops_started then s else spawn runs_loops (record s { loops_started = true })

  -- The address that is used for a saved one; a saved one that is not empty is used as it is.
  unfoldable pub frp_addr_of : Bytes → Bytes
  frp_addr_of saved =
      if not (is_empty saved)
      then saved
      else if not (is_empty w.frp_addr_env)
      then w.frp_addr_env
      else lit "host.docker.internal"

  unfoldable pub frp_port_of : ℤ → ℤ
  frp_port_of (pos zero) = pos 7000
  frp_port_of (pos (suc n)) = pos (suc n)
  frp_port_of (negsuc n) = negsuc n

  unfoldable pub frp_config_of : Account → Frp.Config
  unfolding frp_addr_of frp_port_of
  frp_config_of c = record {
    server_addr = frp_addr_of c.frp_server_addr;
    server_port = frp_port_of c.frp_server_port;
    token = c.frp_token;
    server_id = c.server_id;
    use_tls = c.frp_use_tls || not w.is_dev;
  }

  -- Whether the certificates are enabled, after the server was asked and the directory made.
  unfoldable pub certs_status : Server → Bool
  certs_status s = elim (get_cert_status w.http w.decoders.certs s.api).0 [
    | err e ↦ false
    | ok status ↦ status.e2e_tls_enabled && w.makes_certs_dir
  ]

  -- The tunnels that are wanted, if they are known, become those of the client.
  unfoldable pub load_tunnels : Option (List TunnelService) → FrpClient → FrpClient
  unfolding set_services
  load_tunnels none client = client
  load_tunnels (some ts) client = set_services w.vetted ts client

  unfoldable pub connect_or_not : Option StartError → Server → Server
  unfolding set_connection
  connect_or_not none s = set_connection w connected s
  connect_or_not (some why) s = set_connection w reconnecting s

  -- The services of a new client, and its start.
  unfoldable pub start_client : Account → FrpClient → Server → Server
  unfolding desired_tunnels load_tunnels after_start connect_or_not
  start_client c client s =
      let (tunnels, s') = desired_tunnels c.server_id s in
      let (e, client') = start w.launch (load_tunnels tunnels client) in
      connect_or_not e (after_start w e (record s' { frp = some client' }))

  unfoldable pub launch_client : Account → Server → Server
  unfolding start_background_loops frp_config_of certs_status start_client
  launch_client c s =
      let client = new_frp_client w.found_config w.config_stays w.found_frpc (frp_config_of c) in
      let enabled = certs_status s in
      start_background_loops (
        start_client c client
          (record s { frp = some client; certs_enabled = enabled; e2e_tls_enabled = enabled }))

  -- An address that was given and is not of a trusted domain.
  unfoldable pub is_foreign : Bytes → Bool
  is_foreign addr =
      not (is_empty addr) && not (is_allowed_server_addr w.http.unicode w.domains addr)

  unfoldable pub start_with : Account → Server → Server
  unfolding is_foreign start_background_loops set_connection launch_client
  start_with c s =
      if is_foreign c.frp_server_addr
      then start_background_loops (set_connection w disconnected s)
      else launch_client c s

  unfoldable pub start_services : Server → Server
  unfolding start_with
  start_services s = elim s.cfg [ none ↦ s | some c ↦ start_with c s ]

  -- The part of `run` after the migration: a machine with a binding starts its services.
  unfoldable pub start_paired : Server → Server
  unfolding start_services
  start_paired s =
      if not (exists s.disk.account)
      then set_connection w unpaired (record s { pairing_state = no_pairing })
      else elim (load s.disk.account) [
        | none ↦ set_connection w disconnected (record s { cfg = none; pairing_state = no_pairing })
        | some c ↦
            let api : ApiClient = elim (new_client c.api_url) [
              | err e ↦ s.api
              | ok stored ↦ stored
            ] in
            start_services (
              set_connection w connecting (record s {
                cfg = some c;
                api = set_frp_token c.frp_token api;
                pairing_state = paired;
              }))
      ]
