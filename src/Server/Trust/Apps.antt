-- ===== src/Server/Trust/Apps.antt =====
-- The addresses and hosts of the frp client over the handlers of
-- cmd/seawise/server/handlers_services.go.
use seawise_client.Prelude.{
  ◌≡◌, inl, inr, Bool, true, false, not, ◌&&◌, Option, some, [], ◌∷◌, ◌++◌, arith, if◌then◌else◌,
  Bool-cases, all-append, is_empty, case_some, case_if,
}
use seawise_client.Api.{case_result}
use seawise_client.Services.{
  record_server_registration, has_local_id, remove_local_service, add_local_service,
  set_local_service_disabled,
}
use seawise_client.Api.Registry.{register_service, ApiService}
use seawise_client.Server.Frames.{after_start-Keeps, case_body}
use seawise_client.Server.Trust.Beating.{the_client}
use seawise_client.Server.Starting.{configure_service_tls}
use seawise_client.Server.Trust.{
  Keeps-IsSafe, restart-IsSafe, all_hosts, IsSafeServer, IsSafeAfter, SafeClient, IsSafe,
  TunnelService, Sound,
}
use seawise_client.Server.Apps.{
  paired_cfg, app_error, delete_app, drop_tunnel, handle_add_service, handle_enable_service,
  add_app, enable_app, register_added, handle_delete_service, add_tunnel, NewApp,
}
use seawise_client.Frp.Vetting.{all_hosts-keep}
use seawise_client.Frp.{remove_service_without_restart, FrpClient}
use seawise_client.Server.{spawn, World, Server}
use seawise_client.Config.{LocalService}
use seawise_client.Frp.Methods.{remove_service, add_service}
use seawise_client.Prelude.Bytes.{Bytes, lit, ◌==◌}
use seawise_client.Auth.Handlers.{Body}

module _ (p q : Bytes → Bool) (w : World) (sound : Sound p q w) where
  add_service-IsSafe :
      (t : TunnelService) (c : FrpClient)
      → SafeClient p q c
      → SafeClient p q (add_service w.vetted w.launch t c).1
  unfolding add_service
  add_service-IsSafe t c (a, b) = elim (Bool-cases (w.vetted t.local_ip)) [
    | inl good ↦
        let added : FrpClient = record c { services = c.services ++ t ∷ [] } in
        let all : all_hosts q added.services ≡ true =
          ground (
            arith,
            sound.vets t.local_ip good,
            all-append (λ s. q s.local_ip) c.services (t ∷ []),
          ) in
        ground (arith, restart-IsSafe p q w.launch added (a, all))
    | inr bad ↦ ground arith
  ]

  add_tunnel-IsSafe :
      (app : NewApp) (svc : ApiService) (s : Server)
      → IsSafe p q s.frp
      → IsSafe p q (add_tunnel w app svc s).1.frp
  unfolding add_tunnel
  add_tunnel-IsSafe app svc s h = case_some (IsSafeAfter p q) s.frp h (λ client e.
      let tunnel : TunnelService = record {
        tunnel_name = app.app_name;
        local_ip = app.app_host;
        local_port = app.app_port;
        tunnel_subdomain = svc.subdomain;
        use_e2e_tls = false;
        cert_path = [];
        key_path = [];
      } in
      let done = add_service w.vetted w.launch (configure_service_tls w s tunnel) client in
      let s' : Server = record s { frp = some done.1 } in
      let safe : IsSafe p q s'.frp =
        add_service-IsSafe (configure_service_tls w s tunnel) client
          (the_client p q w sound s client e h) in
      case_some (IsSafeAfter p q) done.0 safe
        (λ outcome e'. Keeps-IsSafe p q w sound (after_start-Keeps w outcome s') safe))

  register_added-IsSafe :
      (app : NewApp) (local : LocalService) (s : Server)
      → IsSafe p q s.frp
      → IsSafe p q (register_added w app local s).1.frp
  unfolding register_added
  register_added-IsSafe app local s h = case_some (IsSafeAfter p q) (paired_cfg s) h (λ c paired.
      case_result (IsSafeAfter p q)
        (register_service w.http w.decoders.registry c.server_id app.app_name app.app_host
          app.app_port s.api).0
        (λ svc e.
          let machine =
            (record_server_registration w.saving.machine_write local.local_id svc.id svc.subdomain
              s.disk.machine).1 in
          add_tunnel-IsSafe app svc (record s { disk = record s.disk { machine = machine } }) h)
        (λ why e. h))

  add_app-IsSafe :
      (local_id : Option Bytes) (app : NewApp) (s : Server)
      → IsSafe p q s.frp
      → IsSafe p q (add_app w local_id app s).1.frp
  unfolding add_app
  add_app-IsSafe local_id app s h =
      let added =
        add_local_service w.http.unicode w.saving.machine_write local_id app.app_name app.app_host
          app.app_port [] s.disk.machine in
      let s' : Server = record s { disk = record s.disk { machine = added.1 } } in
      case_some (IsSafeAfter p q) (app_error w app)
        (case_some (IsSafeAfter p q) added.0.0 h (λ local e. register_added-IsSafe app local s' h))
        (λ why e. h)

  pub handle_add_service-IsSafe :
      (method : Bytes) (local_id : Option Bytes) (body : Body NewApp) (s : Server)
      → IsSafe p q s.frp
      → IsSafe p q (handle_add_service w method local_id body s).1.frp
  unfolding handle_add_service
  handle_add_service-IsSafe method local_id body s h =
      case_if (IsSafeAfter p q) (not (method == lit "POST")) (λ e. h)
        (λ e. case_body (IsSafeAfter p q) body h h (λ app e0. add_app-IsSafe local_id app s h))

  enable_app-IsSafe :
      (local_id : Bytes) (s : Server)
      → IsSafe p q s.frp
      → IsSafe p q (enable_app w local_id s).1.frp
  unfolding enable_app spawn
  enable_app-IsSafe local_id s h =
      let done = set_local_service_disabled w.saving.machine_write local_id false s.disk.machine in
      let s' : Server = record s { disk = record s.disk { machine = done.1 } } in
      case_some (IsSafeAfter p q) done.0.1
        (case_some (IsSafeAfter p q) done.0.0 h
          (λ svc e. case_some (IsSafeServer p q) (paired_cfg s') h (λ c e'. h)))
        (λ why e. h)

  pub handle_enable_service-IsSafe :
      (method : Bytes) (body : Body Bytes) (s : Server)
      → IsSafe p q s.frp
      → IsSafe p q (handle_enable_service w method body s).1.frp
  unfolding handle_enable_service
  handle_enable_service-IsSafe method body s h =
      case_if (IsSafeAfter p q) (not (method == lit "POST")) (λ e. h)
        (λ e. case_body (IsSafeAfter p q) body h h (λ local_id e0.
          case_if (IsSafeAfter p q) (is_empty local_id) (λ e'. h)
            (λ e'. enable_app-IsSafe local_id s h)))

  remove_service-IsSafe :
      (name : Bytes) (c : FrpClient)
      → SafeClient p q c
      → SafeClient p q (remove_service w.launch name c).1
  unfolding remove_service remove_service_without_restart
  remove_service-IsSafe name c (a, b) =
      restart-IsSafe p q w.launch (remove_service_without_restart name c)
        (a, all_hosts-keep q _ c.services b)

  drop_tunnel-IsSafe :
      (name : Bytes) (s : Server) → IsSafe p q s.frp → IsSafe p q (drop_tunnel w name s).frp
  unfolding drop_tunnel
  drop_tunnel-IsSafe name s h = case_some (IsSafeServer p q) s.frp h (λ client e.
      case_if (IsSafeServer p q) (is_empty name) (λ e'. h)
        (λ e'.
          let done = remove_service w.launch name client in
          let s' : Server = record s { frp = some done.1 } in
          Keeps-IsSafe p q w sound (after_start-Keeps w done.0 s')
            (remove_service-IsSafe name client (the_client p q w sound s client e h))))

  delete_app-IsSafe :
      (service_id local_id : Bytes) (s : Server)
      → IsSafe p q s.frp
      → IsSafe p q (delete_app w service_id local_id s).1.frp
  unfolding delete_app
  delete_app-IsSafe service_id local_id s h =
      case_if (IsSafeAfter p q) (is_empty service_id && is_empty local_id) (λ e. h)
        (λ e.
          let done =
            remove_local_service w.saving.machine_write
              (if not (is_empty local_id) then has_local_id local_id else λ svc.
                svc.server_service_id == service_id)
              s.disk.machine in
          let s' : Server = record s { disk = record s.disk { machine = done.1 } } in
          case_some (IsSafeAfter p q) done.0.1
            (case_some (IsSafeAfter p q) done.0.0 h (λ svc e'. drop_tunnel-IsSafe svc.name s' h))
            (λ why e'. h))

  pub handle_delete_service-IsSafe :
      (method : Bytes) (body : Body (Bytes × Bytes)) (s : Server)
      → IsSafe p q s.frp
      → IsSafe p q (handle_delete_service w method body s).1.frp
  unfolding handle_delete_service
  handle_delete_service-IsSafe method body s h =
      case_if (IsSafeAfter p q) (not (method == lit "POST") && not (method == lit "DELETE"))
        (λ e. h)
        (λ e. case_body (IsSafeAfter p q) body h h (λ ids e0. delete_app-IsSafe ids.0 ids.1 s h))
