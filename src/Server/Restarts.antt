-- ===== src/Server/Restarts.antt =====
-- What startServices of cmd/seawise/server/server.go leaves alone.
use seawise_client.Server.Frames.{
  desired_tunnels-Keeps, after_start-Keeps, connect_or_not-Keeps, set_connection-Keeps,
  start_background_loops-Keeps, Keeps,
}
use seawise_client.Server.Starting.{
  connect_or_not, load_tunnels, desired_tunnels, certs_status, is_foreign, frp_config_of,
  start_client, start_with, start_services, launch_client,
}
use seawise_client.Server.{after_start, set_connection, start, World, Server, PairingState}
use seawise_client.Prelude.{◌≡◌, refl, ap, Option, some, ◌∙◌, case_if, case_some}
use seawise_client.Frp.Methods.{new_frp_client}
use seawise_client.Config.{Account, Disk}
use seawise_client.Api.{ApiClient}
use seawise_client.Connection.{disconnected}

-- The state apart from the client and from what the client's start touches.
abbrev pub rest : Server → Option Account × Disk × ApiClient × PairingState
rest s = (s.cfg, s.disk, s.api, s.pairing_state)

pub Keeps-rest : {s t : Server} → Keeps s t → rest t ≡ rest s
Keeps-rest k = rw (k.same_cfg, k.same_disk, k.same_api, k.same_pairing) refl

module _ (w : World) where
  launch_client-rest : (c : Account) (s : Server) → rest (launch_client w c s) ≡ rest s
  unfolding launch_client start_client
  launch_client-rest c s =
      let client = new_frp_client w.found_config w.config_stays w.found_frpc (frp_config_of w c) in
      let enabled = certs_status w s in
      let s1 : Server = record s {
        frp = some client;
        certs_enabled = enabled;
        e2e_tls_enabled = enabled;
      } in
      let out = desired_tunnels w c.server_id s1 in
      let done = start w.launch (load_tunnels w out.0 client) in
      let s2 : Server = record out.1 { frp = some done.1 } in
      let s3 = after_start w done.0 s2 in
      Keeps-rest (start_background_loops-Keeps w (connect_or_not w done.0 s3))
      ∙ Keeps-rest (connect_or_not-Keeps w done.0 s3)
      ∙ Keeps-rest (after_start-Keeps w done.0 s2)
      ∙ Keeps-rest (desired_tunnels-Keeps w c.server_id s1)

  pub start_services-rest : (s : Server) → rest (start_services w s) ≡ rest s
  unfolding start_services start_with
  start_services-rest s =
      case_some {B = Server} (λ t. rest t ≡ rest s) s.cfg refl
        (λ c e.
          case_if {B = Server} (λ t. rest t ≡ rest s) (is_foreign w c.frp_server_addr)
            (λ foreign.
              Keeps-rest (start_background_loops-Keeps w (set_connection w disconnected s))
              ∙ Keeps-rest (set_connection-Keeps w disconnected s))
            (λ fine. launch_client-rest c s))

  pub start_services-cfg : (s : Server) → (start_services w s).cfg ≡ s.cfg
  start_services-cfg s = ap (λ x. x.0) (start_services-rest s)
