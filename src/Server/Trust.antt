-- ===== src/Server/Trust.antt =====
-- Which servers and which hosts the frp client of cmd/seawise/server is given.
pub mod Beating
pub mod Pairing
pub mod Apps
pub mod Recovering
pub mod Booting
pub mod Steps
use seawise_client.Prelude.{
  ◌≡◌, refl, sym, Bool, true, false, Option, none, some, List, [], ◌∷◌, arith, subst, ◌∙◌,
  case_some, case_if,
}
use seawise_client.Api.{case_result}
use seawise_client.Server.Starting.{
  is_foreign, frp_config_of, start_with, launch_client, start_services, load_tunnels, start_client,
  frp_addr_of, desired_tunnels,
}
use seawise_client.Frp.Methods.{new_frp_client}
use seawise_client.Connection.{disconnected}
use seawise_client.Server.Frames.{
  set_connection-Keeps, start_background_loops-Keeps, after_start-Keeps, connect_or_not-Keeps,
  Keeps,
}
use seawise_client.Server.{after_start, Server, World}
use seawise_client.Prelude.Bytes.{Bytes}
use seawise_client.Config.{Account}
use seawise_client.Services.Tunnels.{TunnelService}
use seawise_client.Frp.{
  FrpClient, allowed_services, is_allowed_frp_domain, is_allowed_server_addr, set_services, start,
  stop, restart, sync_services, Launch,
}
use seawise_client.Frp.Restart.{start-keeps, restart-launched, sync_services-restart}
use seawise_client.Frp.Vetting.{all_hosts, all_hosts-allowed_services}

-- What a world's tests let through meets p for addresses and q for hosts. The address that stands
-- in for an empty one is the operator's.
pub record Sound (p q : Bytes → Bool) (w : World) : Type 0 where
  pub lowered : (a : Bytes) → is_allowed_server_addr w.http.unicode w.domains a ≡ true → p a ≡ true
  pub exact : (a : Bytes) → is_allowed_frp_domain w.domains a ≡ true → p a ≡ true
  pub fallback : p (frp_addr_of w []) ≡ true
  pub vets : (h : Bytes) → w.vetted h ≡ true → q h ≡ true

module _ (p q : Bytes → Bool) where
  abbrev pub SafeClient : FrpClient → Type 0
  SafeClient c = (p c.config.server_addr ≡ true) × (all_hosts q c.services ≡ true)

  abbrev pub IsSafe : Option FrpClient → Type 0
  IsSafe none = Unit
  IsSafe (some c) = SafeClient c

  abbrev pub IsSafeServer : Server → Type 0
  IsSafeServer s = IsSafe s.frp

  abbrev pub IsSafeAfter : {A : Type 0} → A × Server → Type 0
  IsSafeAfter x = IsSafe x.1.frp

module _ (p q : Bytes → Bool) where
  pub start-IsSafe : (l : Launch) (c : FrpClient) → SafeClient p q c → SafeClient p q (start l c).1
  start-IsSafe l c (a, b) =
      let (services, config) = start-keeps l c in (ground (arith, config), ground (arith, services))

  pub restart-IsSafe :
      (l : Launch) (c : FrpClient) → SafeClient p q c → SafeClient p q (restart l c).1
  unfolding restart stop
  restart-IsSafe l c h = start-IsSafe l (stop c) h

module _ (p q : Bytes → Bool) (w : World) (sound : Sound p q w) where
  pub set_services-IsSafe :
      (ss : List TunnelService) (c : FrpClient)
      → SafeClient p q c
      → SafeClient p q (set_services w.vetted ss c)
  unfolding set_services
  set_services-IsSafe ss c (a, b) = (a, all_hosts-allowed_services q w.vetted sound.vets ss)

  pub sync_services-IsSafe :
      (ss : List TunnelService) (c : FrpClient)
      → SafeClient p q c
      → SafeClient p q (sync_services w.vetted w.launch ss c).1
  unfolding sync_services
  sync_services-IsSafe ss c (a, b) =
      let (same, rest) = sync_services-restart w.vetted w.launch ss c in
      (
        ground (
          arith,
          (restart-launched w.launch (record c { services = allowed_services w.vetted ss })).2,
        ),
        subst (λ xs. all_hosts q xs ≡ true) (sym same)
            (all_hosts-allowed_services q w.vetted sound.vets ss),
      )

  frp_addr_of-trusted : (a : Bytes) → is_foreign w a ≡ false → p (frp_addr_of w a) ≡ true
  unfolding frp_addr_of is_foreign
  frp_addr_of-trusted [] h = sound.fallback
  frp_addr_of-trusted (x ∷ a) h = sound.lowered (x ∷ a) (ground arith)

  pub load_tunnels-IsSafe :
      (tunnels : Option (List TunnelService)) (c : FrpClient)
      → SafeClient p q c
      → SafeClient p q (load_tunnels w tunnels c)
  unfolding load_tunnels
  load_tunnels-IsSafe none c h = h
  load_tunnels-IsSafe (some ts) c h = set_services-IsSafe ts c h

  start_client-IsSafe :
      (c : Account) (client : FrpClient) (s : Server)
      → SafeClient p q client
      → IsSafe p q (start_client w c client s).frp
  unfolding start_client
  start_client-IsSafe c client s h =
      let out = desired_tunnels w c.server_id s in
      let done = start w.launch (load_tunnels w out.0 client) in
      let safe : IsSafe p q (some done.1) =
        start-IsSafe p q w.launch (load_tunnels w out.0 client)
          (load_tunnels-IsSafe out.0 client h) in
      let s' : Server = record out.1 { frp = some done.1 } in
      subst (IsSafe p q)
        (sym (
          (connect_or_not-Keeps w done.0 (after_start w done.0 s')).same_frp
          ∙ (after_start-Keeps w done.0 s').same_frp))
        safe

  pub Keeps-IsSafe : {s t : Server} → Keeps s t → IsSafe p q s.frp → IsSafe p q t.frp
  Keeps-IsSafe k h = subst (IsSafe p q) (sym k.same_frp) h

  launch_client-IsSafe :
      (c : Account) (s : Server)
      → p (frp_addr_of w c.frp_server_addr) ≡ true
      → IsSafe p q (launch_client w c s).frp
  unfolding launch_client new_frp_client frp_config_of
  launch_client-IsSafe c s h = Keeps-IsSafe (start_background_loops-Keeps w _) (
      start_client-IsSafe c
        (new_frp_client w.found_config w.config_stays w.found_frpc (frp_config_of w c)) _ (h, refl))

  start_with-IsSafe :
      (c : Account) (s : Server) → IsSafe p q s.frp → IsSafe p q (start_with w c s).frp
  unfolding start_with
  start_with-IsSafe c s h =
      case_if (IsSafeServer p q) (is_foreign w c.frp_server_addr)
        (λ foreign.
          Keeps-IsSafe (start_background_loops-Keeps w _)
            (Keeps-IsSafe (set_connection-Keeps w disconnected s) h))
        (λ fine. launch_client-IsSafe c s (frp_addr_of-trusted c.frp_server_addr fine))

  pub start_services-IsSafe : (s : Server) → IsSafe p q s.frp → IsSafe p q (start_services w s).frp
  unfolding start_services
  start_services-IsSafe s h =
      case_some (IsSafeServer p q) s.cfg h (λ c set. start_with-IsSafe c s h)
