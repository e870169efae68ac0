-- ===== src/Frp/Restart.antt =====
-- When frpc runs after Restart and SyncServices of internal/frp/frp.go.
use seawise_client.Prelude.{
  ◌≡◌, refl, ◌⊎◌, inl, inr, Bool, true, false, not, ◌&&◌, ◌||◌, Option, none, some, List, [], ◌∷◌,
  arith, Bool-cases, all, any, Option-cases, is_empty,
}
use seawise_client.Prelude.Bytes.{Bytes}
use seawise_client.Services.Tunnels.{TunnelService}
use seawise_client.Frp.{
  FrpClient, Launch, StartError, begin_start, launch, start, stop, restart, sync_services,
  allowed_services, has_name, next_connection_id,
}

abbrev pub succeeded : Option StartError → Bool
succeeded none = true
succeeded (some e) = false

pub start-keeps :
    (l : Launch) (c : FrpClient)
    → ((start l c).1.services ≡ c.services) × ((start l c).1.config ≡ c.config)
unfolding start begin_start launch next_connection_id
start-keeps l c = elim (Bool-cases c.closed) [
  | inl shut ↦ (ground arith, ground arith)
  | inr live ↦ elim (Option-cases (next_connection_id l c)) [
    | inl no_id ↦ (ground arith, ground arith)
    | inr (id, e) ↦ elim (Option-cases l.resolved_path) [
      | inl lost ↦ (ground arith, ground arith)
      | inr (path, found) ↦ (ground arith, ground arith)
    ]
  ]
]

none_unnamed :
    (old new : List TunnelService)
    → any (λ s. not (has_name old s.tunnel_name)) new ≡ false
    → all (λ s. has_name old s.tunnel_name) new ≡ true
none_unnamed old [] h = refl
none_unnamed old (s ∷ new) h = ground (arith, none_unnamed old new (ground arith))

-- After a Restart a process is launched exactly if it reports no error and there are services to
-- proxy; the services and the configuration stay.
pub restart-launched :
    (l : Launch) (c : FrpClient)
    → ((restart l c).1.launched ≡ (succeeded (restart l c).0 && not (is_empty c.services)))
      × ((restart l c).1.services ≡ c.services)
      × ((restart l c).1.config ≡ c.config)
unfolding restart start begin_start launch stop next_connection_id
restart-launched l c = elim (Bool-cases c.closed) [
  | inl shut ↦ (ground arith, ground arith, ground arith)
  | inr live ↦ elim (Option-cases (next_connection_id l (stop c))) [
    | inl no_id ↦ (ground arith, ground arith, ground arith)
    | inr (id, e) ↦ elim (Option-cases l.resolved_path) [
      | inl lost ↦ (ground arith, ground arith, ground arith)
      | inr (path, found) ↦ (ground arith, ground arith, ground arith)
    ]
  ]
]

-- SyncServices: the client has exactly the allowed services, and if no name was added or removed,
-- nothing else changed, else a process is launched exactly if there is no error and a service.
pub sync_services-restart :
    (vetted : Bytes → Bool) (l : Launch) (ss : List TunnelService) (c : FrpClient)
    → ((sync_services vetted l ss c).1.services ≡ allowed_services vetted ss)
      × (((sync_services vetted l ss c).0.0 ≡ false)
            × (all (λ s. has_name c.services s.tunnel_name) (allowed_services vetted ss) ≡ true)
            × (all (λ s. has_name (allowed_services vetted ss) s.tunnel_name) c.services ≡ true)
            × ((sync_services vetted l ss c).1 ≡ record c { services = allowed_services vetted ss })
          ⊎ ((sync_services vetted l ss c).0.0 ≡ true)
            × ((sync_services vetted l ss c).1.launched ≡ (
                succeeded (sync_services vetted l ss c).0.1
                && not (is_empty (allowed_services vetted ss)))))
unfolding sync_services
sync_services-restart vetted l ss c =
    let new = allowed_services vetted ss in
    let (r, s, t) = restart-launched l (record c { services = new }) in
    let test =
      any (λ s. not (has_name c.services s.tunnel_name)) new
      || any (λ s. not (has_name new s.tunnel_name)) c.services in
    elim (Bool-cases test) [
      | inl differ ↦ (ground (arith, s), inr (ground arith, ground (arith, r)))
      | inr same ↦ (
        ground arith,
        inl (
          ground arith,
          ground (arith, none_unnamed c.services new),
          ground (arith, none_unnamed new c.services),
          ground arith,
        ),
      )
    ]
