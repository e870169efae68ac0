-- ===== src/Services/Tunnels.antt =====
-- buildTunnelServices of cmd/seawise/server/service_sync.go: which services get a tunnel.
use seawise_client.Prelude.{
  ◌≡◌, refl, sym, inl, inr, Bool, true, false, not, ◌&&◌, ◌||◌, List, [], ◌∷◌, map, arith,
  if◌then◌else◌, Bool-cases, all, ℤ, subst, ◌↔◌, is_empty,
}
use mathlib.Core.List.Memᴰ.{Memᴰ, head, tail, not-nil, cases_cons}
use seawise_client.Prelude.Bytes.{Bytes, Unicode, equal_fold}
use seawise_client.Config.{LocalService}
use seawise_client.Services.Registration.{on_server, has_vanished, drop_vanished}
use seawise_client.Services.Invariant.{differs, distinct}

-- frp.Service
pub record TunnelService : Type 0 where
  pub tunnel_name : Bytes
  pub local_ip : Bytes
  pub local_port : ℤ
  pub tunnel_subdomain : Bytes
  pub use_e2e_tls : Bool
  pub cert_path : Bytes
  pub key_path : Bytes

unfoldable pub has_tunnel : List Bytes → LocalService → Bool
unfolding on_server
has_tunnel ids s =
    not (s.disabled || is_empty s.server_service_id || not (on_server ids s.server_service_id))
    && not (is_empty s.subdomain)

unfoldable pub tunnel_of : LocalService → TunnelService
tunnel_of s = record {
  tunnel_name = s.name;
  local_ip = s.host;
  local_port = s.port;
  tunnel_subdomain = s.subdomain;
  use_e2e_tls = false;
  cert_path = [];
  key_path = [];
}

unfoldable pub build_tunnel_services : List LocalService → List Bytes → List TunnelService
unfolding has_tunnel tunnel_of
build_tunnel_services [] ids = []
build_tunnel_services (s ∷ ss) ids =
    let rest = build_tunnel_services ss ids in if has_tunnel ids s then tunnel_of s ∷ rest else rest

-- What a service must meet to get a tunnel.
abbrev pub IsTunnelled : List Bytes → LocalService → Type 0
IsTunnelled ids s =
    (s.disabled ≡ false)
    × (is_empty s.server_service_id ≡ false)
    × (on_server ids s.server_service_id ≡ true)
    × (is_empty s.subdomain ≡ false)

tunnel_sound :
    (t : TunnelService) (ss : List LocalService) (ids : List Bytes)
    → Memᴰ t (build_tunnel_services ss ids)
    → (s : LocalService) × Memᴰ s ss × IsTunnelled ids s × (t ≡ tunnel_of s)
unfolding build_tunnel_services has_tunnel
tunnel_sound t [] ids m = absurd (not-nil m)
tunnel_sound t (s ∷ ss) ids m =
    let rest : Memᴰ t (build_tunnel_services ss ids)
        → (s' : LocalService) × Memᴰ s' (s ∷ ss) × IsTunnelled ids s' × (t ≡ tunnel_of s') =
      λ m'. let (s', n, h, e) = tunnel_sound t ss ids m' in (s', tail n, h, e) in
    elim (Bool-cases (has_tunnel ids s)) [
      | inl tunnelled ↦
          let m' : Memᴰ t (tunnel_of s ∷ build_tunnel_services ss ids) =
            subst (Memᴰ t) (ground arith) m in
          elim (cases_cons m') [
            | inl e ↦ (s, head refl, (ground arith, ground arith, ground arith, ground arith), e)
            | inr n ↦ rest n
          ]
      | inr skipped ↦ rest (subst (Memᴰ t) (ground arith) m)
    ]

tunnel_complete :
    (s : LocalService) (ss : List LocalService) (ids : List Bytes)
    → Memᴰ s ss
    → IsTunnelled ids s
    → Memᴰ (tunnel_of s) (build_tunnel_services ss ids)
unfolding build_tunnel_services has_tunnel
tunnel_complete s [] ids m h = absurd (not-nil m)
tunnel_complete s (x ∷ ss) ids m h = elim (cases_cons m) [
  | inl e ↦
      subst (Memᴰ (tunnel_of s)) (ground (arith, h.0, h.1, h.2, h.3))
        (head {x = tunnel_of s} {xs = build_tunnel_services ss ids} refl)
  | inr n ↦ elim (Bool-cases (has_tunnel ids x)) [
    | inl tunnelled ↦
        subst (Memᴰ (tunnel_of s)) (ground arith)
          (tail {x = tunnel_of x} (tunnel_complete s ss ids n h))
    | inr skipped ↦ subst (Memᴰ (tunnel_of s)) (ground arith) (tunnel_complete s ss ids n h)
  ]
]

-- The tunnels are those of the enabled services that the server lists and that have a subdomain,
-- each with the service's own name, host, port and subdomain.
pub build_tunnel_services_iff :
    (t : TunnelService) (ss : List LocalService) (ids : List Bytes)
    → Memᴰ t (build_tunnel_services ss ids)
      ↔ ((s : LocalService) × Memᴰ s ss × IsTunnelled ids s × (t ≡ tunnel_of s))
build_tunnel_services_iff t ss ids = (
  tunnel_sound t ss ids,
  λ (s, m, h, e).
      subst (λ x. Memᴰ x (build_tunnel_services ss ids)) (sym e) (tunnel_complete s ss ids m h),
)

-- Disabling the services that left the server takes no tunnel away and adds none.
build_tunnel_services-drop_vanished :
    (ss : List LocalService) (ids : List Bytes)
    → build_tunnel_services (map (drop_vanished ids) ss) ids ≡ build_tunnel_services ss ids
unfolding build_tunnel_services has_tunnel tunnel_of drop_vanished has_vanished
build_tunnel_services-drop_vanished [] ids = refl
build_tunnel_services-drop_vanished (s ∷ ss) ids =
    ground (arith, build_tunnel_services-drop_vanished ss ids)

-- No two tunnels have names that differ at most in case.
abbrev pub distinct_names : Unicode → List TunnelService → Bool
distinct_names u [] = true
distinct_names u (t ∷ ts) =
    all (λ v. not (equal_fold u t.tunnel_name v.tunnel_name)) ts && distinct_names u ts

all-build_tunnel_services :
    (u : Unicode) (s : LocalService) (ss : List LocalService) (ids : List Bytes)
    → all (λ v. differs u v s) ss ≡ true
    → all (λ v. not (equal_fold u s.name v.tunnel_name)) (build_tunnel_services ss ids) ≡ true
unfolding build_tunnel_services tunnel_of
all-build_tunnel_services u s [] ids h = refl
all-build_tunnel_services u s (t ∷ ss) ids h =
    ground (arith, all-build_tunnel_services u s ss ids (ground arith))

-- Among services with different names, each tunnel has a name of its own, whatever the case.
build_tunnel_services-distinct :
    (u : Unicode) (ss : List LocalService) (ids : List Bytes)
    → distinct u ss ≡ true
    → distinct_names u (build_tunnel_services ss ids) ≡ true
unfolding build_tunnel_services tunnel_of
build_tunnel_services-distinct u [] ids h = refl
build_tunnel_services-distinct u (s ∷ ss) ids h = ground (
  arith,
  all-build_tunnel_services u s ss ids (ground arith),
  build_tunnel_services-distinct u ss ids (ground arith),
)
