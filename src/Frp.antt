-- ===== src/Frp.antt =====
-- internal/frp/frp.go: the client that runs frpc, its services and the trusted server names. A
-- call is one step, but for Start, whose two locked parts are `begin_start` and `launch`. What the
-- config file holds and what the monitor of the process does stand in ConfigFile and Monitor.
pub mod Toml
pub mod Closing
pub mod Vetting
pub mod Restart
pub mod Methods
pub mod ConfigFile
pub mod Monitor
mod Tests
mod ProcessTests
use seawise_client.Prelude.{
  ℕ, ◌+◌, Bool, true, false, not, ◌&&◌, ◌||◌, Option, none, some, List, [], ◌∷◌, ◌++◌,
  if◌then◌else◌, any, keep, ℤ, is_empty,
}
use seawise_client.Prelude.Bytes.{Bytes, lit, ◌==◌, has_suffix, Unicode, to_lower}
use seawise_client.Services.Tunnels.{TunnelService}

pub record Config : Type 0 where
  pub server_addr : Bytes
  pub server_port : ℤ
  pub token : Bytes
  pub server_id : Bytes
  pub use_tls : Bool

pub data ProcessState : Type 0 where
  stopped starting running crashed : ProcessState

-- `launched` says whether cmd is not nil, `config_file` whether frpc.toml is on the disk, and
-- `config_stays` whether its directory refuses to have it removed.
pub record FrpClient : Type 0 where
  pub config : Config
  pub services : List TunnelService
  pub frpc_path : Bytes
  pub launched : Bool
  pub state : ProcessState
  pub crash_count : ℕ
  pub closed : Bool
  pub connection_id : Bytes
  pub config_file : Bool
  pub config_stays : Bool

-- The names of constants.AllowedFRPDomains in production.
abbrev pub production_domains : List Bytes
production_domains = lit ".seawise.dev" ∷ []

unfoldable pub is_allowed_frp_domain : List Bytes → Bytes → Bool
is_allowed_frp_domain domains addr =
    any (λ allowed. has_suffix addr allowed || (addr == allowed)) domains

unfoldable pub is_allowed_server_addr : Unicode → List Bytes → Bytes → Bool
unfolding is_allowed_frp_domain
is_allowed_server_addr u domains addr = is_allowed_frp_domain domains (to_lower u addr)

-- The flag is false for an untrusted domain.
unfoldable pub update_server : List Bytes → Bytes → ℤ → FrpClient → Bool × FrpClient
unfolding is_allowed_frp_domain
update_server domains addr port c =
    if not (is_allowed_frp_domain domains addr)
    then (false, c)
    else (true, record c { config = record c.config { server_addr = addr; server_port = port } })

-- `vetted` is whether ValidateServiceHostResolved accepts the host of a service.
unfoldable pub allowed_services : (Bytes → Bool) → List TunnelService → List TunnelService
allowed_services vetted ss = keep (λ s. vetted s.local_ip) ss

unfoldable pub add_service_without_restart : (Bytes → Bool) → TunnelService → FrpClient → FrpClient
unfolding allowed_services
add_service_without_restart vetted s c =
    if is_empty (allowed_services vetted (s ∷ []))
    then c
    else record c { services = c.services ++ s ∷ [] }

unfoldable pub set_services : (Bytes → Bool) → List TunnelService → FrpClient → FrpClient
unfolding allowed_services
set_services vetted ss c = record c { services = allowed_services vetted ss }

unfoldable pub remove_service_without_restart : Bytes → FrpClient → FrpClient
remove_service_without_restart name c = record c {
  services = keep (λ s. not (s.tunnel_name == name)) c.services;
}

-- What Start takes from outside: the new connection id, whether the config is written and
-- whether a failed write leaves a file, the path of frpc that is found, and whether the process can
-- be spawned.
pub record Launch : Type 0 where
  pub random_id : Option Bytes
  pub config_written : Bool
  pub config_left : Bool
  pub resolved_path : Option Bytes
  pub spawned : Bool

pub data StartError : Type 0 where
  client_closed id_failed config_failed frpc_not_found spawn_failed : StartError

pub data Begun : Type 0 where
  refused : StartError → Begun
  skipped ready : Begun

unfoldable pub next_connection_id : Launch → FrpClient → Option Bytes
next_connection_id l c = if is_empty c.connection_id then l.random_id else some c.connection_id

-- Start up to the first unlock.
unfoldable pub begin_start : Launch → FrpClient → Begun × FrpClient
unfolding next_connection_id
begin_start l c = if c.closed then (refused client_closed, c) else elim (next_connection_id l c) [
  | none ↦ (refused id_failed, c)
  | some id ↦
      let c' : FrpClient = record c { connection_id = id } in
      if is_empty c.services
      then (skipped, c')
      else if not l.config_written
      then (refused config_failed, record c' { config_file = c.config_file || l.config_left })
      else if not (is_empty c.frpc_path)
      then (ready, record c' { config_file = true })
      else elim l.resolved_path [
        | none ↦ (refused frpc_not_found, record c' { state = stopped; config_file = true })
        | some path ↦ (ready, record c' { frpc_path = path; config_file = true })
      ]
]

-- Start from there on.
unfoldable pub launch : Launch → FrpClient → Option StartError × FrpClient
launch l c =
    if l.spawned
    then (none, record c { launched = true; state = running })
    else (some spawn_failed, record c { launched = false; state = crashed })

unfoldable pub start : Launch → FrpClient → Option StartError × FrpClient
unfolding begin_start launch
start l c =
    let (begun, c') = begin_start l c in
    elim begun [ refused e ↦ (some e, c') | skipped ↦ (none, c') | ready ↦ launch l c' ]

-- A removal of frpc.toml that fails is only logged.
unfoldable pub stop : FrpClient → FrpClient
stop c = record c {
  launched = false;
  state = stopped;
  config_file = c.config_file && c.config_stays;
}

unfoldable pub close : FrpClient → FrpClient
unfolding stop
close c = if c.closed then c else stop (record c { closed = true })

unfoldable pub restart : Launch → FrpClient → Option StartError × FrpClient
unfolding start stop
restart l c = start l (stop c)

-- The process exits while it was not being stopped.
unfoldable pub crash : FrpClient → FrpClient
crash c = record c { crash_count = c.crash_count + 1; state = crashed }

abbrev pub has_name : List TunnelService → Bytes → Bool
has_name ss name = any (λ s. s.tunnel_name == name) ss

-- SyncServices: whether a name is added or removed, the error of the restart, and the client.
unfoldable pub sync_services :
    (Bytes → Bool)
    → Launch
    → List TunnelService
    → FrpClient
    → (Bool × Option StartError) × FrpClient
unfolding allowed_services restart
sync_services vetted l ss c =
    let new = allowed_services vetted ss in
    let added = any (λ s. not (has_name c.services s.tunnel_name)) new in
    let removed = any (λ s. not (has_name new s.tunnel_name)) c.services in
    let c' : FrpClient = record c { services = new } in
    if added || removed
    then (let (e, c'') = restart l c' in ((true, e), c''))
    else ((false, none), c')
