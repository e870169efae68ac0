-- ===== src/Server/Reporting.antt =====
-- checkAndReportHealth of cmd/seawise/server/service_lifecycle.go.
use seawise_client.Prelude.{Bool, not, ◌||◌, none, some, List, [], ◌∷◌, if◌then◌else◌, ℤ, is_empty}
use seawise_client.Prelude.Bytes.{Bytes, lit, ◌==◌}
use seawise_client.Prelude.Dict.{Dict, put, delete}
use seawise_client.Services.Tunnels.{TunnelService}
use seawise_client.Api.{ok, err}
use seawise_client.Api.Registry.{ServiceHealthStatus, report_service_health}
use seawise_client.Server.{Server, World}

-- `dials` is whether a TCP connection to the host and port can be opened.
unfoldable pub health_of : (Bytes → ℤ → Bool) → TunnelService → Bytes
health_of dials t = if dials t.local_ip t.local_port then lit "online" else lit "offline"

-- The last status of an id; a missing one is the empty text.
unfoldable pub last_of : Dict Bytes → Bytes → Bytes
last_of health id = elim (health id) [ none ↦ [] | some status ↦ status ]

-- The loop over the services: the statuses that changed, and the map with them.
unfoldable pub check_services :
    (Bytes → ℤ → Bool)
    → Dict Bytes
    → List TunnelService
    → Dict Bytes
    → List ServiceHealthStatus × Dict Bytes
unfolding health_of last_of
check_services dials cache [] health = ([], health)
check_services dials cache (t ∷ ts) health = elim (cache t.tunnel_subdomain) [
  | none ↦ check_services dials cache ts health
  | some id ↦
      let status = health_of dials t in
      let same_rest = check_services dials cache ts health in
      let (changed, health') = check_services dials cache ts (put id status health) in
      if last_of health id == status
      then same_rest
      else (record { id = id; status = status } ∷ changed, health')
]

unfoldable pub forget : List ServiceHealthStatus → Dict Bytes → Dict Bytes
forget [] health = health
forget (x ∷ xs) health = forget xs (delete x.id health)

-- What is reported, and the server. An empty map of services is no map.
unfoldable pub check_and_report_health :
    World → (Bytes → ℤ → Bool) → Bool → Server → List ServiceHealthStatus × Server
unfolding check_services forget
check_and_report_health w dials has_cache s = elim s.cfg [
  | none ↦ ([], s)
  | some c ↦ elim s.frp [
    | none ↦ ([], s)
    | some client ↦
        if is_empty client.services || not has_cache
        then ([], s)
        else (let (changed, health) =
              check_services dials s.service_cache client.services s.last_health_status in
            if is_empty changed
            then (changed, record s { last_health_status = health })
            else elim (report_service_health w.http c.server_id changed s.api).0 [
              | ok u ↦ (changed, record s { last_health_status = health })
              | err e ↦ (changed, record s { last_health_status = forget changed health })
            ])
  ]
]
