-- ===== src/Frp/Methods.antt =====
-- The smaller methods of internal/frp/frp.go that the server calls.
use seawise_client.Prelude.{
  Bool, true, false, not, ◌&&◌, Option, none, some, [], ◌∷◌, ◌++◌, if◌then◌else◌,
}
use seawise_client.Prelude.Bytes.{Bytes}
use seawise_client.Services.Tunnels.{TunnelService}
use seawise_client.Frp.{
  Config, ProcessState, stopped, starting, running, crashed, FrpClient, Launch, StartError, restart,
  remove_service_without_restart,
}

-- New; the path is the one that is found, if any. The last two say whether a frpc.toml of an earlier
-- run is there, and whether it cannot be removed.
unfoldable pub new_frp_client : Bool → Bool → Option Bytes → Config → FrpClient
new_frp_client left stays path cfg = record {
  config = cfg;
  services = [];
  frpc_path = elim path [ none ↦ [] | some p ↦ p ];
  launched = false;
  state = stopped;
  crash_count = 0;
  closed = false;
  connection_id = [];
  config_file = left;
  config_stays = stays;
}

abbrev pub is_running_state : ProcessState → Bool
is_running_state running = true
is_running_state stopped = false
is_running_state starting = false
is_running_state crashed = false

unfoldable pub is_running : FrpClient → Bool
is_running c = is_running_state c.state && c.launched

unfoldable pub reset_connection_id : FrpClient → FrpClient
reset_connection_id c = record c { connection_id = [] }

unfoldable pub reset_crash_count : FrpClient → FrpClient
reset_crash_count c = record c { crash_count = 0 }

-- AddService: `none` is a host that is refused, and otherwise Restart's error.
unfoldable pub add_service :
    (Bytes → Bool) → Launch → TunnelService → FrpClient → Option (Option StartError) × FrpClient
unfolding restart
add_service vetted l s c =
    if not (vetted s.local_ip)
    then (none, c)
    else let (e, c') = restart l (record c { services = c.services ++ s ∷ [] }) in (some e, c')

unfoldable pub remove_service : Launch → Bytes → FrpClient → Option StartError × FrpClient
unfolding restart remove_service_without_restart
remove_service l name c = restart l (remove_service_without_restart name c)
