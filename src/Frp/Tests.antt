-- ===== src/Frp/Tests.antt =====
-- Tests of the frp client, and the theorems on it at concrete inputs.
use seawise_client.Prelude.{◌≡◌, refl, Bool, true, false, not, none, some, [], ◌∷◌, pos}
use seawise_client.Prelude.Bytes.{Bytes, lit, ◌==◌, has_suffix}
use seawise_client.Services.Tunnels.{TunnelService}
use seawise_client.Frp.{
  ready, FrpClient, stopped, production_domains, is_allowed_frp_domain, update_server, Launch,
  begin_start, next_connection_id, launch, close,
}
use seawise_client.Frp.Closing.{
  starts, syncs, run_calls, IsDown, run_calls-close, run_calls-launch, IsOrphaned, closes,
}

abbrev plex : TunnelService
plex = record {
  tunnel_name = lit "plex";
  local_ip = lit "localhost";
  local_port = pos 32400;
  tunnel_subdomain = lit "plex-a1";
  use_e2e_tls = false;
  cert_path = [];
  key_path = [];
}

abbrev metadata : TunnelService
metadata = record plex { tunnel_name = lit "meta"; local_ip = lit "169.254.169.254" }

abbrev pub client : FrpClient
client = record {
  config = record {
    server_addr = lit "tunnel.seawise.dev";
    server_port = pos 7000;
    token = lit "t";
    server_id = lit "srv";
    use_tls = true;
  };
  services = plex ∷ [];
  frpc_path = lit "/app/frpc";
  launched = false;
  state = stopped;
  crash_count = 0;
  closed = false;
  connection_id = [];
  config_file = false;
  config_stays = false;
}

abbrev works : Launch
works = record {
  random_id = some (lit "ab");
  config_written = true;
  config_left = false;
  resolved_path = none;
  spawned = true;
}

-- Accepts every host but the one of the metadata service.
abbrev vetted : Bytes → Bool
vetted host = not (host == lit "169.254.169.254")

trusted_domains :
    (is_allowed_frp_domain production_domains (lit "us.seawise.dev") ≡ true)
    × (is_allowed_frp_domain production_domains (lit "evilseawise.dev") ≡ false)
unfolding is_allowed_frp_domain has_suffix ◌==◌ lit
trusted_domains = (refl, refl)

untrusted_server :
    update_server production_domains (lit "example.com") (pos 7000) client ≡ (false, client)
unfolding update_server is_allowed_frp_domain has_suffix ◌==◌ lit
untrusted_server = refl

run_calls-close_example :
    IsDown (run_calls (starts works ∷ syncs vetted works (plex ∷ []) ∷ []) (close client))
run_calls-close_example =
    run_calls-close (starts works ∷ syncs vetted works (plex ∷ []) ∷ []) client refl

started_open : (begin_start works client).0 ≡ ready
unfolding begin_start next_connection_id lit
started_open = refl

run_calls-launch_example :
    IsOrphaned false
      (run_calls (closes ∷ starts works ∷ []) (launch works (close (begin_start works client).1)).1)
run_calls-launch_example =
    run_calls-launch works client (closes ∷ starts works ∷ []) started_open refl refl
