-- ===== src/Server/Tests.antt =====
-- Tests of the server, and the theorems on it at concrete inputs.
use seawise_client.Server.Steps.{boots, beats, crashes, run_steps}
use seawise_client.Frp.{is_allowed_frp_domain, FrpClient, running, is_allowed_server_addr}
use seawise_client.Server.Starting.{frp_addr_of}
use seawise_client.Prelude.Bytes.{to_lower, has_suffix, Bytes, lit, ◌==◌}
use seawise_client.Api.{send_failed, Http}
use seawise_client.Server.Binding.{send_heartbeat-IsBoundTo, IsBoundTo}
use seawise_client.Server.Ending.{handle_unpair-start_program}
use seawise_client.Server.Looping.{start_program}
use seawise_client.Config.Migrate.{Outcomes}
use seawise_client.Server.Adding.{handle_add_service-IsAcceptable, IsAcceptable, IsRefusal}
use seawise_client.Server.Beating.{vitals, send_heartbeat, next_period}
use seawise_client.Server.Trust.{Sound, IsSafe}
use seawise_client.Server.Pairings.{
  finish_pairing-outcome, IsGivenUp, poll_for_approval-settles, IsPairedBy,
}
use seawise_client.Server.Health.{check_and_report_health-again, reports_id}
use seawise_client.Connection.{unpaired, new_manager, default_config}
use seawise_client.Server.Trust.Steps.{run_steps-IsSafe}
use seawise_client.Api.Outcomes.{Answered}
use seawise_client.Server.Pacing.{next_period-bounds}
use seawise_client.Api.Registry.{report_service_health}
use seawise_client.Server.Apps.{handle_add_service, NewApp, handle_unpair}
use seawise_client.Server.Polling.{finish_pairing, is_pending, poll_for_approval, timed_out}
use seawise_client.Server.{no_pairing, World, Server, paired, pending}
use seawise_client.Config.{update_machine, exists, missing, Account, holds, written}
use seawise_client.Prelude.Dict.{put, empty}
use seawise_client.Server.Reporting.{check_and_report_health}
use seawise_client.Api.Pairing.{PairCompleteResponse}
use seawise_client.Prelude.{
  ◌*◌, ◌≤◌, ◌<◌, ◌≡◌, refl, ◌⊎◌, Bool, true, false, ◌||◌, none, some, [], ◌∷◌, ℤ, pos,
}
use seawise_client.Api.Requests.{Decoders}
use seawise_client.Auth.Handlers.{parsed}
use seawise_client.Services.Tunnels.{TunnelService}

-- A server that cannot be reached.
abbrev http : Http
http = record {
  marshal = λ payload. some (lit "{}");
  creates = λ req. true;
  send = λ req. none;
  error_body = λ body. none;
  unicode = record { lower = λ s. s; trim = λ s. s; fold = λ s t. s == t };
}

abbrev decoders : Decoders
decoders = record {
  pairing = record {
    pair_request = λ body. none;
    pair_status = λ body. none;
    pair_complete = λ body. none;
  };
  registry = record { service = λ body. none; batch = λ body. none; services = λ body. none };
  heartbeats = record { reason = λ body. []; heartbeat_response = λ body. none };
  certs = record { cert_status = λ body. none; cert_issue = λ body. none };
}

-- No host is vetted, and frpc cannot be spawned.
abbrev pub world : World
world = record {
  http = http;
  decoders = decoders;
  now = 0;
  vetted = λ host. false;
  launch = record {
    random_id = some (lit "ab");
    config_written = true;
    config_left = false;
    resolved_path = none;
    spawned = false;
  };
  found_frpc = none;
  found_config = false;
  config_stays = false;
  saving = record { fresh_id = some (lit "1f"); machine_write = written; account_write = written };
  account_goes = true;
  certs = record {
    cert_exists = λ domain. false;
    needs_renewal = λ domain. false;
    cert_paths = λ domain. none;
    signing_request = λ domain. none;
    saved_paths = λ domain cert. none;
  };
  makes_certs_dir = true;
  domains = lit ".seawise.dev" ∷ [];
  frp_addr_env = lit "frp.seawise.dev";
  subdomain_env = [];
  is_dev = false;
  version = lit "1.0";
}

abbrev plex : TunnelService
plex = record {
  tunnel_name = lit "plex";
  local_ip = lit "localhost";
  local_port = pos 32400;
  tunnel_subdomain = lit "plex-a1";
  use_e2e_tls = false;
  cert_path = [];
  key_path = [];
}

abbrev pub client : FrpClient
client = record {
  config = record {
    server_addr = lit "tunnel.seawise.dev";
    server_port = pos 7000;
    token = lit "t";
    server_id = lit "srv";
    use_tls = true;
  };
  services = plex ∷ [];
  frpc_path = lit "/app/frpc";
  launched = true;
  state = running;
  crash_count = 0;
  closed = false;
  connection_id = lit "ab";
  config_file = true;
  config_stays = false;
}

abbrev pub binding : Account
binding = record {
  server_id = lit "0f8fad5b-d9cb-469f-a165-70867728950e";
  server_name = lit "nas";
  frp_token = lit "t";
  frp_server_addr = lit "tunnel.seawise.dev";
  frp_server_port = pos 7000;
  frp_use_tls = true;
  api_url = lit "https://api.seawise.io";
  user_id = lit "u";
  user_email = lit "u@x";
}

abbrev pub server : Server
server = record {
  api = record { base_url = lit "https://api.seawise.io"; frp_token = lit "t" };
  cfg = some binding;
  frp = some client;
  manager = new_manager default_config;
  certs_enabled = false;
  e2e_tls_enabled = false;
  pairing_code = [];
  pairing_device_code = [];
  pairing_state = paired;
  latest_version = [];
  service_cache = put (lit "plex-a1") (lit "svc") empty;
  last_health_status = empty;
  reconcile_in_progress = false;
  restart_in_progress = true;
  loops_started = true;
  heartbeat_period = 30000000000;
  disk = record {
    machine = holds (record { machine_id = lit "1f"; machine_name = lit "nas"; services = [] });
    account = holds binding;
    legacy = missing;
  };
  spawned = [];
}

-- The addresses that one of the two tests lets through.
abbrev trusted : Bytes → Bool
trusted addr =
    is_allowed_server_addr world.http.unicode world.domains addr
    || is_allowed_frp_domain world.domains addr

abbrev no_host : Bytes → Bool
no_host host = host == lit "localhost"

or_else : (b : Bool) {c : Bool} → c ≡ true → (b || c) ≡ true
or_else true h = refl
or_else false h = h

world-Sound : Sound trusted no_host world
unfolding is_allowed_server_addr is_allowed_frp_domain frp_addr_of to_lower ◌==◌ has_suffix lit
world-Sound = record {
  lowered = λ a e. rw e refl;
  exact = λ a e. or_else (is_allowed_server_addr world.http.unicode world.domains a) e;
  fallback = refl;
  vets = λ host e. absurd cc;
}

run_steps-IsSafe_example :
    IsSafe trusted no_host
      (run_steps
        (boots world ∷ crashes world ∷ beats world ∷ [])
        (record server { frp = none })).frp
run_steps-IsSafe_example =
    run_steps-IsSafe trusted no_host (boots world ∷ crashes world ∷ beats world ∷ [])
      (record server { frp = none }) (world-Sound, (world-Sound, (world-Sound, tt))) tt

send_heartbeat-IsBoundTo_example :
    IsBoundTo binding (send_heartbeat world server)
    ⊎ Answered world.http binding.server_id (vitals world server) server.api 410
send_heartbeat-IsBoundTo_example = send_heartbeat-IsBoundTo world server binding refl

-- The approved pairing.
abbrev approved : PairCompleteResponse
approved = record {
  server_id = lit "0f8fad5b-d9cb-469f-a165-70867728950e";
  server_name = lit "nas";
  frp_token = lit "t2";
  frp_server_addr = lit "frp.evil.example";
  frp_server_port = pos 7000;
  frp_use_tls = true;
  user_id = lit "u";
  user_email = lit "u@x";
}

finish_pairing-outcome_example :
    IsPairedBy world approved server (finish_pairing world approved server)
    ⊎ IsGivenUp world approved server (finish_pairing world approved server)
finish_pairing-outcome_example = finish_pairing-outcome world approved server

poll_for_approval-settles_example :
    is_pending
      (poll_for_approval
        (lit "d")
        (timed_out ∷ [])
        (record server { pairing_state = pending })).1.pairing_state
    ≡ false
unfolding poll_for_approval
poll_for_approval-settles_example =
    poll_for_approval-settles (lit "d") (timed_out ∷ []) (record server { pairing_state = pending })
      refl refl

-- A migration that could not make an id.
abbrev failing : Outcomes
failing = record {
  fresh_id = none;
  machine_write = written;
  account_write = written;
  removes = false;
}

-- The server on a disk that has been migrated.
abbrev split_server : Server
split_server = record server {
  disk = record server.disk {
    machine = holds (record { machine_id = lit "1f"; machine_name = lit "nas"; services = [] });
  };
}

abbrev restarted : Server
restarted = record server {
  frp = none;
  disk = (handle_unpair world (lit "POST") split_server).1.disk;
}

machine_stays : exists restarted.disk.machine ≡ true
unfolding handle_unpair exists update_machine new_manager ◌==◌ lit
machine_stays = refl

handle_unpair-start_program_example :
    ((handle_unpair world (lit "POST") split_server).1.cfg ≡ none)
    × ((handle_unpair world (lit "POST") split_server).1.frp ≡ none)
    × ((handle_unpair world (lit "POST") split_server).1.pairing_state ≡ no_pairing)
    × ((handle_unpair world (lit "POST") split_server).1.manager.state ≡ unpaired)
    × ((handle_unpair world (lit "POST") split_server).1.disk.account ≡ missing)
    × ((t : Server) × (start_program failing world restarted ≡ some t)
        × (t.manager.state ≡ unpaired)
        × (t.frp ≡ none))
handle_unpair-start_program_example =
    handle_unpair-start_program world world failing split_server restarted refl refl machine_stays

abbrev bad_app : NewApp
bad_app = record { app_name = lit "meta"; app_host = lit "169.254.169.254"; app_port = pos 80 }

handle_add_service-IsAcceptable_example :
    IsRefusal server
      (handle_add_service world (lit "POST") (some (lit "01")) (parsed bad_app) server)
    ⊎ ((app : NewApp) × (parsed bad_app ≡ parsed app)
        × (lit "POST" ≡ lit "POST")
        × IsAcceptable world app)
handle_add_service-IsAcceptable_example =
    handle_add_service-IsAcceptable world (lit "POST") (some (lit "01")) (parsed bad_app) server

abbrev dials : Bytes → ℤ → Bool
dials host port = true

check_and_report_health-again_example :
    reports_id
      (lit "svc")
      (check_and_report_health world dials true
        (check_and_report_health world dials true server).1).0
    ≡ true
unfolding check_and_report_health ◌==◌ lit report_service_health
check_and_report_health-again_example =
    check_and_report_health-again world world dials dials server binding send_failed (lit "svc")
      refl refl refl

next_period-bounds_example :
    (10000000000 ≤ next_period world 20000)
    × (next_period world 20000 ≤ 300000000000)
    × ((next_period world 20000 ≡ 20000 * 1000000) ⊎ (20000 < 10000) ⊎ (300000 < 20000))
next_period-bounds_example = next_period-bounds world 20000
