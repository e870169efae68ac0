-- ===== src/Api/Tests.antt =====
-- Tests of the API client, and the theorems on it at concrete inputs.
use seawise_client.Prelude.Bytes.{◌==◌, Bytes, lit}
use seawise_client.Api.Outcomes.{heartbeat-Reports, Answered, Reports}
use seawise_client.Api.Requests.{Decoders}
use seawise_client.Prelude.{◌≡◌, refl, true, false, none, some, []}
use seawise_client.Api.{Http, ApiClient, Response}
use seawise_client.Api.Url.{is_valid_uuid}
use seawise_client.Api.Heartbeat.{Vitals, heartbeat}

abbrev gone : Response
gone = record { status_code = 410; content = some (lit "{}") }

-- A server that answers every request with a 410.
abbrev http : Http
http = record {
  marshal = λ payload. some (lit "{}");
  creates = λ req. true;
  send = λ req. some gone;
  error_body = λ body. none;
  unicode = record { lower = λ s. s; trim = λ s. s; fold = λ s t. s == t };
}

abbrev decoders : Decoders
decoders = record {
  pairing = record {
    pair_request = λ body. none;
    pair_status = λ body. none;
    pair_complete = λ body. none;
  };
  registry = record { service = λ body. none; batch = λ body. none; services = λ body. none };
  heartbeats = record { reason = λ body. []; heartbeat_response = λ body. none };
  certs = record { cert_status = λ body. none; cert_issue = λ body. none };
}

abbrev client : ApiClient
client = record { base_url = lit "https://api.seawise.io"; frp_token = [] }

abbrev server_id : Bytes
server_id = lit "0f8fad5b-d9cb-469f-a165-70867728950e"

abbrev vitals : Vitals
vitals = record {
  frp_connected = true;
  service_count = 2;
  client_version = lit "1.0";
  connection_id = lit "ab";
}

is_valid_uuid_accepts : is_valid_uuid server_id ≡ true
unfolding is_valid_uuid lit
is_valid_uuid_accepts = refl

is_valid_uuid_refuses : is_valid_uuid (lit "0f8fad5b-d9cb-469f-a165-70867728950/") ≡ false
unfolding is_valid_uuid lit
is_valid_uuid_refuses = refl

heartbeat_gone : (heartbeat decoders.heartbeats http server_id vitals client).0.should_unpair ≡ true
unfolding heartbeat lit
heartbeat_gone = refl

heartbeat-Reports_example :
    Reports
      (Answered http server_id vitals client)
      (heartbeat decoders.heartbeats http server_id vitals client).0
heartbeat-Reports_example = heartbeat-Reports decoders.heartbeats http server_id vitals client
