-- ===== src/Api/Requests.antt =====
-- Where the requests of internal/api/client.go go, and what they carry.
use seawise_client.Api.SafeUrls.{is_safe_url}
use seawise_client.Prelude.{ℕ, ◌≡◌, ◌⊎◌, true, Option, none, some, List, [], ◌∷◌, ◌++◌, ℤ}
use seawise_client.Prelude.Bytes.{Bytes, lit, has_prefix}
use seawise_client.Services.Registration.{BatchServiceInput}
use seawise_client.Api.{Request, Http, ApiClient}
use seawise_client.Api.Pairing.{
  PairingDecoders, request_pairing, init_pairing, poll_pairing_status, complete_pairing,
  cancel_pairing,
}
use seawise_client.Api.Registry.{
  ServiceHealthStatus, RegistryDecoders, report_service_health, mark_offline, delete_server,
  delete_service, register_service, batch_register_services, list_services,
}
use seawise_client.Api.Heartbeat.{HeartbeatDecoders, Vitals, heartbeat}
use seawise_client.Api.Certificates.{CertDecoders, get_cert_status, request_certificate}

pub record Decoders : Type 0 where
  pub pairing : PairingDecoders
  pub registry : RegistryDecoders
  pub heartbeats : HeartbeatDecoders
  pub certs : CertDecoders

-- A call of the client.
pub data ApiCall : Type 0 where
  requests_pairing polls completes cancels : Bytes → ApiCall
  inits_pairing : (Bytes → Option ℕ) → ℕ → Bytes → ApiCall
  registers : Bytes → Bytes → Bytes → ℤ → ApiCall
  registers_batch : Bytes → List BatchServiceInput → ApiCall
  beats : Bytes → Vitals → ApiCall
  lists marks_offline deletes_server : Bytes → ApiCall
  reports : Bytes → List ServiceHealthStatus → ApiCall
  deletes_service requests_certificate : Bytes → Bytes → ApiCall
  gets_cert_status : ApiCall

-- The requests that a call sends.
abbrev pub sent_by : Http → Decoders → ApiCall → ApiClient → List Request
sent_by h d (requests_pairing name) c = (request_pairing h d.pairing name c).1
sent_by h d (polls code) c = (poll_pairing_status h d.pairing code c).1
sent_by h d (completes code) c = (complete_pairing h d.pairing code c).1
sent_by h d (cancels code) c = (cancel_pairing h d.pairing code c).1
sent_by h d (inits_pairing parse_time now name) c =
    (init_pairing h d.pairing parse_time now name c).1
sent_by h d (registers server_id name host port) c =
    (register_service h d.registry server_id name host port c).1
sent_by h d (registers_batch server_id ss) c =
    (batch_register_services h d.registry server_id ss c).1
sent_by h d (beats server_id v) c = (heartbeat d.heartbeats h server_id v c).1
sent_by h d (lists server_id) c = (list_services h d.registry server_id c).1
sent_by h d (marks_offline server_id) c = (mark_offline h server_id c).1
sent_by h d (deletes_server server_id) c = (delete_server h server_id c).1
sent_by h d (reports server_id statuses) c = (report_service_health h server_id statuses c).1
sent_by h d (deletes_service server_id service_id) c = (delete_service h server_id service_id c).1
sent_by h d (requests_certificate subdomain csr) c =
    (request_certificate h d.certs subdomain csr c).1
sent_by h d gets_cert_status c = (get_cert_status h d.certs c).1

-- A request to a path below /api/ of the client's server, safe as above, with the client's token
-- or none.
abbrev pub IsProper : ApiClient → Request → Type 0
IsProper c r =
    (has_prefix r.url (c.base_url ++ lit "/api/") ≡ true)
    × (is_safe_url r.url ≡ true)
    × ((r.token ≡ none) ⊎ (r.token ≡ some c.frp_token))

-- At most one request, and it is proper.
abbrev pub AtMostOne : ApiClient → List Request → Type 0
AtMostOne c [] = Unit
AtMostOne c (r ∷ []) = IsProper c r
AtMostOne c (r ∷ q ∷ rs) = ⊥

-- The two facts about the URL, and those about the token.
IsUrl : ApiClient → Bytes → Type 0
IsUrl c url = (has_prefix url (c.base_url ++ lit "/api/") ≡ true) × (is_safe_url url ≡ true)

abbrev IsToken : ApiClient → Option Bytes → Type 0
IsToken c token = (token ≡ none) ⊎ (token ≡ some c.frp_token)
