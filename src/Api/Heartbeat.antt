-- ===== src/Api/Heartbeat.antt =====
-- Heartbeat of internal/api/client.go.
use seawise_client.Prelude.{
  ℕ, Bool, true, false, not, Option, none, some, List, [], eqb, if◌then◌else◌, ℤ, pos, is_empty,
}
use seawise_client.Prelude.Bytes.{Bytes, lit}
use seawise_client.Api.{
  Json, text, number, flag, object, no_fields, field, Request, Response, Http, ApiClient, ApiError,
  read_failed, parse_failed, invalid_server_id, refused_status, unpair_requested,
  superseded_by_other, Result, ok, err, exchange_json, read_response_body,
}
use seawise_client.Api.Url.{is_valid_uuid}
use seawise_client.Api.Registry.{server_url}

pub record MigrateInfo : Type 0 where
  pub frp_server_addr : Bytes
  pub frp_server_port : ℤ
  pub shard_id : Bytes

pub record ShardInfo : Type 0 where
  pub frp_server_addr : Bytes
  pub frp_server_port : ℤ

pub record HeartbeatResponse : Type 0 where
  pub status : Bytes
  pub server_status : Bytes
  pub server_time : Bytes
  pub previous_status : Bytes
  pub gap_seconds : ℤ
  pub next_heartbeat_ms : ℤ
  pub timeout_ms : ℤ
  pub migrate_to : Option MigrateInfo
  pub shard : Option ShardInfo

pub record HeartbeatResult : Type 0 where
  pub success : Bool
  pub should_unpair : Bool
  pub unpair_reason : Bytes
  pub superseded : Bool
  pub response : Option HeartbeatResponse
  pub error : Option ApiError

-- `reason` is the reason in the body of a 410, empty where it has none.
pub record HeartbeatDecoders : Type 0 where
  pub reason : Bytes → Bytes
  pub heartbeat_response : Bytes → Option HeartbeatResponse

-- What the client tells of itself.
pub record Vitals : Type 0 where
  pub frp_connected : Bool
  pub service_count : ℕ
  pub client_version : Bytes
  pub connection_id : Bytes

unfoldable pub heartbeat_payload : Vitals → Json
heartbeat_payload v = object (
    field (lit "frp_connected") (flag v.frp_connected) (
      field (lit "service_count") (number (pos v.service_count)) (
        field (lit "client_version") (text v.client_version)
          (field (lit "connection_id") (text v.connection_id) no_fields))))

abbrev pub failed_heartbeat : ApiError → HeartbeatResult
failed_heartbeat e = record {
  success = false;
  should_unpair = false;
  unpair_reason = [];
  superseded = false;
  response = none;
  error = some e;
}

module _ (d : HeartbeatDecoders) where
  -- What an answer means, its body read.
  unfoldable pub heartbeat_answer : ℕ → Bytes → HeartbeatResult
  heartbeat_answer code content =
      if eqb code 410
      then (let reason = d.reason content in
          let told = if is_empty reason then lit "unspecified" else reason in
          record (failed_heartbeat (unpair_requested told)) {
            should_unpair = true;
            unpair_reason = told;
          })
      else if eqb code 409
      then record (failed_heartbeat superseded_by_other) { superseded = true }
      else if not (eqb code 200)
      then failed_heartbeat (refused_status code)
      else elim (d.heartbeat_response content) [
        | none ↦ failed_heartbeat parse_failed
        | some response ↦ record {
          success = true;
          should_unpair = false;
          unpair_reason = [];
          superseded = false;
          response = some response;
          error = none;
        }
      ]

  unfoldable pub heartbeat_read : Result Response → HeartbeatResult
  unfolding heartbeat_answer read_response_body
  heartbeat_read (err e) = failed_heartbeat e
  heartbeat_read (ok resp) = elim (read_response_body resp) [
    | none ↦ failed_heartbeat read_failed
    | some content ↦ heartbeat_answer resp.status_code content
  ]

  unfoldable pub heartbeat : Http → Bytes → Vitals → ApiClient → HeartbeatResult × List Request
  unfolding heartbeat_read heartbeat_payload exchange_json server_url is_valid_uuid
  heartbeat h server_id v c =
      if not (is_valid_uuid server_id)
      then (failed_heartbeat invalid_server_id, [])
      else let (answer, sent) =
          exchange_json h (lit "POST") (server_url server_id (lit "/heartbeat") c)
            (some c.frp_token) (heartbeat_payload v) in
        (heartbeat_read answer, sent)
