-- ===== src/Api/Pairing.antt =====
-- The calls of internal/api/client.go that pair the machine with an account.
use seawise_client.Prelude.{ℕ, ◌+◌, Bool, not, Option, none, some, ◌++◌, eqb, if◌then◌else◌, ℤ}
use seawise_client.Prelude.Bytes.{Bytes, lit}
use seawise_client.Validation.{parse_api_error}
use seawise_client.Api.{
  Json, text, object, no_fields, field, Response, Http, ApiClient, unreadable_status, refused,
  read_failed, parse_failed, Result, ok, err, Exchange, and_then, read_response_body, is_ok,
  exchange_json, decoded,
}

pub record PairRequestResponse : Type 0 where
  pub user_code : Bytes
  pub device_code : Bytes
  pub expires_at : Bytes

pub record PairCompleteResponse : Type 0 where
  pub server_id : Bytes
  pub server_name : Bytes
  pub frp_token : Bytes
  pub frp_server_addr : Bytes
  pub frp_server_port : ℤ
  pub frp_use_tls : Bool
  pub user_id : Bytes
  pub user_email : Bytes

-- An instant is a number of nanoseconds.
pub record PairingCodes : Type 0 where
  pub user_code : Bytes
  pub device_code : Bytes
  pub expires_at : ℕ

pub record PairingDecoders : Type 0 where
  pub pair_request : Bytes → Option PairRequestResponse
  pub pair_status : Bytes → Option Bytes
  pub pair_complete : Bytes → Option PairCompleteResponse

-- The payload {"device_code": ...}.
unfoldable pub device_code_payload : Bytes → Json
device_code_payload device_code = object (field (lit "device_code") (text device_code) no_fields)

module _ (h : Http) (d : PairingDecoders) where
  unfoldable pub request_pairing : Bytes → ApiClient → Exchange PairRequestResponse
  unfolding exchange_json decoded
  request_pairing name c =
      and_then
        (exchange_json h (lit "POST") (c.base_url ++ lit "/api/servers/pair/request") none
          (object (field (lit "server_name") (text name) no_fields)))
        (decoded h is_ok d.pair_request)

  -- `parse_time` is time.Parse; ten minutes from now stand in for a time that it refuses.
  unfoldable pub init_pairing : (Bytes → Option ℕ) → ℕ → Bytes → ApiClient → Exchange PairingCodes
  unfolding request_pairing
  init_pairing parse_time now name c = and_then (request_pairing name c) (λ result. ok (record {
    user_code = result.user_code;
    device_code = result.device_code;
    expires_at = elim (parse_time result.expires_at) [ some t ↦ t | none ↦ now + 600000000000 ];
  }))

  -- A rate limited poll stays pending.
  unfoldable pub poll_status_of : Response → Result Bytes
  unfolding read_response_body
  poll_status_of resp = elim (read_response_body resp) [
    | none ↦ err read_failed
    | some content ↦
        if eqb resp.status_code 429
        then ok (lit "pending")
        else if not (eqb resp.status_code 200)
        then err (refused (parse_api_error h.unicode (h.error_body content) resp.status_code))
        else elim (d.pair_status content) [ none ↦ err parse_failed | some status ↦ ok status ]
  ]

  unfoldable pub poll_pairing_status : Bytes → ApiClient → Exchange Bytes
  unfolding exchange_json device_code_payload poll_status_of
  poll_pairing_status device_code c =
      and_then
        (exchange_json h (lit "POST") (c.base_url ++ lit "/api/servers/pair/status") none
          (device_code_payload device_code))
        poll_status_of

  unfoldable pub complete_pairing : Bytes → ApiClient → Exchange PairCompleteResponse
  unfolding exchange_json device_code_payload decoded
  complete_pairing device_code c =
      and_then
        (exchange_json h (lit "POST") (c.base_url ++ lit "/api/servers/pair/complete") none
          (device_code_payload device_code))
        (decoded h is_ok d.pair_complete)

  unfoldable pub cancel_answer : Response → Result (Unit {0})
  unfolding read_response_body
  cancel_answer resp = if eqb resp.status_code 200 then ok tt else elim (read_response_body resp) [
    | none ↦ err (unreadable_status resp.status_code)
    | some content ↦
        err (refused (parse_api_error h.unicode (h.error_body content) resp.status_code))
  ]

  unfoldable pub cancel_pairing : Bytes → ApiClient → Exchange (Unit {0})
  unfolding exchange_json device_code_payload cancel_answer
  cancel_pairing device_code c =
      and_then
        (exchange_json h (lit "POST") (c.base_url ++ lit "/api/servers/pair/cancel") none
          (device_code_payload device_code))
        cancel_answer
