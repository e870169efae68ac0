-- ===== src/Api/Outcomes.antt =====
-- What a heartbeat of internal/api/client.go reports, against what the server answered.
use seawise_client.Api.{
  read_failed, parse_failed, read_response_body, invalid_server_id, err, refused_status, Result, ok,
  Json, exchange, exchange_json, Response, ApiError, Http, ApiClient, Request,
}
use seawise_client.Prelude.{
  ℕ, ◌≡◌, refl, ◌⊎◌, inl, inr, true, false, not, Option, none, some, List, arith, eqb, Bool-cases,
  subst, Option-cases, eqb→eq, case_some, case_if,
}
use seawise_client.Api.Url.{is_valid_uuid}
use seawise_client.Api.Heartbeat.{
  heartbeat, heartbeat_read, heartbeat_payload, failed_heartbeat, HeartbeatDecoders,
  heartbeat_answer, HeartbeatResult, Vitals,
}
use seawise_client.Api.Registry.{server_url}
use seawise_client.Prelude.Bytes.{Bytes, lit}

-- The server's answer to the heartbeat has this status.
abbrev pub Answered : Http → Bytes → Vitals → ApiClient → ℕ → Type 0
Answered h server_id v c code =
    (r : Response) × (body : Bytes) × (h.marshal (heartbeat_payload v) ≡ some body)
    × (h.send (record {
      method = lit "POST";
      url = server_url server_id (lit "/heartbeat") c;
      body = some body;
      has_json = true;
      token = some c.frp_token;
    })
        ≡ some r)
    × (r.status_code ≡ code)

-- What an exchange that gave an answer did.
exchange_json-ok :
    (h : Http) (method url : Bytes) (token : Option Bytes) (payload : Json) (r : Response)
    → (exchange_json h method url token payload).0 ≡ ok r
    → (body : Bytes) × (h.marshal payload ≡ some body)
      × (h.send (record {
        method = method;
        url = url;
        body = some body;
        has_json = true;
        token = token;
      })
          ≡ some r)
unfolding exchange_json exchange
exchange_json-ok h method url token payload r e = elim (Option-cases (h.marshal payload)) [
  | inl unmarshalled ↦ absurd (ground arith)
  | inr (body, m) ↦
      let req : Request = record {
        method = method;
        url = url;
        body = some body;
        has_json = true;
        token = token;
      } in
      elim (Bool-cases (h.creates req)) [
        | inr bad ↦ absurd (ground arith)
        | inl created ↦ elim (Option-cases (h.send req)) [
          | inl lost ↦ absurd (ground arith)
          | inr (r', sent) ↦ (body, m, ground arith)
        ]
      ]
]

-- The four kinds of results: an unpairing for a 410, a superseded connection for a 409, a success
-- for a 200, and an error, which asks for nothing.
abbrev pub Reports : (ℕ → Type 0) → HeartbeatResult → Type 0
Reports answered result =
    (result.should_unpair ≡ true)
      × (result.superseded ≡ false)
      × (result.success ≡ false)
      × answered 410
    ⊎ (result.should_unpair ≡ false)
      × (result.superseded ≡ true)
      × (result.success ≡ false)
      × answered 409
    ⊎ (result.should_unpair ≡ false)
      × (result.superseded ≡ false)
      × (result.success ≡ true)
      × (result.error ≡ none)
      × answered 200
    ⊎ (result.should_unpair ≡ false)
      × (result.superseded ≡ false)
      × (result.success ≡ false)
      × ((e : ApiError) × (result.error ≡ some e))

module _ (P : ℕ → Type 0) where
  failed_heartbeat-Reports : (e : ApiError) → Reports P (failed_heartbeat e)
  failed_heartbeat-Reports e = inr (inr (inr (refl, refl, refl, (e, refl))))

  heartbeat_answer-Reports :
      (d : HeartbeatDecoders) (code : ℕ) (content : Bytes)
      → P code
      → Reports P (heartbeat_answer d code content)
  unfolding heartbeat_answer
  heartbeat_answer-Reports d code content h =
      case_if (Reports P) (eqb code 410)
        (λ gone. inl (refl, refl, refl, subst P (eqb→eq code 410 gone) h))
        (λ other.
          case_if (Reports P) (eqb code 409)
            (λ conflict. inr (inl (refl, refl, refl, subst P (eqb→eq code 409 conflict) h)))
            (λ more.
              case_if (Reports P) (not (eqb code 200))
                (λ bad. failed_heartbeat-Reports (refused_status code))
                (λ good.
                  case_some (Reports P) (d.heartbeat_response content)
                    (failed_heartbeat-Reports parse_failed)
                    (λ r read. inr (
                      inr (
                        inl
                          (refl, refl, refl, refl, subst P (eqb→eq code 200 (ground arith)) h)))))))

  heartbeat_read-Reports :
      (d : HeartbeatDecoders) (answer : Result Response)
      → ((r : Response) → answer ≡ ok r → P r.status_code)
      → Reports P (heartbeat_read d answer)
  unfolding heartbeat_read
  heartbeat_read-Reports d (err e) h = failed_heartbeat-Reports e
  heartbeat_read-Reports d (ok r) h =
      case_some (Reports P) (read_response_body r) (failed_heartbeat-Reports read_failed)
        (λ content read. heartbeat_answer-Reports d r.status_code content (h r refl))

-- A heartbeat ends in exactly one of four ways: it asks for an unpairing, and the server answered
-- 410; it is superseded, and the server answered 409; it succeeds without an error, and the server
-- answered 200; or it reports an error and asks for nothing.
pub heartbeat-Reports :
    (d : HeartbeatDecoders) (h : Http) (server_id : Bytes) (v : Vitals) (c : ApiClient)
    → Reports (Answered h server_id v c) (heartbeat d h server_id v c).0
unfolding heartbeat
heartbeat-Reports d h server_id v c =
    let Q = Answered h server_id v c in
    let url = server_url server_id (lit "/heartbeat") c in
    let answer = (exchange_json h (lit "POST") url (some c.frp_token) (heartbeat_payload v)).0 in
    case_if {B = HeartbeatResult × List Request} (λ x. Reports Q x.0)
      (not (is_valid_uuid server_id)) (λ bad. failed_heartbeat-Reports Q invalid_server_id)
      (λ good. heartbeat_read-Reports Q d answer (λ r e.
        let (body, marshalled, sent) =
          exchange_json-ok h (lit "POST") url (some c.frp_token) (heartbeat_payload v) r e in
        (r, body, marshalled, sent, refl)))
