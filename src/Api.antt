-- ===== src/Api.antt =====
-- internal/api/client.go: the client of the SeaWise server. A call gives its result and the
-- requests it sent, in order. encoding/json and net/http are the parameter `Http`.
pub mod Url
pub mod Pairing
pub mod Registry
pub mod Heartbeat
pub mod Certificates
pub mod SafeUrls
pub mod Requests
pub mod Outcomes
mod Tests
use seawise_client.Prelude.{
  ℕ, ◌≡◌, refl, ◌⊎◌, inl, inr, Bool, true, false, not, ◌&&◌, Option, none, some, List, [], ◌∷◌, ltb,
  leb, eqb, if◌then◌else◌, ℤ, take,
}
use seawise_client.Prelude.Bytes.{Bytes, lit, Unicode}
use seawise_client.Validation.{ErrorBody, parse_api_error}

-- The values that the program marshals.
mutual
  pub data Json : Type 0 where
    text : Bytes → Json
    number : ℤ → Json
    flag : Bool → Json
    object : Fields → Json
    array : Items → Json

  pub data Fields : Type 0 where
    no_fields : Fields
    field : Bytes → Json → Fields → Fields

  pub data Items : Type 0 where
    no_items : Items
    item : Json → Items → Items

-- `body` is what was marshalled, `token` the header X-FRP-Token, and `has_json` whether
-- Content-Type is application/json.
pub record Request : Type 0 where
  pub method : Bytes
  pub url : Bytes
  pub body : Option Bytes
  pub has_json : Bool
  pub token : Option Bytes

-- `content` is `none` where reading the body fails.
pub record Response : Type 0 where
  pub status_code : ℕ
  pub content : Option Bytes

-- `marshal`, `creates` and `send` are json.Marshal, http.NewRequestWithContext and Client.Do;
-- `error_body` is the decoding that ParseAPIError does.
pub record Http : Type 0 where
  pub marshal : Json → Option Bytes
  pub creates : Request → Bool
  pub send : Request → Option Response
  pub error_body : Bytes → Option ErrorBody
  pub unicode : Unicode

pub record ApiClient : Type 0 where
  pub base_url : Bytes
  pub frp_token : Bytes

pub data ApiError : Type 0 where
  marshal_failed create_failed send_failed read_failed parse_failed : ApiError
  url_required : ApiError
  https_required : Bytes → ApiError
  invalid_server_id : ApiError
  unreadable_status : ℕ → ApiError
  refused : Bytes → ApiError
  refused_status : ℕ → ApiError
  unpair_requested : Bytes → ApiError
  superseded_by_other : ApiError

pub data Result (A : Type 0) : Type 0 where
  ok : A → Result A
  err : ApiError → Result A

pub Result-cases :
    {A : Type 0} (r : Result A) → ((a : A) × (r ≡ ok a)) ⊎ ((e : ApiError) × (r ≡ err e))
Result-cases (ok a) = inl (a, refl)
Result-cases (err e) = inr (e, refl)

pub case_result :
    {A B : Type 0} (P : B → Type 0) (r : Result A) {f : A → B} {g : ApiError → B}
    → ((a : A) → r ≡ ok a → P (f a))
    → ((e : ApiError) → r ≡ err e → P (g e))
    → P (elim r [ ok a ↦ f a | err e ↦ g e ])
case_result P (ok a) h k = h a refl
case_result P (err e) h k = k e refl

infixl 5 ◌>>=◌
abbrev pub ◌>>=◌ : {A B : Type 0} → Result A → (A → Result B) → Result B
ok a >>= f = f a
err e >>= f = err e

-- A result with the requests that were sent for it.
abbrev pub Exchange : Type 0 → Type 0
Exchange A = Result A × List Request

-- What follows the answer sends nothing more.
abbrev pub and_then : {A B : Type 0} → Exchange A → (A → Result B) → Exchange B
and_then (r, sent) f = (r >>= f, sent)

abbrev pub max_response_size : ℕ
max_response_size = 1048576

unfoldable pub read_response_body : Response → Option Bytes
read_response_body resp = elim resp.content [
  | none ↦ none
  | some content ↦ some (take max_response_size content)
]

unfoldable pub is_success_status : ℕ → Bool
is_success_status code = leb 200 code && ltb code 300

unfoldable pub is_ok : ℕ → Bool
is_ok code = eqb code 200

unfoldable pub set_frp_token : Bytes → ApiClient → ApiClient
set_frp_token token c = record c { frp_token = token }

module _ (h : Http) where
  -- http.NewRequestWithContext and Client.Do.
  unfoldable pub exchange : Request → Exchange Response
  exchange req = if not (h.creates req) then (err create_failed, []) else elim (h.send req) [
    | none ↦ (err send_failed, req ∷ [])
    | some resp ↦ (ok resp, req ∷ [])
  ]

  -- The same for a payload that is marshalled first.
  unfoldable pub exchange_json : Bytes → Bytes → Option Bytes → Json → Exchange Response
  unfolding exchange
  exchange_json method url token payload = elim (h.marshal payload) [
    | none ↦ (err marshal_failed, [])
    | some body ↦
        exchange
          (record { method = method; url = url; body = some body; has_json = true; token = token })
  ]

  unfoldable pub exchange_empty : Bytes → Bytes → Option Bytes → Exchange Response
  unfolding exchange
  exchange_empty method url token =
      exchange (record { method = method; url = url; body = none; has_json = false; token = token })

  -- Reading, the test of the status, and the decoding.
  unfoldable pub decoded : {A : Type 0} → (ℕ → Bool) → (Bytes → Option A) → Response → Result A
  unfolding read_response_body
  decoded accepts decode resp = elim (read_response_body resp) [
    | none ↦ err read_failed
    | some content ↦
        if not (accepts resp.status_code)
        then err (refused (parse_api_error h.unicode (h.error_body content) resp.status_code))
        else elim (decode content) [ none ↦ err parse_failed | some a ↦ ok a ]
  ]

  -- The test of the status where the body only matters for the error; a body that cannot be read
  -- is empty.
  unfoldable pub accepted : (ℕ → Bool) → Response → Result (Unit {0})
  unfolding read_response_body
  accepted accepts resp =
      let content : Bytes = elim (read_response_body resp) [ none ↦ [] | some content ↦ content ] in
      if not (accepts resp.status_code)
      then err (refused (parse_api_error h.unicode (h.error_body content) resp.status_code))
      else ok tt
