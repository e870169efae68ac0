-- ===== src/Server/Adding.antt =====
-- Which services the handler of cmd/seawise/server/handlers_services.go adds.
use seawise_client.Prelude.Bytes.{eq_of_==, Bytes, lit, ◌==◌}
use seawise_client.Server.Frames.{case_body}
use seawise_client.Prelude.{
  ℕ, ◌≤◌, ◌<◌, ◌≡◌, refl, ◌⊎◌, inl, inr, true, not, Option, none, some, arith, Bool-cases,
  Option-cases, case_if,
}
use seawise_client.Auth.Handlers.{parsed, Body}
use seawise_client.Server.Apps.{Added, add_app, handle_add_service, NewApp, app_error}
use seawise_client.Server.Polling.{Reply, refused}
use seawise_client.Validation.{is_valid_port, is_valid_host, is_valid_service_name}
use seawise_client.Validation.Host.{validate_service_host}
use seawise_client.Server.{World, Server}

-- The name, the host and the port of an app that may be added.
abbrev pub IsAcceptable : World → NewApp → Type 0
IsAcceptable w app =
    (is_valid_service_name w.http.unicode app.app_name ≡ true)
    × (is_valid_host app.app_host ≡ true)
    × (validate_service_host w.http.unicode app.app_host ≡ none)
    × (is_valid_port app.app_port ≡ true)

app_error-IsAcceptable : (w : World) (app : NewApp) → app_error w app ≡ none → IsAcceptable w app
unfolding app_error
app_error-IsAcceptable w app h =
    elim (Bool-cases (is_valid_service_name w.http.unicode app.app_name)) [
      | inr bad ↦ absurd (ground arith)
      | inl named ↦ elim (Bool-cases (is_valid_host app.app_host)) [
        | inr bad ↦ absurd (ground arith)
        | inl hosted ↦ elim (Option-cases (validate_service_host w.http.unicode app.app_host)) [
          | inr (e, bad) ↦ absurd (ground arith)
          | inl allowed ↦ elim (Bool-cases (is_valid_port app.app_port)) [
            | inr bad ↦ absurd (ground arith)
            | inl ported ↦ (named, hosted, allowed, ported)
          ]
        ]
      ]
    ]

-- The reply refuses the request with a status below 500, and nothing has changed.
abbrev pub IsRefusal : Server → Reply Added × Server → Type 0
IsRefusal s x =
    (code : ℕ) × (why : Bytes) × (x ≡ (refused code why, s)) × (400 ≤ code) × (code < 500)

add_app_refused :
    (w : World) (local_id : Option Bytes) (app : NewApp) (s : Server) (why : Bytes)
    → app_error w app ≡ some why
    → add_app w local_id app s ≡ (refused 400 why, s)
unfolding add_app
add_app_refused w local_id app s why h = ground arith

-- A request to add an app leaves the server and its files exactly as they were and is refused with
-- a status below 500, or it is a POST whose body decodes to an app with a valid name, a valid host
-- that is not blocked, and a valid port.
pub handle_add_service-IsAcceptable :
    (w : World) (method : Bytes) (local_id : Option Bytes) (body : Body NewApp) (s : Server)
    → IsRefusal s (handle_add_service w method local_id body s)
      ⊎ ((app : NewApp) × (body ≡ parsed app) × (method ≡ lit "POST") × IsAcceptable w app)
unfolding handle_add_service
handle_add_service-IsAcceptable w method local_id body s =
    let Good : Type 0 =
      (app : NewApp) × (body ≡ parsed app) × (method ≡ lit "POST") × IsAcceptable w app in
    case_if (λ x. IsRefusal s x ⊎ Good) (not (method == lit "POST"))
      (λ other. inl (405, lit "Method not allowed", refl, omega arith, omega arith))
      (λ post.
        case_body (λ x. IsRefusal s x ⊎ Good) body
          (inl (413, lit "Request body too large", refl, omega arith, omega arith))
          (inl (400, lit "Invalid request body", refl, omega arith, omega arith))
          (λ app e. elim (Option-cases (app_error w app)) [
            | inl fine ↦ inr (
              app,
              e,
              eq_of_== method (lit "POST") (ground arith),
              app_error-IsAcceptable w app fine,
            )
            | inr (why, bad) ↦
                inl (400, why, add_app_refused w local_id app s why bad, omega arith, omega arith)
          ]))
