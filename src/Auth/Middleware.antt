-- ===== src/Auth/Middleware.antt =====
-- cmd/seawise/server/auth.go, `middleware`: which requests reach the handlers.
use seawise_client.Prelude.{
  ℕ, Bool, false, not, ◌&&◌, ◌||◌, Option, none, some, ltb, if◌then◌else◌, length, take, is_empty,
}
use seawise_client.Prelude.Bytes.{Bytes, lit, ◌==◌, Unicode, has_prefix}
use seawise_client.Auth.{AuthManager, has_password, validate_session}
use seawise_client.Auth.Hosts.{is_host_allowed, origin_matches_host, referer_matches_host}

-- The parts of a request that are read; a header that is absent is empty, and the cookie is the
-- session cookie.
pub record Request : Type 0 where
  pub method : Bytes
  pub path : Bytes
  pub host : Bytes
  pub origin : Bytes
  pub referer : Bytes
  pub cookie : Option Bytes

pub data Verdict : Type 0 where
  served : Verdict
  refused : ℕ → Bytes → Verdict

unfoldable pub is_safe_method : Bytes → Bool
is_safe_method method = method == lit "GET" || method == lit "HEAD" || method == lit "OPTIONS"

unfoldable pub is_open_path : Bytes → Bool
is_open_path path =
    path == lit "/api/auth/status"
    || path == lit "/api/auth/login"
    || path == lit "/api/auth/set-password"
    || path == lit "/api/status"
    || path == lit "/healthz"
    || path == lit "/readyz"

unfoldable pub is_api_path : Bytes → Bool
is_api_path path = ltb 4 (length path) && (take 5 path == lit "/api/")

-- The checks of a request that may change state; `none` lets it through.
unfoldable pub cross_site_error : Unicode → Bytes → Request → Option Bytes
cross_site_error u raw r =
    if not (is_host_allowed u raw r.host)
    then some (lit "Invalid host")
    else if is_empty r.origin && is_empty r.referer
    then some (lit "Origin or Referer header required")
    else if not (is_empty r.origin)
    then (if not (origin_matches_host r.origin r.host)
        then some (lit "Cross-origin requests not allowed")
        else none)
    else if not (referer_matches_host r.referer r.host)
    then some (lit "Cross-origin requests not allowed")
    else none

-- Whether the cookie carries a valid session, and the manager after the check.
unfoldable pub cookie_session : Option Bytes → ℕ → AuthManager → Bool × AuthManager
cookie_session none now am = (false, am)
cookie_session (some token) now am = validate_session token now am

unfoldable pub session_guard : ℕ → Request → AuthManager → Verdict × AuthManager
session_guard now r am =
    if is_open_path r.path
    then (served, am)
    else if not (has_password am)
    then (
      if r.path == lit "/" || has_prefix r.path (lit "/static/")
          then served
          else refused 403 (lit "Password setup required"),
      am,
    )
    else let (valid, am') = cookie_session r.cookie now am in
      (
        if not valid && is_api_path r.path
            then refused 401 (lit "Authentication required")
            else served,
        am',
      )

unfoldable pub middleware : Unicode → Bytes → ℕ → Request → AuthManager → Verdict × AuthManager
unfolding cross_site_error session_guard
middleware u raw now r am =
    if is_safe_method r.method then session_guard now r am else elim (cross_site_error u raw r) [
      | some text ↦ (refused 403 text, am)
      | none ↦ session_guard now r am
    ]
