-- ===== src/Auth/Handlers.antt =====
-- cmd/seawise/server/auth.go: the handlers of /api/auth/. The clock's readings, the random bytes
-- and the decoded body are arguments.
use seawise_client.Prelude.{
  ℕ, ◌+◌, Bool, false, not, ◌&&◌, Option, none, some, List, [], ◌∷◌, ltb, if◌then◌else◌, length,
  is_empty, ◌/◌, is_some,
}
use seawise_client.Prelude.Bytes.{Bytes, lit, ◌==◌, Unicode, trim_space, split}
use seawise_client.Net.{parse_ip, split_host_port}
use seawise_client.Auth.{
  AuthManager, Bcrypt, Saving, second, has_password, setup_timed_out, set_password, check_password,
  create_session, delete_session, invalidate_all_sessions, check_rate_limit, record_failed_login,
  clear_rate_limit,
}
use seawise_client.Auth.Middleware.{cookie_session}

-- What reading and decoding a body gives.
pub data Body (A : Type 0) : Type 0 where
  too_large malformed : Body A
  parsed : A → Body A

-- `success` carries the session cookie that is set, and `retry` the Retry-After seconds.
pub data Response : Type 0 where
  method_not_allowed : Response
  failed : ℕ → Bytes → Response
  retry : ℕ → Response
  success : Option Bytes → Response
  cleared : Response
  status : Bool → Bool → Response

pub record Passwords : Type 0 where
  pub password : Bytes
  pub current_password : Bytes

-- What the handlers take from outside besides the request.
pub record Outside : Type 0 where
  pub bcrypt : Bcrypt
  pub saving : Saving
  pub random : Option Bytes
  pub first_now : ℕ
  pub second_now : ℕ
  pub third_now : ℕ

unfoldable pub issue_session : Outside → AuthManager → Response × AuthManager
issue_session o am =
    let (token, am') = create_session o.random o.third_now am in
    (
      elim token [ none ↦ failed 500 (lit "Failed to create session") | some t ↦ success (some t) ],
      am',
    )

unfoldable pub store_password : Outside → Bytes → AuthManager → Response × AuthManager
unfolding issue_session
store_password o password am =
    let (done, am') = set_password o.bcrypt o.saving password am in
    if done
    then issue_session o (invalidate_all_sessions am')
    else (failed 500 (lit "Failed to set password"), am')

unfoldable pub change_password : Outside → Body Passwords → AuthManager → Response × AuthManager
change_password o too_large am = (failed 400 (lit "Request too large"), am)
change_password o malformed am = (failed 400 (lit "Invalid request"), am)
change_password o (parsed req) am =
    if ltb (length req.password) 8
    then (failed 400 (lit "Password must be at least 8 characters"), am)
    else if has_password am && not (check_password o.bcrypt req.current_password am)
    then (failed 403 (lit "Current password is incorrect"), am)
    else if setup_timed_out o.second_now am
    then (
      failed 403 (lit "Setup timed out for security. Restart the client to set a password."),
      am,
    )
    else store_password o req.password am

unfoldable pub handle_auth_set_password :
    Outside → Bytes → Option Bytes → Body Passwords → AuthManager → Response × AuthManager
handle_auth_set_password o method cookie body am =
    if not (method == lit "POST")
    then (method_not_allowed, am)
    else if has_password am
    then (let (valid, am') = cookie_session cookie o.first_now am in
        if not valid
        then (failed 401 (lit "Authentication required"), am')
        else change_password o body am')
    else change_password o body am

-- What decides the address that the rate limit counts for.
pub record Origin : Type 0 where
  pub remote_addr : Bytes
  pub trust_proxy : Bytes
  pub forwarded_for : Bytes

first_part : List Bytes → Bytes
first_part [] = []
first_part (p ∷ ps) = p

unfoldable pub client_ip : Unicode → Origin → Bytes
unfolding first_part
client_ip u origin =
    let remote : Bytes = elim (split_host_port origin.remote_addr) [
      | some host ↦ host
      | none ↦ origin.remote_addr
    ] in
    let candidate = trim_space u (first_part (split b',' origin.forwarded_for)) in
    if origin.trust_proxy == lit "true"
      && (not (is_empty origin.forwarded_for) && is_some (parse_ip candidate))
    then candidate
    else remote

unfoldable pub login_failed : Outside → Bytes → AuthManager → Response × AuthManager
login_failed o ip am =
    let (delay, am') = record_failed_login ip o.second_now am in
    (if ltb 0 delay then retry (delay / second + 1) else failed 401 (lit "Incorrect password"), am')

unfoldable pub login_with : Outside → Bytes → Body Bytes → AuthManager → Response × AuthManager
login_with o ip too_large am = (failed 400 (lit "Request too large"), am)
login_with o ip malformed am = (failed 400 (lit "Invalid request"), am)
login_with o ip (parsed password) am =
    if not (check_password o.bcrypt password am)
    then login_failed o ip am
    else issue_session o (clear_rate_limit ip am)

unfoldable pub handle_auth_login :
    Outside → Bytes → Bytes → Body Bytes → AuthManager → Response × AuthManager
handle_auth_login o method ip body am =
    if not (method == lit "POST")
    then (method_not_allowed, am)
    else let ((allowed, retry_after), am') = check_rate_limit ip o.first_now am in
      if not allowed
      then (retry (retry_after / second), am')
      else if not (has_password am')
      then (success none, am')
      else login_with o ip body am'

unfoldable pub handle_auth_logout : Bytes → Option Bytes → AuthManager → Response × AuthManager
handle_auth_logout method cookie am =
    if not (method == lit "POST")
    then (method_not_allowed, am)
    else (cleared, elim cookie [ none ↦ am | some token ↦ delete_session token am ])

-- (password_set, authenticated)
unfoldable pub handle_auth_status : ℕ → Option Bytes → AuthManager → Response × AuthManager
handle_auth_status now cookie am =
    if has_password am
    then (let (valid, am') = cookie_session cookie now am in (status (has_password am') valid, am'))
    else (status (has_password am) false, am)
