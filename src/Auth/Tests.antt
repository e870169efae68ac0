-- ===== src/Auth/Tests.antt =====
-- Tests of the password, the sessions and the guards, and the theorems at concrete inputs.
use seawise_client.Prelude.{
  ◌+◌, ◌-◌, ◌*◌, ◌≤◌, ◌≡◌, refl, ◌⊎◌, true, false, Option, none, some, List, [], ◌∷◌, ◌++◌, arith,
  ltb, if◌then◌else◌, length, is_empty,
}
use seawise_client.Prelude.Bytes.{
  Bytes, lit, ◌==◌, ==_refl, Unicode, to_lower, trim_suffix, has_prefix, has_suffix,
}
use seawise_client.Prelude.Dict.{empty, put, delete}
use seawise_client.Net.{parse_ip, split_host_port}
use seawise_client.Auth.{
  second, session_max_age, RateLimitEntry, AuthManager, Bcrypt, BcryptLaws, new_auth_manager,
  has_password, setup_timed_out, set_password, check_password, create_session, delete_session,
  validate_session, invalidate_all_sessions, check_rate_limit, record_failed_login,
  clear_rate_limit, hex_encode,
}
use seawise_client.Auth.RateLimit.{check_rate_limit-record_failed_login}
use seawise_client.Auth.Stale.{replies-ideal_replies, ideal_start}
use seawise_client.Auth.Stale.Model.{
  Op, tick, create, validate, check_limit, fail, cleanup, replies, ideal_replies,
}
use seawise_client.Auth.Hosts.{
  allowed_hosts_from_env, request_hostname, is_host_allowed, origin_matches_host,
  referer_matches_host,
}
use seawise_client.Auth.Middleware.{
  Request, served, refused, is_safe_method, is_open_path, is_api_path, cookie_session, middleware,
}
use seawise_client.Auth.Access.{
  IsTrusted, IsSameSite, HasSession, middleware-IsSameSite, middleware-authenticated,
}
use seawise_client.Auth.Handlers.{
  parsed, success, Passwords, Outside, issue_session, store_password, change_password, login_failed,
  login_with, handle_auth_set_password, handle_auth_login,
}
use seawise_client.Auth.Credentials.{
  MayChange, IsRenewed, handle_auth_set_password-MayChange, handle_auth_set_password-IsRenewed,
}
use seawise_client.Auth.Login.{handle_auth_login_sound}

abbrev pub ascii : Unicode
ascii = record { lower = λ s. s; trim = λ s. s; fold = λ s t. s == t }

-- A hash for tests: the password with a mark behind it.
abbrev toy : Bcrypt
toy = record { generate = λ p. some (p ++ 1 ∷ []); matches = λ h p. h == p ++ 1 ∷ [] }

toy-not_empty :
    (p h : Bytes) → ◌≡◌ {A = Option Bytes} (some (p ++ 1 ∷ [])) (some h) → is_empty h ≡ false
toy-not_empty [] h e = ground arith
toy-not_empty (c ∷ p) h e = ground arith

toy_sound :
    (p h : Bytes) → ◌≡◌ {A = Option Bytes} (some (p ++ 1 ∷ [])) (some h) → (h == p ++ 1 ∷ []) ≡ true
toy_sound p h e = ground (arith, ==_refl (p ++ 1 ∷ []))

abbrev toy_laws : BcryptLaws toy
toy_laws = record { not_empty = toy-not_empty; sound = toy_sound }

abbrev outside : Outside
outside = record {
  bcrypt = toy;
  saving = record { mkdir_ok = true; write_ok = true };
  random = some (171 ∷ 5 ∷ []);
  first_now = 100;
  second_now = 101;
  third_now = 102;
}

abbrev secret : Bytes
secret = lit "hunter22"

-- A manager with a password and one session, valid to the instant 500.
abbrev pub with_session : AuthManager
with_session = record {
  password_hash = secret ++ 1 ∷ [];
  sessions = put (lit "t0") 500 empty;
  rate_limits = empty;
  setup_deadline = 0;
  stopped = false;
}

abbrev pub delete_request : Request
delete_request = record {
  method = lit "POST";
  path = lit "/api/services/delete";
  host = lit "192.168.1.9:8082";
  origin = lit "http://192.168.1.9:8082";
  referer = [];
  cookie = some (lit "t0");
}

-- What a test of a request computes with.
requests : Unit {0}
unfolding middleware allowed_hosts_from_env is_safe_method is_open_path is_api_path is_host_allowed
    request_hostname origin_matches_host referer_matches_host cookie_session validate_session
    delete_session has_password lit ◌==◌ to_lower trim_suffix has_prefix has_suffix parse_ip
    split_host_port
requests = tt

served_request : (middleware ascii [] 100 delete_request with_session).0 ≡ served
unfolding requests
served_request = refl

rebinding_refused :
    (middleware ascii [] 100
      (record delete_request { host = lit "evil.example"; origin = lit "http://evil.example" })
      with_session).0
    ≡ refused 403 (lit "Invalid host")
unfolding requests
rebinding_refused = refl

expired_refused :
    (middleware ascii [] 501 delete_request with_session).0
    ≡ refused 401 (lit "Authentication required")
unfolding requests
expired_refused = refl

is_post : is_safe_method delete_request.method ≡ false
unfolding requests
is_post = refl

is_api : is_api_path delete_request.path ≡ true
unfolding requests
is_api = refl

not_open : is_open_path delete_request.path ≡ false
unfolding requests
not_open = refl

middleware-IsSameSite_example :
    IsTrusted ascii [] (request_hostname ascii (lit "192.168.1.9:8082")) × IsSameSite delete_request
middleware-IsSameSite_example =
    middleware-IsSameSite ascii [] 100 delete_request with_session served_request is_post

middleware-authenticated_example :
    (has_password with_session ≡ true) × HasSession 100 (some (lit "t0")) with_session
middleware-authenticated_example =
    middleware-authenticated ascii [] 100 delete_request with_session served_request is_api not_open

longer_host_refused :
    referer_matches_host (lit "http://10.0.0.5.attacker.example/") (lit "10.0.0.5") ≡ false
unfolding requests
longer_host_refused = refl

abbrev change : Passwords
change = record { password = lit "longer-secret"; current_password = secret }

handle_auth_set_password-MayChange_example :
    ((handle_auth_set_password outside
        (lit "POST")
        (some (lit "t0"))
        (parsed change)
        with_session).1.password_hash
      ≡ with_session.password_hash)
    ⊎ ((req : Passwords) × (parsed change ≡ parsed req)
        × (8 ≤ length req.password)
        × MayChange outside (some (lit "t0")) req with_session)
handle_auth_set_password-MayChange_example =
    handle_auth_set_password-MayChange outside (lit "POST") (some (lit "t0")) (parsed change)
      with_session

abbrev changed : AuthManager
changed = record with_session {
  password_hash = lit "longer-secret" ++ 1 ∷ [];
  sessions = put (lit "ab05") (102 + session_max_age) empty;
}

handlers : Unit {0}
unfolding requests handle_auth_set_password change_password store_password issue_session
    set_password check_password invalidate_all_sessions create_session hex_encode setup_timed_out
    handle_auth_login login_with login_failed check_rate_limit clear_rate_limit record_failed_login
handlers = tt

changed_lem :
    handle_auth_set_password outside (lit "POST") (some (lit "t0")) (parsed change) with_session
    ≡ (success (some (lit "ab05")), changed)
unfolding handlers
changed_lem = refl

handle_auth_set_password-IsRenewed_example : IsRenewed outside change (lit "ab05") changed
handle_auth_set_password-IsRenewed_example =
    handle_auth_set_password-IsRenewed outside (some (lit "t0")) change (lit "ab05") with_session
      changed toy_laws changed_lem

abbrev logged_in : AuthManager
logged_in = record with_session {
  sessions = put (lit "ab05") (102 + session_max_age) with_session.sessions;
  rate_limits = delete (lit "::1") empty;
}

logged_in_lem :
    handle_auth_login outside (lit "POST") (lit "::1") (parsed secret) with_session
    ≡ (success (some (lit "ab05")), logged_in)
unfolding handlers
logged_in_lem = refl

handle_auth_login_sound_example :
    (check_password toy secret with_session ≡ true)
    × ((check_rate_limit (lit "::1") 100 with_session).0.0 ≡ true)
    × ((k : Bytes)
        → logged_in.sessions k
          ≡ (if lit "ab05" == k then some (102 + session_max_age) else with_session.sessions k))
    × (logged_in.rate_limits (lit "::1") ≡ none)
    × (logged_in.password_hash ≡ with_session.password_hash)
handle_auth_login_sound_example =
    handle_auth_login_sound outside (lit "::1") secret (lit "ab05") with_session logged_in
      logged_in_lem

abbrev lock : RateLimitEntry
lock = record { failures = 2; last_fail = 90; locked_until = 90 + 2 * second }

abbrev locked : AuthManager
locked = record with_session { rate_limits = put (lit "::1") lock empty }

locked_lem : locked.rate_limits (lit "::1") ≡ some lock
unfolding requests
locked_lem = refl

check_rate_limit-record_failed_login_example :
    ((check_rate_limit (lit "::1") 150 (record_failed_login (lit "::1") 120 locked).1).0 ≡ (
      if ltb 150 (120 + (record_failed_login (lit "::1") 120 locked).0)
      then (false, 120 + (record_failed_login (lit "::1") 120 locked).0 - 150)
      else (true, 0)))
    × (second ≤ (record_failed_login (lit "::1") 120 locked).0)
    × ((record_failed_login (lit "::1") 120 locked).0 ≤ 10 * second)
    × ((other : Bytes)
        → (lit "::1" == other) ≡ false
        → (record_failed_login (lit "::1") 120 locked).1.rate_limits other
          ≡ locked.rate_limits other)
check_rate_limit-record_failed_login_example =
    check_rate_limit-record_failed_login (lit "::1") 120 150 locked (omega arith)

abbrev script : List Op
script =
    create (some (171 ∷ 5 ∷ []))
    ∷ tick (session_max_age + 1)
    ∷ cleanup
    ∷ validate (lit "ab05")
    ∷ fail (lit "::1")
    ∷ check_limit (lit "::1")
    ∷ []

replies-ideal_replies_example :
    replies script 7 (new_auth_manager none 7) ≡ ideal_replies script 7 ideal_start
replies-ideal_replies_example = replies-ideal_replies script none 7
