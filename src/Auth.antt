-- ===== src/Auth.antt =====
-- cmd/seawise/server/auth.go, the authManager, and internal/auth/auth.go: the password, the
-- sessions and the rate limits. An instant is a number of nanoseconds, and 0 the zero time.
-- The clock's reading, the random bytes and the results of bcrypt and of the file system are
-- arguments.
pub mod RateLimit
pub mod Stale
pub mod Hosts
pub mod Origins
pub mod Middleware
pub mod Access
pub mod Handlers
pub mod Credentials
pub mod Login
pub mod Tests
use seawise_client.Prelude.{
  ℕ, ◌+◌, ◌-◌, ◌*◌, ◌^◌, ◌≡◌, Bool, true, false, not, ◌&&◌, Option, none, some, [], ◌∷◌, ltb,
  if◌then◌else◌, any, is_empty, ◌/◌, ◌%◌,
}
use seawise_client.Prelude.Bytes.{Bytes, ◌==◌}
use seawise_client.Prelude.Dict.{Dict, empty, put, delete, prune}

abbrev pub second : ℕ
second = 1000000000

abbrev pub session_max_age : ℕ
session_max_age = 28800 * second

abbrev pub rate_limit_window : ℕ
rate_limit_window = 900 * second

abbrev pub rate_limit_base_delay : ℕ
rate_limit_base_delay = second

abbrev pub rate_limit_max_delay : ℕ
rate_limit_max_delay = 10 * second

abbrev pub first_run_setup_window : ℕ
first_run_setup_window = 300 * second

pub record RateLimitEntry : Type 0 where
  pub failures : ℕ
  pub last_fail : ℕ
  pub locked_until : ℕ

pub record AuthManager : Type 0 where
  pub password_hash : Bytes
  pub sessions : Dict ℕ
  pub rate_limits : Dict RateLimitEntry
  pub setup_deadline : ℕ
  pub stopped : Bool

-- `file` is what reading the password file gives.
unfoldable pub new_auth_manager : Option Bytes → ℕ → AuthManager
new_auth_manager file now =
    let setup : AuthManager = record {
      password_hash = [];
      sessions = empty;
      rate_limits = empty;
      setup_deadline = now + first_run_setup_window;
      stopped = false;
    } in
    elim file [
      | none ↦ setup
      | some hash ↦
          if is_empty hash then setup else record setup { password_hash = hash; setup_deadline = 0 }
    ]

unfoldable pub has_password : AuthManager → Bool
has_password am = not (is_empty am.password_hash)

unfoldable pub setup_timed_out : ℕ → AuthManager → Bool
setup_timed_out now am = is_empty am.password_hash && ltb am.setup_deadline now

-- golang.org/x/crypto/bcrypt, at the program's cost.
pub record Bcrypt : Type 0 where
  pub generate : Bytes → Option Bytes
  pub matches : Bytes → Bytes → Bool

-- What the program relies on: a generated hash is not empty, and matches its password.
pub record BcryptLaws (b : Bcrypt) : Type 0 where
  pub not_empty : (password hash : Bytes) → b.generate password ≡ some hash → is_empty hash ≡ false
  pub sound :
      (password hash : Bytes) → b.generate password ≡ some hash → b.matches hash password ≡ true

-- Whether the steps of saving the password file succeed.
pub record Saving : Type 0 where
  pub mkdir_ok : Bool
  pub write_ok : Bool

module _ (b : Bcrypt) where
  unfoldable pub hash_and_save_password : Saving → Bytes → Option Bytes
  hash_and_save_password saving password = elim (b.generate password) [
    | none ↦ none
    | some hash ↦ if saving.mkdir_ok && saving.write_ok then some hash else none
  ]

  -- The error, if any, and the manager after the call.
  unfoldable pub set_password : Saving → Bytes → AuthManager → Bool × AuthManager
  unfolding hash_and_save_password
  set_password saving password am = elim (hash_and_save_password saving password) [
    | none ↦ (false, am)
    | some hash ↦ (true, record am { password_hash = hash })
  ]

  unfoldable pub check_password : Bytes → AuthManager → Bool
  check_password password am =
      if is_empty am.password_hash then false else b.matches am.password_hash password

hex_digit : ℕ → ℕ
hex_digit d = if ltb d 10 then 48 + d else 87 + d

-- hex.EncodeToString
unfoldable pub hex_encode : Bytes → Bytes
unfolding hex_digit
hex_encode [] = []
hex_encode (x ∷ xs) = hex_digit (x / 16) ∷ hex_digit (x % 16) ∷ hex_encode xs

-- `random` is what rand.Read delivers.
unfoldable pub create_session : Option Bytes → ℕ → AuthManager → Option Bytes × AuthManager
create_session none now am = (none, am)
create_session (some random) now am =
    let token = hex_encode random in
    (some token, record am { sessions = put token (now + session_max_age) am.sessions })

unfoldable pub delete_session : Bytes → AuthManager → AuthManager
delete_session token am = record am { sessions = delete token am.sessions }

unfoldable pub validate_session : Bytes → ℕ → AuthManager → Bool × AuthManager
unfolding delete_session
validate_session token now am = if is_empty token then (false, am) else elim (am.sessions token) [
  | none ↦ (false, am)
  | some expiry ↦ if ltb expiry now then (false, delete_session token am) else (true, am)
]

unfoldable pub invalidate_all_sessions : AuthManager → AuthManager
invalidate_all_sessions am = record am { sessions = empty }

unfoldable pub stop : AuthManager → AuthManager
stop am = record am { stopped = true }

-- now.Sub(t) > window
abbrev pub is_over : ℕ → ℕ → ℕ → Bool
is_over window now t = ltb window (now - t)

unfoldable pub cleanup_expired_sessions : ℕ → AuthManager → AuthManager
cleanup_expired_sessions now am = record am {
  sessions = prune (λ expiry. ltb expiry now) am.sessions;
  rate_limits = prune (λ entry. is_over rate_limit_window now entry.last_fail) am.rate_limits;
}

-- (allowed, retryAfter), and the manager after the call.
unfoldable pub check_rate_limit : Bytes → ℕ → AuthManager → (Bool × ℕ) × AuthManager
check_rate_limit ip now am = elim (am.rate_limits ip) [
  | none ↦ ((true, 0), am)
  | some entry ↦
      if ltb now entry.locked_until
      then ((false, entry.locked_until - now), am)
      else if is_over rate_limit_window now entry.last_fail
      then ((true, 0), record am { rate_limits = delete ip am.rate_limits })
      else ((true, 0), am)
]

-- The delay after so many failures; the product is one of int64.
unfoldable pub lockout_delay : ℕ → ℕ
lockout_delay failures =
    let shift = if ltb 30 (failures - 1) then 30 else failures - 1 in
    let delay = (rate_limit_base_delay * 2 ^ shift) % 2 ^ 64 in
    if ltb rate_limit_max_delay delay then rate_limit_max_delay else delay

fresh_entry : RateLimitEntry
fresh_entry = record { failures = 0; last_fail = 0; locked_until = 0 }

-- The entry that counts: a missing or a stale one starts anew.
unfoldable pub current_entry : ℕ → Option RateLimitEntry → RateLimitEntry
unfolding fresh_entry
current_entry now none = fresh_entry
current_entry now (some entry) =
    if is_over rate_limit_window now entry.last_fail then fresh_entry else entry

unfoldable pub failed_entry : ℕ → RateLimitEntry → RateLimitEntry
failed_entry now entry =
    let failures = entry.failures + 1 in
    let delay = lockout_delay failures in
    record {
      failures = failures;
      last_fail = now;
      locked_until = if ltb 0 delay then now + delay else entry.locked_until;
    }

unfoldable pub record_failed_login : Bytes → ℕ → AuthManager → ℕ × AuthManager
unfolding failed_entry
record_failed_login ip now am =
    let entry = failed_entry now (current_entry now (am.rate_limits ip)) in
    (lockout_delay entry.failures, record am { rate_limits = put ip entry am.rate_limits })

unfoldable pub clear_rate_limit : Bytes → AuthManager → AuthManager
clear_rate_limit ip am = record am { rate_limits = delete ip am.rate_limits }
