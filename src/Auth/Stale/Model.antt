-- ===== src/Auth/Stale/Model.antt =====
-- The calls of the manager with the clock, and the ideal manager that never drops anything.
use seawise_client.Prelude.{
  ℕ, ◌+◌, ◌-◌, Bool, true, false, not, ◌&&◌, Option, none, some, List, [], ◌∷◌, ltb, if◌then◌else◌,
  is_empty,
}
use seawise_client.Auth.{
  session_max_age, RateLimitEntry, AuthManager, lockout_delay, current_entry, failed_entry,
  record_failed_login, check_rate_limit, cleanup_expired_sessions, clear_rate_limit, create_session,
  delete_session, validate_session, invalidate_all_sessions, hex_encode,
}
use seawise_client.Prelude.Bytes.{Bytes}
use seawise_client.Prelude.Dict.{Dict, empty, put, delete}

-- A call, or time that passes.
pub data Op : Type 0 where
  tick : ℕ → Op
  create : Option Bytes → Op
  validate drop_token check_limit fail clear_limit : Bytes → Op
  invalidate_all cleanup : Op

pub data Reply : Type 0 where
  nothing : Reply
  token : Option Bytes → Reply
  valid : Bool → Reply
  allowed : Bool → ℕ → Reply
  delay : ℕ → Reply

abbrev pub allowed_reply : Bool × ℕ → Reply
allowed_reply (ok, wait) = allowed ok wait

unfoldable pub step : Op → ℕ → AuthManager → Reply × ℕ × AuthManager
step (tick d) now am = (nothing, now + d, am)
step (create random) now am = let (t, am') = create_session random now am in (token t, now, am')
step (validate t) now am = let (ok, am') = validate_session t now am in (valid ok, now, am')
step (drop_token t) now am = (nothing, now, delete_session t am)
step (check_limit ip) now am =
    let (answer, am') = check_rate_limit ip now am in (allowed_reply answer, now, am')
step (fail ip) now am = let (d, am') = record_failed_login ip now am in (delay d, now, am')
step (clear_limit ip) now am = (nothing, now, clear_rate_limit ip am)
step invalidate_all now am = (nothing, now, invalidate_all_sessions am)
step cleanup now am = (nothing, now, cleanup_expired_sessions now am)

-- The replies to a sequence of calls.
unfoldable pub replies : List Op → ℕ → AuthManager → List Reply
replies [] now am = []
replies (op ∷ ops) now am = let (r, now', am') = step op now am in r ∷ replies ops now' am'

-- The ideal manager: every session that was created, and every entry, until it is replaced.
pub record Ideal : Type 0 where
  pub expiries : Dict ℕ
  pub entries : Dict RateLimitEntry

abbrev pub is_live : ℕ → Option ℕ → Bool
is_live now none = false
is_live now (some expiry) = not (ltb expiry now)

abbrev pub wait_for : ℕ → Option RateLimitEntry → Reply
wait_for now none = allowed true 0
wait_for now (some entry) =
    if ltb now entry.locked_until then allowed false (entry.locked_until - now) else allowed true 0

unfoldable pub ideal_step : Op → ℕ → Ideal → Reply × ℕ × Ideal
ideal_step (tick d) now i = (nothing, now + d, i)
ideal_step (create none) now i = (token none, now, i)
ideal_step (create (some random)) now i = (
  token (some (hex_encode random)),
  now,
  record i { expiries = put (hex_encode random) (now + session_max_age) i.expiries },
)
ideal_step (validate t) now i = (valid (not (is_empty t) && is_live now (i.expiries t)), now, i)
ideal_step (drop_token t) now i = (nothing, now, record i { expiries = delete t i.expiries })
ideal_step (check_limit ip) now i = (wait_for now (i.entries ip), now, i)
ideal_step (fail ip) now i =
    let entry = failed_entry now (current_entry now (i.entries ip)) in
    (delay (lockout_delay entry.failures), now, record i { entries = put ip entry i.entries })
ideal_step (clear_limit ip) now i = (nothing, now, record i { entries = delete ip i.entries })
ideal_step invalidate_all now i = (nothing, now, record i { expiries = empty })
ideal_step cleanup now i = (nothing, now, i)

unfoldable pub ideal_replies : List Op → ℕ → Ideal → List Reply
ideal_replies [] now i = []
ideal_replies (op ∷ ops) now i =
    let (r, now', i') = ideal_step op now i in r ∷ ideal_replies ops now' i'
