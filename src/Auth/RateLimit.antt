-- ===== src/Auth/RateLimit.antt =====
-- The lockout after failed logins, and why dropping stale entries cannot be noticed.
use seawise_client.Prelude.{
  ℕ, zero, suc, ◌+◌, ◌-◌, ◌*◌, ◌^◌, ◌≤◌, ◌<◌, ◌≡◌, refl, true, false, arith, ltb, if◌then◌else◌,
  lt→ltb, ge→ltb, ◌%◌,
}
use seawise_client.Prelude.Bytes.{Bytes, ◌==◌, ==_refl}
use seawise_client.Auth.{
  second, rate_limit_max_delay, AuthManager, lockout_delay, current_entry, record_failed_login,
  check_rate_limit,
}
use native.Mathlib.Nat.{pow-le-pow_right}

-- One, two, four and eight seconds, and ten from the fifth failure on.
abbrev pub doubled : ℕ → ℕ
doubled failures = if ltb failures 5 then second * 2 ^ (failures - 1) else 10 * second

-- The capped product for a shift of 4 to 30, which does not wrap.
capped_product : (k : ℕ) → 4 ≤ k → k ≤ 30 → rate_limit_max_delay < (second * 2 ^ k) % 2 ^ 64
capped_product k lo hi =
    omega
      (arith, pow-le-pow_right {n = 2} (omega arith) lo, pow-le-pow_right {n = 2} (omega arith) hi)

abbrev shift_of : ℕ → ℕ
shift_of failures = if ltb 30 (failures - 1) then 30 else failures - 1

capped_lem :
    (failures : ℕ)
    → 5 ≤ failures
    → ltb rate_limit_max_delay ((second * 2 ^ shift_of failures) % 2 ^ 64) ≡ true
capped_lem failures h =
    lt→ltb _ _ (capped_product (shift_of failures) (ground arith) (ground arith))

-- From the first failure on, the delay is one second, doubled by each further failure and ten
-- seconds from the fifth on: the int64 product that computes it does not wrap.
lockout_delay-doubled : (failures : ℕ) → 1 ≤ failures → lockout_delay failures ≡ doubled failures
unfolding lockout_delay
lockout_delay-doubled zero h = elim h [ ]
lockout_delay-doubled (suc zero) h = refl
lockout_delay-doubled (suc (suc zero)) h = refl
lockout_delay-doubled (suc (suc (suc zero))) h = refl
lockout_delay-doubled (suc (suc (suc (suc zero)))) h = refl
lockout_delay-doubled (suc (suc (suc (suc (suc n))))) h =
    rw (capped_lem (suc (suc (suc (suc (suc n))))) (omega arith))
      (rw (ge→ltb (suc (suc (suc (suc (suc n))))) 5 (omega arith)))

pub lockout_delay_bounds :
    (failures : ℕ)
    → 1 ≤ failures
    → (second ≤ lockout_delay failures) × (lockout_delay failures ≤ rate_limit_max_delay)
lockout_delay_bounds zero h = elim h [ ]
lockout_delay_bounds (suc zero) h = rw lockout_delay-doubled (omega arith, omega arith)
lockout_delay_bounds (suc (suc zero)) h = rw lockout_delay-doubled (omega arith, omega arith)
lockout_delay_bounds (suc (suc (suc zero))) h = rw lockout_delay-doubled (omega arith, omega arith)
lockout_delay_bounds (suc (suc (suc (suc zero)))) h =
    rw lockout_delay-doubled (omega arith, omega arith)
lockout_delay_bounds (suc (suc (suc (suc (suc n))))) h =
    rw (lockout_delay-doubled (suc (suc (suc (suc (suc n))))) h)
      (rw (ge→ltb (suc (suc (suc (suc (suc n))))) 5 (omega arith)) (omega arith, omega arith))

-- The state of an address after a streak of failures, each within the window of the one before.
module _ (ip : Bytes) where
  -- After a failed login at `t` the address is refused until the delay is over, with the time that
  -- is left as the answer, and admitted from then on; no other address is concerned, and the
  -- delay lies between one and ten seconds.
  pub check_rate_limit-record_failed_login :
      (t now : ℕ) (am : AuthManager)
      → t ≤ now
      → ((check_rate_limit ip now (record_failed_login ip t am).1).0 ≡ (
          if ltb now (t + (record_failed_login ip t am).0)
          then (false, t + (record_failed_login ip t am).0 - now)
          else (true, 0)))
        × (second ≤ (record_failed_login ip t am).0)
        × ((record_failed_login ip t am).0 ≤ rate_limit_max_delay)
        × ((other : Bytes)
            → (ip == other) ≡ false
            → (record_failed_login ip t am).1.rate_limits other ≡ am.rate_limits other)
  unfolding check_rate_limit record_failed_login
  check_rate_limit-record_failed_login t now am h =
      let failures = (current_entry t (am.rate_limits ip)).failures + 1 in
      let (lo, hi) = lockout_delay_bounds failures (omega arith) in
      (ground (arith, lo, ==_refl ip), lo, hi, λ other ne. rw ne)
