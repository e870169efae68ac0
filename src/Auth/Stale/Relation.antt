-- ===== src/Auth/Stale/Relation.antt =====
-- How the manager and the ideal manager compare: key by key.
use seawise_client.Prelude.{
  ℕ, ◌+◌, ◌-◌, ◌≤◌, ◌<◌, ◌≡◌, refl, inl, inr, Bool, true, false, Option, none, some, arith, ltb,
  if◌then◌else◌, Bool-cases, ltb→lt,
}
use seawise_client.Auth.{
  rate_limit_window, rate_limit_max_delay, RateLimitEntry, AuthManager, current_entry, failed_entry,
  is_over,
}
use seawise_client.Auth.RateLimit.{lockout_delay_bounds}
use seawise_client.Prelude.Bytes.{Bytes}
use seawise_client.Prelude.Dict.{drop_if}
use seawise_client.Auth.Stale.Model.{Reply, Ideal, is_live, wait_for}

-- The manager holds the same session, or has dropped one that is expired.
pub data SameSession (now : ℕ) : Option ℕ → Option ℕ → Type 0 where
  same : (o : Option ℕ) → SameSession now o o
  gone : (e : ℕ) → e < now → SameSession now none (some e)

-- The manager holds the same entry, or has dropped one that is stale, whose lock is over.
pub data SameEntry (now : ℕ) : Option RateLimitEntry → Option RateLimitEntry → Type 0 where
  neither : SameEntry now none none
  both :
      (e : RateLimitEntry)
      → e.locked_until ≤ e.last_fail + rate_limit_max_delay
      → SameEntry now (some e) (some e)
  stale :
      (e : RateLimitEntry)
      → e.locked_until ≤ e.last_fail + rate_limit_max_delay
      → rate_limit_window < now - e.last_fail
      → SameEntry now none (some e)

pub record Related (now : ℕ) (am : AuthManager) (i : Ideal) : Type 0 where
  pub session : (k : Bytes) → SameSession now (am.sessions k) (i.expiries k)
  pub entry : (k : Bytes) → SameEntry now (am.rate_limits k) (i.entries k)

pub later_session :
    {now : ℕ} {a b : Option ℕ} (d : ℕ) → SameSession now a b → SameSession (now + d) a b
later_session d (same o) = same o
later_session d (gone e h) = gone e (omega arith)

pub later_entry :
    {now : ℕ} {a b : Option RateLimitEntry} (d : ℕ) → SameEntry now a b → SameEntry (now + d) a b
later_entry d neither = neither
later_entry d (both e h) = both e h
later_entry d (stale e h s) = stale e h (omega arith)

-- What a manager drops when it meets an expired session or a stale entry.
pub pruned_session :
    {now : ℕ} {a b : Option ℕ}
    → SameSession now a b
    → SameSession now (drop_if (λ expiry. ltb expiry now) a) b
pruned_session (same none) = same none
pruned_session {now} (same (some e)) = elim (Bool-cases (ltb e now)) [
  | inl over ↦ rw over (gone e (ltb→lt e now over))
  | inr live ↦ rw live (same (some e))
]
pruned_session (gone e h) = gone e h

pub pruned_entry :
    {now : ℕ} {a b : Option RateLimitEntry}
    → SameEntry now a b
    → SameEntry now (drop_if (λ entry. is_over rate_limit_window now entry.last_fail) a) b
pruned_entry neither = neither
pruned_entry {now} (both e h) = elim (Bool-cases (is_over rate_limit_window now e.last_fail)) [
  | inl over ↦ rw over (stale e h (ltb→lt _ _ over))
  | inr live ↦ rw live (both e h)
]
pruned_entry (stale e h s) = stale e h s

-- Writing or deleting one key on both sides.
pub put_session :
    {now : ℕ} {a b : Option ℕ} (o : Option ℕ) (hit : Bool)
    → SameSession now a b
    → SameSession now (if hit then o else a) (if hit then o else b)
put_session o true r = same o
put_session o false r = r

pub put_entry :
    {now : ℕ} {a b : Option RateLimitEntry} (o : Option RateLimitEntry) (hit : Bool)
    → SameEntry now o o
    → SameEntry now a b
    → SameEntry now (if hit then o else a) (if hit then o else b)
put_entry o true r s = r
put_entry o false r s = s

-- Deleting on the manager's side alone what is expired or stale at the key.
pub drop_session :
    {now : ℕ} {a b : Option ℕ} (hit : Bool) (e : ℕ)
    → (hit ≡ true → (a ≡ some e) × (e < now))
    → SameSession now a b
    → SameSession now (if hit then none else a) b
drop_session true e h (same o) = let (p, q) = h refl in rw p (gone e q)
drop_session true e h (gone f q) = gone f q
drop_session false e h r = r

pub drop_entry :
    {now : ℕ} {a b : Option RateLimitEntry} (hit : Bool)
    → (hit ≡ true → (e : RateLimitEntry) → a ≡ some e → rate_limit_window < now - e.last_fail)
    → SameEntry now a b
    → SameEntry now (if hit then none else a) b
drop_entry true h neither = neither
drop_entry true h (both e q) = stale e q (h refl e refl)
drop_entry true h (stale e q s) = stale e q s
drop_entry false h r = r

pub failed-IsBounded :
    (now : ℕ) (e : RateLimitEntry)
    → (failed_entry now e).locked_until ≤ (failed_entry now e).last_fail + rate_limit_max_delay
unfolding failed_entry
failed-IsBounded now e =
    let (lo, hi) = lockout_delay_bounds (e.failures + 1) (omega arith) in ground (arith, lo, hi)

-- The replies agree, and so do the states after a call.
pub current_entry-SameEntry :
    {now : ℕ} {a b : Option RateLimitEntry}
    → SameEntry now a b
    → current_entry now a ≡ current_entry now b
unfolding current_entry
current_entry-SameEntry neither = refl
current_entry-SameEntry (both e h) = refl
current_entry-SameEntry (stale e h s) = ground arith

pub wait_for-SameEntry :
    {now : ℕ} {a b : Option RateLimitEntry} → SameEntry now a b → wait_for now a ≡ wait_for now b
wait_for-SameEntry neither = refl
wait_for-SameEntry (both e h) = refl
wait_for-SameEntry (stale e h s) = ground arith

pub is_live-SameSession :
    {now : ℕ} {a b : Option ℕ} → SameSession now a b → is_live now a ≡ is_live now b
is_live-SameSession (same o) = refl
is_live-SameSession (gone e h) = ground arith

pub record Agrees (a : Reply × ℕ × AuthManager) (b : Reply × ℕ × Ideal) : Type 0 where
  pub reply : a.0 ≡ b.0
  pub now : a.1 ≡ b.1
  pub related : Related a.1 a.2 b.2
