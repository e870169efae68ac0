-- ===== src/Auth/Login.antt =====
-- What the login handler guarantees.
use seawise_client.Prelude.{
  ℕ, ◌+◌, ◌-◌, ◌<◌, ◌≡◌, ap, inl, inr, true, Option, none, some, arith, if◌then◌else◌, ◌∙◌,
  Option-cases, ◌/◌,
}
use seawise_client.Prelude.Bytes.{Bytes, lit, ◌==◌, ==_refl}
use seawise_client.Prelude.Dict.{put}
use seawise_client.Auth.{
  second, session_max_age, RateLimitEntry, AuthManager, check_password, create_session,
  check_rate_limit, clear_rate_limit,
}
use seawise_client.Auth.Handlers.{
  Body, parsed, retry, success, Outside, issue_session, login_failed, login_with, handle_auth_login,
}

check-password_hash :
    (ip : Bytes) (now : ℕ) (am : AuthManager)
    → (check_rate_limit ip now am).1.password_hash ≡ am.password_hash
unfolding check_rate_limit
check-password_hash ip now am = ground arith

check-sessions :
    (ip : Bytes) (now : ℕ) (am : AuthManager)
    → (check_rate_limit ip now am).1.sessions ≡ am.sessions
unfolding check_rate_limit
check-sessions ip now am = ground arith

module _ (o : Outside) where
  handle_inversion :
      (ip : Bytes) (body : Body Bytes) (token : Bytes) (am am' : AuthManager)
      → handle_auth_login o (lit "POST") ip body am ≡ (success (some token), am')
      → ((check_rate_limit ip o.first_now am).0.0 ≡ true)
        × (login_with o ip body (check_rate_limit ip o.first_now am).1
            ≡ (success (some token), am'))
  unfolding handle_auth_login
  handle_inversion ip body token am am' h =
      (ground (arith, ==_refl (lit "POST")), ground (arith, ==_refl (lit "POST")))

  login_inversion :
      (ip password token : Bytes) (am am' : AuthManager)
      → login_with o ip (parsed password) am ≡ (success (some token), am')
      → (check_password o.bcrypt password am ≡ true)
        × (issue_session o (clear_rate_limit ip am) ≡ (success (some token), am'))
  unfolding login_with login_failed
  login_inversion ip password token am am' h = (ground arith, ground arith)

  issue_session-eq :
      (token : Bytes) (am am' : AuthManager)
      → issue_session o am ≡ (success (some token), am')
      → (am'.sessions ≡ put token (o.third_now + session_max_age) am.sessions)
        × (am'.rate_limits ≡ am.rate_limits)
        × (am'.password_hash ≡ am.password_hash)
  unfolding issue_session create_session
  issue_session-eq token am am' h = elim (Option-cases o.random) [
    | inl f ↦ absurd (ground arith)
    | inr (random, f) ↦ (ground arith, ground arith, ground arith)
  ]

  -- A successful login with a session: the address was not locked, the password matches, the
  -- token is valid for the session's full age from the login on, other sessions stay as they
  -- were, and the failures of the address are forgotten.
  pub handle_auth_login_sound :
      (ip password token : Bytes) (am am' : AuthManager)
      → handle_auth_login o (lit "POST") ip (parsed password) am ≡ (success (some token), am')
      → (check_password o.bcrypt password am ≡ true)
        × ((check_rate_limit ip o.first_now am).0.0 ≡ true)
        × ((k : Bytes)
            → am'.sessions k
              ≡ (if token == k then some (o.third_now + session_max_age) else am.sessions k))
        × (am'.rate_limits ip ≡ none)
        × (am'.password_hash ≡ am.password_hash)
  unfolding clear_rate_limit
  handle_auth_login_sound ip password token am am' h =
      let am1 = (check_rate_limit ip o.first_now am).1 in
      let (free, entered) = handle_inversion ip (parsed password) token am am' h in
      let (right, issued) = login_inversion ip password token am1 am' entered in
      let (renewed, limits, hash) = issue_session-eq token (clear_rate_limit ip am1) am' issued in
      (
        unfold check_password in ground (arith, check-password_hash ip o.first_now am),
        free,
        λ k. ap (λ (f : Bytes → Option ℕ). f k) renewed ∙ rw (check-sessions ip o.first_now am),
        ap (λ (f : Bytes → Option RateLimitEntry). f ip) limits ∙ rw (==_refl ip),
        hash ∙ check-password_hash ip o.first_now am,
      )

  -- While an address is locked, a login is refused with the seconds that are left, whatever the
  -- body, and nothing changes: the password is not even compared.
  handle_auth_login_locked :
      (ip : Bytes) (body : Body Bytes) (am : AuthManager) (entry : RateLimitEntry)
      → am.rate_limits ip ≡ some entry
      → o.first_now < entry.locked_until
      → handle_auth_login o (lit "POST") ip body am
        ≡ (retry ((entry.locked_until - o.first_now) / second), am)
  unfolding handle_auth_login check_rate_limit
  handle_auth_login_locked ip body am entry e locked = ground (arith, ==_refl (lit "POST"))
