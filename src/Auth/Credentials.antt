-- ===== src/Auth/Credentials.antt =====
-- What the handlers of /api/auth/ guarantee about the password and the sessions.
use seawise_client.Prelude.{
  ℕ, ◌+◌, ◌≤◌, ◌≡◌, refl, ◌⊎◌, inl, inr, true, false, not, ◌&&◌, Option, none, some, arith, ltb,
  if◌then◌else◌, Bool-cases, length, Option-cases, ltb→ge,
}
use seawise_client.Prelude.Bytes.{Bytes, lit, ◌==◌, ==_refl}
use seawise_client.Auth.{
  session_max_age, AuthManager, BcryptLaws, has_password, setup_timed_out, set_password,
  check_password, create_session, delete_session, validate_session, invalidate_all_sessions,
}
use seawise_client.Auth.Middleware.{cookie_session}
use seawise_client.Auth.Access.{HasSession, cookie_session_sound}
use seawise_client.Auth.Handlers.{
  Body, too_large, malformed, parsed, success, Passwords, Outside, store_password, change_password,
  handle_auth_set_password,
}

cookie_session-password_hash :
    (cookie : Option Bytes) (now : ℕ) (am : AuthManager)
    → (cookie_session cookie now am).1.password_hash ≡ am.password_hash
unfolding cookie_session validate_session delete_session
cookie_session-password_hash none now am = refl
cookie_session-password_hash (some token) now am = ground arith

cookie_session-setup_deadline :
    (cookie : Option Bytes) (now : ℕ) (am : AuthManager)
    → (cookie_session cookie now am).1.setup_deadline ≡ am.setup_deadline
unfolding cookie_session validate_session delete_session
cookie_session-setup_deadline none now am = refl
cookie_session-setup_deadline (some token) now am = ground arith

-- A caller who may change the password: one with a session and the current password, or, while
-- none is set, anyone within the setup window.
abbrev pub MayChange : Outside → Option Bytes → Passwords → AuthManager → Type 0
MayChange o cookie req am =
    ((has_password am ≡ true)
      × HasSession o.first_now cookie am
      × (check_password o.bcrypt req.current_password am ≡ true))
    ⊎ ((has_password am ≡ false) × (o.second_now ≤ am.setup_deadline))

-- The new state after a password was stored: it matches, and the sessions are gone but one.
abbrev pub IsRenewed : Outside → Passwords → Bytes → AuthManager → Type 0
IsRenewed o req token am =
    (check_password o.bcrypt req.password am ≡ true)
    × ((k : Bytes)
        → am.sessions k ≡ (if token == k then some (o.third_now + session_max_age) else none))

module _ (o : Outside) where
  store_password-IsRenewed :
      (req : Passwords) (token : Bytes) (am am' : AuthManager)
      → BcryptLaws o.bcrypt
      → store_password o req.password am ≡ (success (some token), am')
      → IsRenewed o req token am'
  unfolding store_password set_password check_password invalidate_all_sessions create_session
  store_password-IsRenewed req token am am' law h =
      elim (Option-cases (o.bcrypt.generate req.password)) [
        | inl e ↦ absurd (ground arith)
        | inr (hash, e) ↦ elim (Option-cases o.random) [
          | inl f ↦ absurd (ground arith)
          | inr (random, f) ↦ (
            ground (arith, law.sound req.password hash e, law.not_empty req.password hash e),
            λ k. ground arith,
          )
        ]
      ]

  -- What passes the checks of the body.
  change_password_checked :
      (body : Body Passwords) (am : AuthManager)
      → ((change_password o body am).1 ≡ am)
        ⊎ ((req : Passwords) × (body ≡ parsed req)
            × (8 ≤ length req.password)
            × ((has_password am && not (check_password o.bcrypt req.current_password am)) ≡ false)
            × (setup_timed_out o.second_now am ≡ false)
            × (change_password o body am ≡ store_password o req.password am))
  unfolding change_password
  change_password_checked too_large am = inl refl
  change_password_checked malformed am = inl refl
  change_password_checked (parsed req) am = elim (Bool-cases (ltb (length req.password) 8)) [
    | inl short ↦ inl (rw short)
    | inr long ↦
        elim (Bool-cases
          (has_password am && not (check_password o.bcrypt req.current_password am))) [
            | inl wrong ↦ inl (rw (long, wrong))
            | inr right ↦ elim (Bool-cases (setup_timed_out o.second_now am)) [
              | inl late ↦ inl (rw (long, right, late))
              | inr open_ ↦ inr (req, refl, ltb→ge _ _ long, right, open_, rw (long, right, open_))
            ]
          ]
  ]

  setup_window :
      (am : AuthManager)
      → has_password am ≡ false
      → setup_timed_out o.second_now am ≡ false
      → o.second_now ≤ am.setup_deadline
  unfolding has_password setup_timed_out
  setup_window am unset in_time = ground arith

  current_matches :
      (req : Passwords) (cookie : Option Bytes) (am : AuthManager)
      → has_password am ≡ true
      → (has_password (cookie_session cookie o.first_now am).1
          && not (
              check_password o.bcrypt req.current_password
                (cookie_session cookie o.first_now am).1))
        ≡ false
      → check_password o.bcrypt req.current_password am ≡ true
  unfolding has_password check_password
  current_matches req cookie am set right =
      ground (arith, cookie_session-password_hash cookie o.first_now am)

  -- The stored password changes only if the caller may change it and the new one is long enough:
  -- whatever the method, the cookie and the body, every other call leaves the hash as it was.
  pub handle_auth_set_password-MayChange :
      (method : Bytes) (cookie : Option Bytes) (body : Body Passwords) (am : AuthManager)
      → ((handle_auth_set_password o method cookie body am).1.password_hash ≡ am.password_hash)
        ⊎ ((req : Passwords) × (body ≡ parsed req)
            × (8 ≤ length req.password)
            × MayChange o cookie req am)
  unfolding handle_auth_set_password
  handle_auth_set_password-MayChange method cookie body am =
      elim (Bool-cases (method == lit "POST")) [
        | inr other ↦ inl (rw other)
        | inl post ↦ elim (Bool-cases (has_password am)) [
          | inr unset ↦ elim (change_password_checked body am) [
            | inl kept ↦ inl (rw (post, unset, kept))
            | inr (req, given, long, _, in_time, _) ↦
                inr (req, given, long, inr (unset, setup_window am unset in_time))
          ]
          | inl set ↦ elim (Bool-cases (cookie_session cookie o.first_now am).0) [
            | inr invalid ↦
                inl (rw (post, set, invalid) (cookie_session-password_hash cookie o.first_now am))
            | inl valid ↦
                elim (change_password_checked body (cookie_session cookie o.first_now am).1) [
                  | inl kept ↦ inl (
                      rw (post, set, valid, kept)
                        (cookie_session-password_hash cookie o.first_now am))
                  | inr (req, given, long, right, _, _) ↦ inr (
                    req,
                    given,
                    long,
                    inl (
                      set,
                      cookie_session_sound cookie o.first_now am valid,
                      current_matches req cookie am set right,
                    ),
                  )
                ]
          ]
        ]
      ]

  change_password_inversion :
      (req : Passwords) (token : Bytes) (am am' : AuthManager)
      → change_password o (parsed req) am ≡ (success (some token), am')
      → store_password o req.password am ≡ (success (some token), am')
  unfolding change_password
  change_password_inversion req token am am' h = ground arith

  -- When a password change succeeds with a session token, the new password matches, the token is
  -- valid for the session's full age from the change on, and every session from before is gone.
  pub handle_auth_set_password-IsRenewed :
      (cookie : Option Bytes) (req : Passwords) (token : Bytes) (am am' : AuthManager)
      → BcryptLaws o.bcrypt
      → handle_auth_set_password o (lit "POST") cookie (parsed req) am ≡ (success (some token), am')
      → IsRenewed o req token am'
  unfolding handle_auth_set_password
  handle_auth_set_password-IsRenewed cookie req token am am' law h =
      elim (Bool-cases (has_password am)) [
        | inr unset ↦
            store_password-IsRenewed req token am am' law
              (change_password_inversion req token am am' (ground (arith, ==_refl (lit "POST"))))
        | inl set ↦
            let after = (cookie_session cookie o.first_now am).1 in
            store_password-IsRenewed req token after am' law
              (change_password_inversion req token after am' (ground (arith, ==_refl (lit "POST"))))
      ]
