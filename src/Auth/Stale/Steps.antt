-- ===== src/Auth/Stale/Steps.antt =====
-- Every call keeps the two managers related, and gives the same reply.
use seawise_client.Prelude.{
  ℕ, ◌+◌, ◌≡◌, refl, sym, ap, inl, inr, true, not, ◌&&◌, Option, none, some, arith, ltb, Bool-cases,
  ◌∙◌, ltb→lt, is_empty,
}
use seawise_client.Auth.{
  rate_limit_window, session_max_age, RateLimitEntry, AuthManager, current_entry, failed_entry,
  record_failed_login, check_rate_limit, cleanup_expired_sessions, clear_rate_limit, is_over,
  create_session, delete_session, validate_session, invalidate_all_sessions, hex_encode,
}
use seawise_client.Prelude.Bytes.{Bytes, ◌==◌, ==_iff}
use seawise_client.Auth.Stale.Model.{
  Op, tick, create, validate, drop_token, check_limit, fail, clear_limit, invalidate_all, cleanup,
  allowed_reply, step, Ideal, is_live, wait_for, ideal_step,
}
use seawise_client.Auth.Stale.Relation.{
  SameSession, same, SameEntry, neither, both, Related, Agrees, later_session, later_entry,
  pruned_session, pruned_entry, put_session, put_entry, drop_session, drop_entry, failed-IsBounded,
  current_entry-SameEntry, wait_for-SameEntry, is_live-SameSession,
}

-- A rate-limit check drops at most the stale entry of its own address.
at_key : (ip j : Bytes) (am : AuthManager) → (ip == j) ≡ true → am.rate_limits ip ≡ am.rate_limits j
at_key ip j am h = ap am.rate_limits ((==_iff ip j).0 h)

module _ (ip j : Bytes) {now : ℕ} (am : AuthManager) {b : Option RateLimitEntry} where
  check-SameEntry :
      (o : Option RateLimitEntry)
      → am.rate_limits ip ≡ o
      → SameEntry now (am.rate_limits j) b
      → SameEntry now ((check_rate_limit ip now am).1.rate_limits j) b
  unfolding check_rate_limit
  check-SameEntry none e r = rw (e, check_rate_limit) r
  check-SameEntry (some entry) e r = elim (Bool-cases (ltb now entry.locked_until)) [
    | inl locked ↦ rw (e, check_rate_limit, locked) r
    | inr free ↦ elim (Bool-cases (is_over rate_limit_window now entry.last_fail)) [
      | inr recent ↦ rw (e, check_rate_limit, free, recent) r
      | inl over ↦
          rw (e, check_rate_limit, free, over)
            (drop_entry (ip == j) (λ h f found. ground (arith, ltb→lt _ _ over, at_key ip j am h))
              r)
    ]
  ]

check-reply :
    (ip : Bytes) (now : ℕ) (am : AuthManager)
    → allowed_reply (check_rate_limit ip now am).0 ≡ wait_for now (am.rate_limits ip)
unfolding check_rate_limit
check-reply ip now am = ground arith

check-sessions :
    (ip : Bytes) (now : ℕ) (am : AuthManager)
    → (check_rate_limit ip now am).1.sessions ≡ am.sessions
unfolding check_rate_limit
check-sessions ip now am = ground arith

-- So does a session check with an expired session.
module _ (t j : Bytes) {now : ℕ} (am : AuthManager) {b : Option ℕ} where
  validate-SameSession :
      (o : Option ℕ)
      → am.sessions t ≡ o
      → SameSession now (am.sessions j) b
      → SameSession now ((validate_session t now am).1.sessions j) b
  unfolding validate_session
  validate-SameSession none e r = elim (Bool-cases (is_empty t)) [
    | inl no_token ↦ rw (no_token, validate_session) r
    | inr given ↦ rw (given, validate_session, e) r
  ]
  validate-SameSession (some expiry) e r = elim (Bool-cases (is_empty t)) [
    | inl no_token ↦ rw (no_token, validate_session) r
    | inr given ↦ elim (Bool-cases (ltb expiry now)) [
      | inr live ↦ rw (given, validate_session, e, live) r
      | inl over ↦
          rw (given, validate_session, e, over)
            (drop_session (t == j) expiry
              (λ h. (sym (ap am.sessions ((==_iff t j).0 h)) ∙ e, ltb→lt expiry now over)) r)
    ]
  ]

validate-reply :
    (t : Bytes) (now : ℕ) (am : AuthManager)
    → (validate_session t now am).0 ≡ (not (is_empty t) && is_live now (am.sessions t))
unfolding validate_session
validate-reply t now am = ground arith

validate-rate_limits :
    (t : Bytes) (now : ℕ) (am : AuthManager)
    → (validate_session t now am).1.rate_limits ≡ am.rate_limits
unfolding validate_session
validate-rate_limits t now am = ground arith

pub step-Agrees :
    (op : Op) (now : ℕ) (am : AuthManager) (i : Ideal)
    → Related now am i
    → Agrees (step op now am) (ideal_step op now i)
unfolding step ideal_step create_session delete_session record_failed_login clear_rate_limit
    invalidate_all_sessions cleanup_expired_sessions
step-Agrees (tick d) now am i r = record {
  reply = refl;
  now = refl;
  related = record {
    session = λ k. later_session d (r.session k);
    entry = λ k. later_entry d (r.entry k);
  };
}
step-Agrees (create none) now am i r = record { reply = refl; now = refl; related = r }
step-Agrees (create (some random)) now am i r = record {
  reply = refl;
  now = refl;
  related = record {
    session =
        λ k. put_session (some (now + session_max_age)) (hex_encode random == k) (r.session k);
    entry = r.entry;
  };
}
step-Agrees (validate t) now am i r = record {
  reply = rw (validate-reply t now am, is_live-SameSession (r.session t));
  now = refl;
  related = record {
    session = λ k. validate-SameSession t k am (am.sessions t) refl (r.session k);
    entry = λ k. rw validate-rate_limits (r.entry k);
  };
}
step-Agrees (drop_token t) now am i r = record {
  reply = refl;
  now = refl;
  related = record { session = λ k. put_session none (t == k) (r.session k); entry = r.entry };
}
step-Agrees (check_limit ip) now am i r = record {
  reply = check-reply ip now am ∙ wait_for-SameEntry (r.entry ip);
  now = refl;
  related = record {
    session = λ k. rw check-sessions (r.session k);
    entry = λ k. check-SameEntry ip k am (am.rate_limits ip) refl (r.entry k);
  };
}
step-Agrees (fail ip) now am i r = record {
  reply = rw (current_entry-SameEntry (r.entry ip));
  now = refl;
  related = record {
    session = r.session;
    entry = λ k. rw (current_entry-SameEntry (r.entry ip)) (
        put_entry (some (failed_entry now (current_entry now (i.entries ip)))) (ip == k)
          (both (failed_entry now (current_entry now (i.entries ip)))
            (failed-IsBounded now (current_entry now (i.entries ip))))
          (r.entry k));
  };
}
step-Agrees (clear_limit ip) now am i r = record {
  reply = refl;
  now = refl;
  related = record {
    session = r.session;
    entry = λ k. put_entry none (ip == k) neither (r.entry k);
  };
}
step-Agrees invalidate_all now am i r = record {
  reply = refl;
  now = refl;
  related = record { session = λ k. same none; entry = r.entry };
}
step-Agrees cleanup now am i r = record {
  reply = refl;
  now = refl;
  related = record {
    session = λ k. pruned_session (r.session k);
    entry = λ k. pruned_entry (r.entry k);
  };
}
