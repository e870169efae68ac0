-- ===== src/Auth/Stale.antt =====
-- The manager drops expired sessions and stale rate limits now and then: on a lookup, and in the
-- periodic cleanup. Against an ideal manager that never drops anything, no reply differs.
pub mod Model
mod Relation
mod Steps
use seawise_client.Prelude.{ℕ, ◌≡◌, refl, Option, none, some, List, [], ◌∷◌}
use seawise_client.Auth.{
  second, rate_limit_window, rate_limit_max_delay, session_max_age, RateLimitEntry, AuthManager,
  lockout_delay, current_entry, failed_entry, record_failed_login, check_rate_limit,
  cleanup_expired_sessions, clear_rate_limit, is_over, create_session, delete_session,
  validate_session, invalidate_all_sessions, hex_encode, new_auth_manager,
}
use seawise_client.Auth.RateLimit.{lockout_delay_bounds}
use seawise_client.Prelude.Bytes.{Bytes, ◌==◌, ==_iff}
use seawise_client.Prelude.Dict.{drop_if, Dict, empty, put, delete}
use seawise_client.Auth.Stale.Model.{
  Op, tick, create, validate, drop_token, check_limit, fail, clear_limit, invalidate_all, cleanup,
  Reply, nothing, token, valid, allowed, delay, allowed_reply, step, replies, Ideal, is_live,
  wait_for, ideal_step, ideal_replies,
}
use seawise_client.Auth.Stale.Relation.{
  SameSession, same, gone, SameEntry, neither, both, stale, Related, Agrees, later_session,
  later_entry, pruned_session, pruned_entry, put_session, put_entry, drop_session, drop_entry,
  failed-IsBounded, current_entry-SameEntry, wait_for-SameEntry, is_live-SameSession,
}
use seawise_client.Auth.Stale.Steps.{step-Agrees}

replies-Related :
    (ops : List Op) (now : ℕ) (am : AuthManager) (i : Ideal)
    → Related now am i
    → replies ops now am ≡ ideal_replies ops now i
unfolding replies ideal_replies
replies-Related [] now am i r = refl
replies-Related (op ∷ ops) now am i r =
    let a = step-Agrees op now am i r in
    cc (
      a.reply,
      a.now,
      replies-Related ops (step op now am).1 (step op now am).2 (ideal_step op now i).2 a.related,
    )

abbrev pub ideal_start : Ideal
ideal_start = record { expiries = empty; entries = empty }

-- From a fresh manager, any sequence of calls and passing time has the replies of the ideal
-- manager: session checks, rate-limit answers, lockout delays and tokens do not depend on when
-- expired sessions and stale entries are dropped.
pub replies-ideal_replies :
    (ops : List Op) (file : Option Bytes) (now : ℕ)
    → replies ops now (new_auth_manager file now) ≡ ideal_replies ops now ideal_start
unfolding new_auth_manager
replies-ideal_replies ops none now =
    replies-Related ops now _ ideal_start
      (record { session = λ k. same none; entry = λ k. neither })
replies-ideal_replies ops (some []) now =
    replies-Related ops now _ ideal_start
      (record { session = λ k. same none; entry = λ k. neither })
replies-ideal_replies ops (some (c ∷ hash)) now =
    replies-Related ops now _ ideal_start
      (record { session = λ k. same none; entry = λ k. neither })
