-- ===== src/Web/Secrecy.antt =====
-- What the status of cmd/seawise/server/webui.go tells a caller without a session.
use seawise_client.Auth.{setup_timed_out, has_password, AuthManager}
use seawise_client.Web.Status.{StatusReply, status_reply, is_authenticated, handle_status}
use seawise_client.Server.{PairingState, Server}
use seawise_client.Auth.Middleware.{cookie_session}
use seawise_client.Prelude.Bytes.{Bytes}
use seawise_client.Prelude.{
  ℕ, ◌≡◌, ap, true, false, Option, none, some, if◌then◌else◌, ◌∙◌, is_empty,
}

public_reply :
    (version hostname : Bytes) (now : ℕ) (am : AuthManager) (s s' : Server)
    → s.pairing_state ≡ s'.pairing_state
    → s.latest_version ≡ s'.latest_version
    → status_reply version hostname now false am s ≡ status_reply version hostname now false am s'
unfolding status_reply
public_reply version hostname now am s s' p l =
    let shown : PairingState → Bytes → StatusReply = λ state newest. record {
      pairing_state = state;
      default_hostname = hostname;
      version = version;
      password_set = has_password am;
      setup_timed_out = setup_timed_out now am;
      authenticated = false;
      latest_version = if is_empty newest then none else some newest;
      details = none;
    } in
    ap (λ x. shown x s.latest_version) p ∙ ap (λ y. shown s'.pairing_state y) l

-- To a caller without a valid session the status shows of the server no more than the pairing state
-- and the newest version: if a password is set, two servers that agree on these give the same reply,
-- the default host name, the version, the time and the state of the passwords being the same.
pub handle_status-agree :
    (version hostname : Bytes) (now : ℕ) (cookie : Option Bytes) (am : AuthManager) (s s' : Server)
    → has_password am ≡ true
    → (cookie_session cookie now am).0 ≡ false
    → s.pairing_state ≡ s'.pairing_state
    → s.latest_version ≡ s'.latest_version
    → handle_status version hostname now cookie am s
      ≡ handle_status version hostname now cookie am s'
unfolding handle_status is_authenticated
handle_status-agree version hostname now cookie am s s' h k p l =
    let am' = (cookie_session cookie now am).1 in
    rw h (rw k (ap (λ r. (r, am')) (public_reply version hostname now am' s s' p l)))
