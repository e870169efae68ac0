-- ===== src/Web/Access.antt =====
-- Which requests reach the handlers behind the routes of cmd/seawise/server/webui.go.
use seawise_client.Web.{
  home, static_files, clean_path, after_verdict, Routed, auth_logout, pair_start, pair_poll,
  pair_cancel, services_add, services_list, services_delete, services_enable, unpair, routed,
  handled, mux_route, serve, lookup_route, Route, routes,
}
use seawise_client.Prelude.Bytes.{has_prefix, eq_of_==, ◌==◌, lit, Unicode, Bytes}
use seawise_client.Prelude.{
  ℕ, ◌≡◌, refl, sym, inl, inr, Bool, true, false, not, ◌&&◌, ◌||◌, some, List, [], ◌∷◌, arith,
  Bool-cases, all, subst, case_none, case_if,
}
use seawise_client.Auth.Access.{middleware-authenticated, HasSession}
use seawise_client.Auth.Middleware.{
  Verdict, middleware, served, refused, Request, is_open_path, is_api_path,
}
use mathlib.Core.Option.{some_inj}
use seawise_client.Auth.{has_password, AuthManager}

-- The handlers that only a session opens: all that act for the owner.
abbrev pub is_private : Route → Bool
is_private auth_logout = true
is_private pair_start = true
is_private pair_poll = true
is_private pair_cancel = true
is_private services_add = true
is_private services_list = true
is_private services_delete = true
is_private services_enable = true
is_private unpair = true
is_private _ = false

-- A private route stands under /api/ and is not an open path.
abbrev is_guarded : Bytes × Route → Bool
is_guarded (path, r) = not (is_private r) || (is_api_path path && not (is_open_path path))

routes_guarded : all is_guarded routes ≡ true
unfolding routes is_api_path is_open_path lit ◌==◌
routes_guarded = refl

lookup_route_guarded :
    (path : Bytes) (rs : List (Bytes × Route)) (r : Route)
    → all is_guarded rs ≡ true
    → lookup_route path rs ≡ some r
    → is_guarded (path, r) ≡ true
unfolding lookup_route
lookup_route_guarded path [] r h k = cc
lookup_route_guarded path ((pattern, r') ∷ rs) r h k = elim (Bool-cases (path == pattern)) [
  | inl e ↦
      let same : r' ≡ r = some_inj.0 (ground arith) in
      subst (λ x. is_guarded (path, x) ≡ true) same
        (subst (λ p. is_guarded (p, r') ≡ true) (sym (eq_of_== path pattern e)) (ground arith))
  | inr e ↦ lookup_route_guarded path rs r (ground arith) (ground arith)
]

handled_inj : (r' r : Route) → handled r' ≡ handled r → r' ≡ r
handled_inj r' r h = cc

after_verdict_served :
    (v : Verdict) (path : Bytes) (x : Routed)
    → after_verdict v path ≡ routed x
    → (v ≡ served) × (mux_route path ≡ x)
unfolding after_verdict
after_verdict_served served path x h = (refl, ground arith)
after_verdict_served (refused code text) path x h = cc

module _ (r : Route) (k : is_private r ≡ true) where
  not_private : (r' : Route) → handled r' ≡ handled r → is_private r' ≡ false → ⊥
  not_private r' h e = ground (arith, handled_inj r' r h)

mux_route_guarded :
    (path : Bytes) (r : Route)
    → mux_route path ≡ handled r
    → is_private r ≡ true
    → (is_api_path path ≡ true) × (is_open_path path ≡ false)
unfolding mux_route
mux_route_guarded path r h k =
    let Answers : Routed → Type 0 =
      λ x. x ≡ handled r → (is_api_path path ≡ true) × (is_open_path path ≡ false) in
    case_if Answers (not (clean_path path == path)) (λ e. λ h. cc)
      (λ e.
        case_none Answers (lookup_route path routes)
          (λ missing.
            case_if Answers (has_prefix path (lit "/static/"))
              (λ e h. absurd (not_private r k static_files h refl))
              (λ e.
                case_if Answers (path == lit "/static") (λ e h. cc)
                  (λ e h. absurd (not_private r k home h refl))))
          (λ r' found h.
            let guarded = lookup_route_guarded path routes r' routes_guarded found in
            let same = handled_inj r' r h in (ground arith, ground arith)))
      h

-- A request reaches a handler that acts for the owner (pairing, services, unpairing, logging out)
-- only if a password is set and its cookie is the token of a session that has not expired.
pub serve-HasSession :
    (u : Unicode) (raw : Bytes) (now : ℕ) (q : Request) (am : AuthManager) (r : Route)
    → (serve u raw now q am).0 ≡ routed (handled r)
    → is_private r ≡ true
    → (has_password am ≡ true) × HasSession now q.cookie am
unfolding serve
serve-HasSession u raw now q am r h k =
    let (passed, there) = after_verdict_served (middleware u raw now q am).0 q.path (handled r) h in
    let (api, closed) = mux_route_guarded q.path r there k in
    middleware-authenticated u raw now q am passed api closed
