-- ===== src/Auth/Access.antt =====
-- What the middleware has established when a request is served.
use seawise_client.Prelude.{
  ℕ, ◌≤◌, ◌≡◌, refl, ◌⊎◌, inl, inr, true, false, ◌||◌, Option, none, some, [], ◌∷◌, ◌++◌, arith,
  Bool-cases, any, Option-cases, is_empty,
}
use seawise_client.Prelude.Bytes.{Bytes, lit, ◌==◌, eq_of_==, Unicode, has_prefix, has_suffix}
use seawise_client.Net.{Ip, parse_ip}
use seawise_client.Auth.{AuthManager, has_password, validate_session}
use seawise_client.Auth.Hosts.{
  allowed_hosts_from_env, request_hostname, is_host_allowed, origin_matches_host,
}
use seawise_client.Auth.Origins.{IsUnder, referer_matches_host_iff}
use seawise_client.Auth.Middleware.{
  Request, served, is_safe_method, is_open_path, is_api_path, cross_site_error, cookie_session,
  session_guard, middleware,
}

-- A host name that no public DNS answer can stand behind, or that the operator listed.
abbrev pub IsTrusted : Unicode → Bytes → Bytes → Type 0
IsTrusted u raw h =
    (h ≡ lit "localhost")
    ⊎ (has_suffix h (lit ".local") ≡ true)
    ⊎ ((ip : Ip) × (parse_ip h ≡ some ip))
    ⊎ (any (λ allowed. h == allowed) (allowed_hosts_from_env u raw) ≡ true)

is_host_allowed-IsTrusted :
    (u : Unicode) (raw host : Bytes)
    → is_host_allowed u raw host ≡ true
    → IsTrusted u raw (request_hostname u host)
unfolding is_host_allowed
is_host_allowed-IsTrusted u raw host h =
    let name = request_hostname u host in
    elim (Bool-cases (name == lit "localhost")) [
      | inl e ↦ inl (eq_of_== name (lit "localhost") e)
      | inr e ↦ elim (Bool-cases (has_suffix name (lit ".local"))) [
        | inl f ↦ inr (inl f)
        | inr f ↦ elim (Option-cases (parse_ip name)) [
          | inr found ↦ inr (inr (inl found))
          | inl g ↦ inr (inr (inr (ground arith)))
        ]
      ]
    ]

-- The request names its own site: by its Origin, or by its Referer if there is no Origin.
abbrev pub IsSameSite : Request → Type 0
IsSameSite r =
    (r.origin ≡ lit "http://" ++ r.host)
    ⊎ (r.origin ≡ lit "https://" ++ r.host)
    ⊎ ((r.origin ≡ [])
        × (IsUnder (lit "http://") r.host r.referer ⊎ IsUnder (lit "https://") r.host r.referer))

origin_matches_host_sound :
    (origin host : Bytes)
    → origin_matches_host origin host ≡ true
    → (origin ≡ lit "http://" ++ host) ⊎ (origin ≡ lit "https://" ++ host)
unfolding origin_matches_host
origin_matches_host_sound origin host h = elim (Bool-cases (origin == lit "http://" ++ host)) [
  | inl e ↦ inl (eq_of_== origin (lit "http://" ++ host) e)
  | inr e ↦ inr (eq_of_== origin (lit "https://" ++ host) (ground arith))
]

eq_of_is_empty : (s : Bytes) → is_empty s ≡ true → s ≡ []
eq_of_is_empty [] h = refl
eq_of_is_empty (c ∷ s) h = cc

cross_site_error_sound :
    (u : Unicode) (raw : Bytes) (r : Request)
    → cross_site_error u raw r ≡ none
    → IsTrusted u raw (request_hostname u r.host) × IsSameSite r
unfolding cross_site_error
cross_site_error_sound u raw r h = (
  is_host_allowed-IsTrusted u raw r.host (ground arith),
  elim (Bool-cases (is_empty r.origin)) [
    | inl absent ↦ inr (
        inr (
          eq_of_is_empty r.origin absent,
          ((referer_matches_host_iff r.referer r.host).0 (ground arith)).2,
        ))
    | inr given ↦ elim (origin_matches_host_sound r.origin r.host (ground arith)) [
      | inl e ↦ inl e
      | inr e ↦ inr (inl e)
    ]
  ],
)

-- The two prefixes differ in their second byte.
api_not_static :
    (path : Bytes)
    → is_api_path path ≡ true
    → (path == lit "/" || has_prefix path (lit "/static/")) ≡ false
unfolding is_api_path ◌==◌ has_prefix lit
api_not_static [] h = cc
api_not_static (a ∷ []) h = ground arith
api_not_static (a ∷ b ∷ path) h = ground arith

-- The cookie is the token of a session that has not expired.
abbrev pub HasSession : ℕ → Option Bytes → AuthManager → Type 0
HasSession now cookie am =
    (token : Bytes) × (expiry : ℕ) × (cookie ≡ some token)
    × (am.sessions token ≡ some expiry)
    × (now ≤ expiry)

validate_session_sound :
    (token : Bytes) (now : ℕ) (am : AuthManager)
    → (validate_session token now am).0 ≡ true
    → (expiry : ℕ) × (am.sessions token ≡ some expiry) × (now ≤ expiry)
unfolding validate_session
validate_session_sound token now am h = elim (Option-cases (am.sessions token)) [
  | inl e ↦ absurd (ground arith)
  | inr (expiry, e) ↦ (expiry, e, ground arith)
]

pub cookie_session_sound :
    (cookie : Option Bytes) (now : ℕ) (am : AuthManager)
    → (cookie_session cookie now am).0 ≡ true
    → HasSession now cookie am
unfolding cookie_session
cookie_session_sound none now am h = cc
cookie_session_sound (some token) now am h =
    let (expiry, found, live) = validate_session_sound token now am h in
    (token, expiry, refl, found, live)

session_guard_sound :
    (now : ℕ) (r : Request) (am : AuthManager)
    → (session_guard now r am).0 ≡ served
    → is_api_path r.path ≡ true
    → is_open_path r.path ≡ false
    → (has_password am ≡ true) × HasSession now r.cookie am
unfolding session_guard
session_guard_sound now r am h api closed = (
  ground (arith, api_not_static r.path api),
  cookie_session_sound r.cookie now am (ground (arith, api_not_static r.path api)),
)

module _ (u : Unicode) (raw : Bytes) (now : ℕ) (r : Request) (am : AuthManager) where
  -- A request with a method other than GET, HEAD and OPTIONS is served only if its host name,
  -- with port and trailing dot removed, is localhost, a .local name, an address or one that the
  -- operator listed, and its Origin, or without one its Referer, is of the very host addressed.
  pub middleware-IsSameSite :
      (middleware u raw now r am).0 ≡ served
      → is_safe_method r.method ≡ false
      → IsTrusted u raw (request_hostname u r.host) × IsSameSite r
  unfolding middleware
  middleware-IsSameSite h unsafe = elim (Option-cases (cross_site_error u raw r)) [
    | inl e ↦ cross_site_error_sound u raw r e
    | inr (text, e) ↦ absurd (ground arith)
  ]

  -- A request for an /api/ path other than the open ones is served only if a password is set and
  -- its cookie is the token of a session that has not expired.
  pub middleware-authenticated :
      (middleware u raw now r am).0 ≡ served
      → is_api_path r.path ≡ true
      → is_open_path r.path ≡ false
      → (has_password am ≡ true) × HasSession now r.cookie am
  unfolding middleware
  middleware-authenticated h api closed = session_guard_sound now r am (ground arith) api closed
