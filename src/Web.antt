-- ===== src/Web.antt =====
-- The web UI of cmd/seawise/server/webui.go: its routes and the handlers that stand in that file.
-- net/http's ServeMux is written out as far as the registered patterns need it.
use seawise_client.Auth.Middleware.{Verdict, served, refused, Request, middleware}
use seawise_client.Prelude.{
  ℕ, Bool, true, false, not, ◌&&◌, ◌||◌, Option, none, some, List, [], ◌∷◌, ◌++◌, leb,
  if◌then◌else◌, length, ℤ, take, drop, is_empty, is_some,
}
use seawise_client.Auth.{has_password, AuthManager}
use seawise_client.Net.{parse_ip, to_4, Ip}
use seawise_client.Prelude.Bytes.{has_suffix, Unicode, lit, has_prefix, ◌==◌, contains, Bytes}
use seawise_client.Frp.ConfigFile.Decimal.{int_text}
use seawise_client.Prelude.Paths.{FilePath, clean, text_of}
pub mod Status
pub mod Access
pub mod Secrecy
pub mod Tls
mod Tests

pub data Route : Type 0 where
  auth_status auth_login auth_logout auth_set_password : Route
  static_files home status healthz readyz : Route
  pair_start pair_poll pair_cancel : Route
  services_add services_list services_delete services_enable unpair : Route

-- The patterns that match a path exactly.
unfoldable pub routes : List (Bytes × Route)
routes =
    (lit "/api/auth/status", auth_status)
    ∷ (lit "/api/auth/login", auth_login)
    ∷ (lit "/api/auth/logout", auth_logout)
    ∷ (lit "/api/auth/set-password", auth_set_password)
    ∷ (lit "/api/status", status)
    ∷ (lit "/healthz", healthz)
    ∷ (lit "/readyz", readyz)
    ∷ (lit "/api/pair/start", pair_start)
    ∷ (lit "/api/pair/poll", pair_poll)
    ∷ (lit "/api/pair/cancel", pair_cancel)
    ∷ (lit "/api/services/add", services_add)
    ∷ (lit "/api/services/list", services_list)
    ∷ (lit "/api/services/delete", services_delete)
    ∷ (lit "/api/services/enable", services_enable)
    ∷ (lit "/api/unpair", unpair)
    ∷ []

unfoldable pub lookup_route : Bytes → List (Bytes × Route) → Option Route
lookup_route path [] = none
lookup_route path ((pattern, r) ∷ rest) =
    let later = lookup_route path rest in if path == pattern then some r else later

ends_in_slash : Bytes → Bool
ends_in_slash path = has_suffix path (b'/' ∷ [])

-- cleanPath of net/http: the cleaned path, with a slash at the end where there was one.
unfoldable pub clean_path : Bytes → Bytes
unfolding ends_in_slash clean text_of
clean_path path =
    let rooted : Bytes = if has_prefix path (b'/' ∷ []) then path else b'/' ∷ path in
    let np = text_of (clean rooted) in
    if ends_in_slash path && not (np == b'/' ∷ []) then np ++ b'/' ∷ [] else np

-- What the mux does with a path: it redirects to the cleaned form, or chooses a handler.
pub data Routed : Type 0 where
  redirect : Bytes → Routed
  handled : Route → Routed

-- The path is given decoded. The mux of Go 1.22 matches the escaped path, and so finds a pattern of the
-- table in fewer texts; what it does not find here or there goes to the page of `/`.
unfoldable pub mux_route : Bytes → Routed
unfolding clean_path lookup_route routes
mux_route path =
    if not (clean_path path == path)
    then redirect (clean_path path)
    else elim (lookup_route path routes) [
      | some r ↦ handled r
      | none ↦
          if has_prefix path (lit "/static/")
          then handled static_files
          else if path == lit "/static"
          then redirect (lit "/static/")
          else handled home
    ]

pub data Outcome : Type 0 where
  stopped : ℕ → Bytes → Outcome
  routed : Routed → Outcome

unfoldable pub after_verdict : Verdict → Bytes → Outcome
unfolding mux_route
after_verdict served path = routed (mux_route path)
after_verdict (refused code text) path = stopped code text

-- The handler that startWebUI installs: the middleware around the mux.
unfoldable pub serve : Unicode → Bytes → ℕ → Request → AuthManager → Outcome × AuthManager
unfolding middleware after_verdict
serve u raw now r am =
    let (verdict, am') = middleware u raw now r am in (after_verdict verdict r.path, am')

-- net.IP.IsLoopback
unfoldable pub is_loopback_ip : Ip → Bool
is_loopback_ip ip = elim (to_4 ip) [
  | some v4 ↦ take 1 v4 == 127 ∷ []
  | none ↦ ip == 0 ∷ 0 ∷ 0 ∷ 0 ∷ 0 ∷ 0 ∷ 0 ∷ 0 ∷ 0 ∷ 0 ∷ 0 ∷ 0 ∷ 0 ∷ 0 ∷ 0 ∷ 1 ∷ []
]

unfoldable pub is_loopback_bind_addr : Bytes → Bool
unfolding is_loopback_ip
is_loopback_bind_addr addr =
    if addr == lit "127.0.0.1" || addr == lit "::1" || addr == lit "localhost"
    then true
    else elim (parse_ip addr) [ none ↦ false | some ip ↦ is_loopback_ip ip ]

unfoldable pub hint_host : Bytes → Bytes
hint_host addr =
    if addr == lit "0.0.0.0" || is_empty addr
    then lit "127.0.0.1"
    else if addr == lit "::" || addr == lit "[::]"
    then lit "[::1]"
    else elim (parse_ip addr) [
      | none ↦ addr
      | some ip ↦ if is_some (to_4 ip) then addr else b'[' ∷ (addr ++ b']' ∷ [])
    ]

-- `tls` is SEAWISE_TLS.
unfoldable pub first_run_hint_url : Bytes → Bytes → ℤ → Bytes
unfolding hint_host int_text
first_run_hint_url tls addr port =
    (if tls == lit "auto" then lit "https" else lit "http")
    ++ (lit "://" ++ (hint_host addr ++ (lit ":" ++ (int_text port ++ lit "/"))))

-- The address the UI binds to; `env` is SEAWISE_BIND_ADDR.
unfoldable pub bind_addr_of : Bytes → Bytes
bind_addr_of env = if is_empty env then lit "0.0.0.0" else env

-- Whether the warning about the open setup is logged.
unfoldable pub warns_of_setup : Bytes → AuthManager → Bool
unfolding bind_addr_of is_loopback_bind_addr
warns_of_setup env am = not (has_password am) && not (is_loopback_bind_addr (bind_addr_of env))

-- Steps of generateSelfSignedCert that may fail; the names say which did.
pub data CertGeneration : Type 0 where
  generated no_key no_certificate cert_not_created cert_not_written : CertGeneration
  key_not_marshalled key_not_created key_not_written : CertGeneration

-- Whether the certificate file and the key file are there and complete.
pub record TlsFiles : Type 0 where
  pub cert_there : Bool
  pub cert_complete : Bool
  pub key_complete : Bool

-- The flag says whether there is an error.
unfoldable pub generate_self_signed_cert : CertGeneration → TlsFiles → Bool × TlsFiles
generate_self_signed_cert generated f =
    (false, record { cert_there = true; cert_complete = true; key_complete = true })
generate_self_signed_cert no_key f = (true, f)
generate_self_signed_cert no_certificate f = (true, f)
generate_self_signed_cert cert_not_created f = (true, f)
generate_self_signed_cert cert_not_written f =
    (true, record f { cert_there = true; cert_complete = false })
generate_self_signed_cert key_not_marshalled f =
    (true, record f { cert_there = true; cert_complete = true })
generate_self_signed_cert key_not_created f =
    (true, record f { cert_there = true; cert_complete = true })
generate_self_signed_cert key_not_written f =
    (true, record { cert_there = true; cert_complete = true; key_complete = false })

-- Whether the UI is served with TLS, and the files after the start.
unfoldable pub choose_tls : Bytes → CertGeneration → TlsFiles → Bool × TlsFiles
unfolding generate_self_signed_cert
choose_tls tls how f =
    if not (tls == lit "auto")
    then (false, f)
    else if f.cert_there
    then (true, f)
    else (let (failed, f') = generate_self_signed_cert how f in (not failed, f'))

-- `read` is templates.ReadFile, and the reply carries the content type, if one is set.
unfoldable pub content_type : Bytes → Option Bytes
content_type name =
    if has_suffix name (lit ".png")
    then some (lit "image/png")
    else if has_suffix name (lit ".css")
    then some (lit "text/css; charset=utf-8")
    else if has_suffix name (lit ".js")
    then some (lit "application/javascript; charset=utf-8")
    else none

unfoldable pub handle_static : (Bytes → Option Bytes) → Bytes → Option (Option Bytes × Bytes)
unfolding content_type
handle_static read path =
    if leb (length path) 8
    then none
    else let name = drop 8 path in
      if is_empty name || contains name (lit "..")
      then none
      else elim (read (lit "templates/" ++ name)) [
        | none ↦ none
        | some content ↦ some (content_type name, content)
      ]
