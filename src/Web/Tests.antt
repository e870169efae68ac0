-- ===== src/Web/Tests.antt =====
-- Tests of the web UI, and the theorems on it at concrete inputs.
use seawise_client.Web.{
  handled, routed, services_delete, redirect, clean_path, hint_host, first_run_hint_url, mux_route,
  serve,
}
use seawise_client.Net.{split_host_port, parse_ip}
use seawise_client.Prelude.Bytes.{trim_suffix, to_lower, split, has_prefix, has_suffix, ◌==◌, lit}
use seawise_client.Auth.{validate_session, has_password}
use seawise_client.Auth.Hosts.{
  origin_matches_host, request_hostname, is_host_allowed, allowed_hosts_from_env,
}
use seawise_client.Auth.Middleware.{
  is_api_path, is_open_path, is_safe_method, middleware, cookie_session,
}
use seawise_client.Web.Access.{serve-HasSession}
use seawise_client.Web.Secrecy.{handle_status-agree}
use seawise_client.Server.Tests.{server}
use seawise_client.Auth.Access.{HasSession}
use seawise_client.Server.{Server}
use seawise_client.Web.Status.{handle_status}
use seawise_client.Auth.Tests.{ascii, with_session, delete_request}
use seawise_client.Prelude.Paths.{text_of, clean}
use seawise_client.Frp.ConfigFile.Decimal.{decimal, int_text}
use seawise_client.Prelude.{◌≡◌, refl, true, false, none, some, [], pos}

hint_for_ipv6 : first_run_hint_url (lit "auto") (lit "::") (pos 8082) ≡ lit "https://[::1]:8082/"
unfolding first_run_hint_url hint_host int_text decimal lit ◌==◌
hint_for_ipv6 = refl

dotted_redirected : mux_route (lit "/static/../api/unpair") ≡ redirect (lit "/api/unpair")
unfolding mux_route clean_path clean text_of lit ◌==◌ has_suffix has_prefix split
dotted_redirected = refl

reached : (serve ascii [] 100 delete_request with_session).0 ≡ routed (handled services_delete)
unfolding serve mux_route clean_path clean text_of lit ◌==◌ middleware allowed_hosts_from_env
    is_safe_method is_open_path is_api_path is_host_allowed request_hostname origin_matches_host
    cookie_session validate_session has_password to_lower trim_suffix has_prefix has_suffix parse_ip
    split_host_port split
reached = refl

serve-HasSession_example :
    (has_password with_session ≡ true) × HasSession 100 (some (lit "t0")) with_session
serve-HasSession_example =
    serve-HasSession ascii [] 100 delete_request with_session services_delete reached refl

has_secret : has_password with_session ≡ true
unfolding has_password lit
has_secret = refl

no_cookie : (cookie_session none 100 with_session).0 ≡ false
unfolding cookie_session
no_cookie = refl

abbrev while_pairing : Server
while_pairing = record server { pairing_code = lit "ABCD"; cfg = none }

handle_status-agree_example :
    handle_status (lit "1.0") (lit "nas") 100 none with_session server
    ≡ handle_status (lit "1.0") (lit "nas") 100 none with_session while_pairing
handle_status-agree_example =
    handle_status-agree (lit "1.0") (lit "nas") 100 none with_session server while_pairing
      has_secret no_cookie refl refl
