-- ===== src/Validation/Tests.antt =====
-- Tests of the checks, after host_test.go, and the theorems at concrete inputs.
use seawise_client.Prelude.{
  ◌≡◌, ◌≢◌, refl, Bool, true, false, Option, none, some, List, [], ◌∷◌, map, arith, if◌then◌else◌,
  all, any,
}
use seawise_client.Prelude.Bytes.{
  TrimsOnly, contains, has_prefix, trim_space, to_lower, trim_suffix, Bytes, lit, ◌==◌, Unicode,
}
use seawise_client.Net.{Ip, net_contains, split_host_port, parse_ip}
use seawise_client.Validation.{
  sanitize_message, sensitive_patterns, sanitize_error_for_ui, parse_api_error, status_text,
}
use seawise_client.Validation.Blocking.{mapped, validate_service_host_resolved_sound}
use seawise_client.Validation.Host.{
  validate_service_host, validate_service_host_resolved, names_metadata, normalize_host,
  is_blocked_ip, is_cloud_metadata,
}

abbrev ascii : Unicode
ascii = record { lower = λ s. s; trim = λ s. s; fold = λ s t. s == t }

blocked : Bytes → Bool
unfolding is_cloud_metadata ◌==◌ normalize_host trim_suffix split_host_port to_lower parse_ip
    is_blocked_ip net_contains
blocked host = is_cloud_metadata ascii host

allowed_hosts :
    any blocked (
      lit "localhost"
      ∷ lit "127.0.0.1"
      ∷ lit "::1"
      ∷ lit "host.docker.internal"
      ∷ lit "8.8.8.8"
      ∷ lit "192.168.1.1"
      ∷ lit "::ffff:1:2:3:4:5:6:7"
      ∷ [])
    ≡ false
unfolding blocked lit
allowed_hosts = refl

blocked_hosts :
    all blocked (
      lit "169.254.169.254"
      ∷ lit "169.254.169.254:80"
      ∷ lit "metadata.google.internal"
      ∷ lit "v1.metadata.google.internal."
      ∷ lit "fd00:ec2::254"
      ∷ lit "[fd00:ec2::254]:80"
      ∷ lit "[FD00:ec2::254]"
      ∷ lit "::ffff:169.254.169.254"
      ∷ lit "192.0.0.192"
      ∷ lit "100.100.100.200"
      ∷ lit "169.254.1.1:8080"
      ∷ lit "169.254.169.254."
      ∷ lit "fe80::1"
      ∷ lit "[fe80::1]:80"
      ∷ [])
    ≡ true
unfolding blocked lit
blocked_hosts = refl

parsed :
    map parse_ip (lit "1:2:3:4:5:6:7:8" ∷ lit "1::" ∷ lit "::" ∷ lit "1:2:3:4:5:6:1.2.3.4" ∷ [])
    ≡ some (0 ∷ 1 ∷ 0 ∷ 2 ∷ 0 ∷ 3 ∷ 0 ∷ 4 ∷ 0 ∷ 5 ∷ 0 ∷ 6 ∷ 0 ∷ 7 ∷ 0 ∷ 8 ∷ [])
      ∷ some (0 ∷ 1 ∷ 0 ∷ 0 ∷ 0 ∷ 0 ∷ 0 ∷ 0 ∷ 0 ∷ 0 ∷ 0 ∷ 0 ∷ 0 ∷ 0 ∷ 0 ∷ 0 ∷ [])
      ∷ some (0 ∷ 0 ∷ 0 ∷ 0 ∷ 0 ∷ 0 ∷ 0 ∷ 0 ∷ 0 ∷ 0 ∷ 0 ∷ 0 ∷ 0 ∷ 0 ∷ 0 ∷ 0 ∷ [])
      ∷ some (0 ∷ 1 ∷ 0 ∷ 2 ∷ 0 ∷ 3 ∷ 0 ∷ 4 ∷ 0 ∷ 5 ∷ 0 ∷ 6 ∷ 1 ∷ 2 ∷ 3 ∷ 4 ∷ [])
      ∷ []
unfolding parse_ip lit
parsed = refl

not_parsed :
    map parse_ip (
      lit "1.2.3"
      ∷ lit "01.2.3.4"
      ∷ lit "1.2.3.256"
      ∷ lit "1:2:3:4:5:6:7"
      ∷ lit "1::2::3"
      ∷ lit "1:2:3:4:5:6:7::8"
      ∷ lit "12345::"
      ∷ lit "fe80::1%eth0"
      ∷ [])
    ≡ none ∷ none ∷ none ∷ none ∷ none ∷ none ∷ none ∷ none ∷ []
unfolding parse_ip lit
not_parsed = refl

link_local_text : parse_ip (normalize_host ascii (lit "169.254.7.9:80")) ≡ some (mapped 169 254 7 9)
unfolding blocked lit
link_local_text = refl

given : lit "169.254.7.9:80" ≢ []
unfolding lit
given e = cc e

-- A resolver that knows one name.
abbrev resolver : Bytes → Option (List Ip)
resolver h = if h == lit "nas" then some (mapped 192 168 1 20 ∷ []) else none

nas_allowed : validate_service_host_resolved ascii resolver (lit "nas") ≡ none
unfolding blocked lit validate_service_host_resolved validate_service_host
nas_allowed = refl

validate_service_host_resolved_sound_example :
    (lit "nas" ≢ [])
    × (names_metadata (normalize_host ascii (lit "nas")) ≡ false)
    × ((ip : Ip) → parse_ip (normalize_host ascii (lit "nas")) ≡ some ip → is_blocked_ip ip ≡ false)
    × ((ips : List Ip)
        → parse_ip (normalize_host ascii (lit "nas")) ≡ none
        → resolver (normalize_host ascii (lit "nas")) ≡ some ips
        → any is_blocked_ip ips ≡ false)
validate_service_host_resolved_sound_example =
    validate_service_host_resolved_sound ascii resolver (lit "nas") nas_allowed

abbrev ascii_trims : TrimsOnly ascii
ascii_trims = record { shorter = λ s. omega arith; part = λ p s h. h }

-- errors.go and validation.go at inputs of every kind.
message_tests :
    (sanitize_error_for_ui ascii (some (lit "pq: no rows")) (lit "Failed") ≡ lit "Failed")
    × (sanitize_error_for_ui ascii (some (lit "bad name")) (lit "Failed") ≡ lit "bad name")
    × (sanitize_message ascii (lit " disk full ") ≡ lit "disk full")
    × (parse_api_error ascii none 503 ≡ lit "Server error")
unfolding blocked lit sanitize_error_for_ui sensitive_patterns contains has_prefix sanitize_message
    trim_space parse_api_error status_text
message_tests = (refl, refl, refl, refl)
