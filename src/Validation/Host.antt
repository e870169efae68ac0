-- ===== src/Validation/Host.antt =====
-- internal/validation/host.go: hosts that must not be exposed. A DNS answer is an argument.
use seawise_client.Prelude.{
  ℕ, ◌-◌, Bool, true, false, ◌&&◌, ◌||◌, Option, none, some, List, [], ◌∷◌, ◌++◌, leb, eqb,
  if◌then◌else◌, length, any, take, drop, is_empty,
}
use seawise_client.Prelude.Bytes.{Bytes, lit, ◌==◌, Unicode, to_lower, trim_suffix, has_suffix}
use seawise_client.Net.{Ip, IpNet, parse_ip, net_contains, split_host_port}

-- The reason of a BlockedHostError.
pub data Reason : Type 0 where
  empty_host metadata_host : Reason

pub record BlockedHostError : Type 0 where
  pub host : Bytes
  pub reason : Reason

unfoldable pub reason_text : Reason → Bytes
reason_text empty_host = lit "host cannot be empty"
reason_text metadata_host =
    lit "cloud metadata and link-local addresses cannot be exposed (security risk)"

unfoldable pub error_text : BlockedHostError → Bytes
unfolding reason_text
error_text e = lit "blocked: " ++ reason_text e.reason

-- The addresses that these texts parse to.
unfoldable pub blocked_metadata_ips : List (Option Ip)
blocked_metadata_ips =
    parse_ip (lit "169.254.169.254")
    ∷ parse_ip (lit "fd00:ec2::254")
    ∷ parse_ip (lit "192.0.0.192")
    ∷ parse_ip (lit "100.100.100.200")
    ∷ []

unfoldable pub blocked_metadata_hostnames : List Bytes
blocked_metadata_hostnames = lit "metadata.google.internal" ∷ lit "metadata.google" ∷ []

-- 169.254.0.0/16 and fe80::/10
unfoldable pub blocked_nets : List IpNet
blocked_nets =
    record { number = 169 ∷ 254 ∷ 0 ∷ 0 ∷ []; mask = 255 ∷ 255 ∷ 0 ∷ 0 ∷ [] }
    ∷ record {
      number = 254 ∷ 128 ∷ 0 ∷ 0 ∷ 0 ∷ 0 ∷ 0 ∷ 0 ∷ 0 ∷ 0 ∷ 0 ∷ 0 ∷ 0 ∷ 0 ∷ 0 ∷ 0 ∷ [];
      mask = 255 ∷ 192 ∷ 0 ∷ 0 ∷ 0 ∷ 0 ∷ 0 ∷ 0 ∷ 0 ∷ 0 ∷ 0 ∷ 0 ∷ 0 ∷ 0 ∷ 0 ∷ 0 ∷ [];
    }
    ∷ []

first_is : ℕ → Bytes → Bool
first_is c [] = false
first_is c (x ∷ _) = eqb x c

-- Both brackets around the whole text.
bracketed : Bytes → Bool
unfolding first_is
bracketed s = leb 2 (length s) && first_is b'[' s && first_is b']' (drop (length s - 1) s)

without_port : Bytes → Bytes
without_port lower = elim (split_host_port lower) [
  | some h ↦ h
  | none ↦ if bracketed lower then take (length lower - 2) (drop 1 lower) else lower
]

module _ (u : Unicode) where
  unfoldable pub normalize_host : Bytes → Bytes
  unfolding without_port bracketed
  normalize_host host = trim_suffix (without_port (to_lower u host)) (b'.' ∷ [])

-- net.IP.Equal on addresses of 16 bytes.
same_ip : Ip → Option Ip → Bool
same_ip ip none = false
same_ip ip (some blocked) = ip == blocked

unfoldable pub is_blocked_ip : Ip → Bool
unfolding same_ip blocked_metadata_ips blocked_nets
is_blocked_ip ip =
    any (same_ip ip) blocked_metadata_ips || any (λ n. net_contains n ip) blocked_nets

unfoldable pub names_metadata : Bytes → Bool
unfolding blocked_metadata_hostnames
names_metadata h = any (λ name. h == name || has_suffix h (b'.' ∷ name)) blocked_metadata_hostnames

is_blocked_literal : Option Ip → Bool
is_blocked_literal none = false
is_blocked_literal (some ip) = is_blocked_ip ip

module _ (u : Unicode) where
  unfoldable pub is_cloud_metadata : Bytes → Bool
  unfolding names_metadata is_blocked_literal
  is_cloud_metadata host =
      let h = normalize_host u host in
      if names_metadata h then true else is_blocked_literal (parse_ip h)

  unfoldable pub validate_service_host : Bytes → Option BlockedHostError
  validate_service_host host =
      if is_empty host
      then some (record { host = host; reason = empty_host })
      else if is_cloud_metadata host
      then some (record { host = host; reason = metadata_host })
      else none

  -- `lookup_ip` is the resolver's answer within its timeout, and `none` is an error.
  unfoldable pub validate_service_host_resolved :
      (Bytes → Option (List Ip)) → Bytes → Option BlockedHostError
  validate_service_host_resolved lookup_ip host = elim (validate_service_host host) [
    | some err ↦ some err
    | none ↦ elim (parse_ip (normalize_host u host)) [
      | some ip ↦ none
      | none ↦ elim (lookup_ip (normalize_host u host)) [
        | none ↦ none
        | some ips ↦
            if any is_blocked_ip ips
            then some (record { host = host; reason = metadata_host })
            else none
      ]
    ]
  ]
