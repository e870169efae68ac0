-- ===== src/Auth/Hosts.antt =====
-- cmd/seawise/server/auth.go: the guards against DNS rebinding and cross-site requests.
use seawise_client.Prelude.{
  Bool, true, false, not, ◌||◌, none, some, List, [], ◌∷◌, ◌++◌, eqb, if◌then◌else◌, length, any,
  drop, is_empty, is_some,
}
use seawise_client.Prelude.Bytes.{
  Bytes, lit, ◌==◌, Unicode, to_lower, trim_space, trim_suffix, has_prefix, has_suffix, split,
}
use seawise_client.Net.{parse_ip, split_host_port}

host_part : Bytes → Bytes
host_part h = elim (split_host_port h) [ some host ↦ host | none ↦ h ]

module _ (u : Unicode) where
  -- The loop over the parts of the variable.
  allowed_parts : List Bytes → List Bytes
  allowed_parts [] = []
  allowed_parts (p ∷ ps) =
      let h = to_lower u (trim_space u p) in
      let rest = allowed_parts ps in if is_empty h then rest else host_part h ∷ rest

  -- `raw` is the value of SEAWISE_ALLOWED_HOSTS.
  unfoldable pub allowed_hosts_from_env : Bytes → List Bytes
  unfolding allowed_parts host_part
  allowed_hosts_from_env raw = if is_empty raw then [] else allowed_parts (split b',' raw)

  unfoldable pub request_hostname : Bytes → Bytes
  unfolding host_part
  request_hostname host = trim_suffix (to_lower u (host_part host)) (lit ".")

  unfoldable pub is_host_allowed : Bytes → Bytes → Bool
  is_host_allowed raw host =
      if is_empty host
      then false
      else let h = request_hostname host in
        if h == lit "localhost" || has_suffix h (lit ".local")
        then true
        else if is_some (parse_ip h)
        then true
        else any (λ allowed. h == allowed) (allowed_hosts_from_env raw)

unfoldable pub origin_matches_host : Bytes → Bytes → Bool
origin_matches_host origin host =
    if is_empty origin || origin == lit "null" || is_empty host
    then false
    else origin == lit "http://" ++ host || origin == lit "https://" ++ host

unfoldable pub delimited : Bytes → Bool
delimited [] = true
delimited (c ∷ _) = eqb c b'/' || eqb c b'?' || eqb c b'#'

-- The loop over the two schemes.
unfoldable pub referer_under : Bytes → Bytes → List Bytes → Bool
referer_under referer host [] = false
referer_under referer host (scheme ∷ schemes) =
    let prefix = scheme ++ host in
    let later = referer_under referer host schemes in
    if not (has_prefix referer prefix)
    then later
    else if delimited (drop (length prefix) referer)
    then true
    else later

unfoldable pub referer_matches_host : Bytes → Bytes → Bool
unfolding delimited referer_under
referer_matches_host referer host =
    if is_empty referer || is_empty host
    then false
    else referer_under referer host (lit "http://" ∷ lit "https://" ∷ [])
