-- ===== src/Validation/Blocking.antt =====
-- Which hosts the checks of host.go refuse.
use seawise_client.Prelude.{
  ℕ, zero, suc, ◌+◌, ◌<◌, ◌≡◌, ◌≢◌, refl, Bool, true, false, ◌&&◌, ◌||◌, Option, none, some, List,
  [], ◌∷◌, arith, eqb, length, All, any,
}
use Prim.Native.Nat.{bit_and}
use seawise_client.Prelude.Bytes.{Bytes, ◌==◌, Unicode}
use seawise_client.Net.{Ip, parse_ip, net_contains, masked_eq, short_form}
use seawise_client.Validation.Host.{
  metadata_host, is_blocked_ip, blocked_nets, is_cloud_metadata, normalize_host, names_metadata,
  validate_service_host, validate_service_host_resolved,
}

abbrev pub mapped : ℕ → ℕ → ℕ → ℕ → Ip
mapped a b c d = 0 ∷ 0 ∷ 0 ∷ 0 ∷ 0 ∷ 0 ∷ 0 ∷ 0 ∷ 0 ∷ 0 ∷ 255 ∷ 255 ∷ a ∷ b ∷ c ∷ d ∷ []

abbrev pub AreBytes : Bytes → Type 0
AreBytes s = All (λ c. c < 256) s

-- The two families of link-local addresses: 169.254.0.0/16 and fe80::/10.
pub data IsLinkLocal : Ip → Type 0 where
  v4 : (c d : ℕ) → c < 256 → d < 256 → IsLinkLocal (mapped 169 254 c d)
  v6 :
      (x : ℕ) (rest : Bytes)
      → x < 64
      → AreBytes rest
      → length rest ≡ 14
      → IsLinkLocal (254 ∷ (128 + x) ∷ rest)

-- A test that holds of every number below a bound, by trying them.
holds_below : ℕ → (ℕ → Bool) → Bool
holds_below zero p = true
holds_below (suc n) p = holds_below n p && p n

holds_below_sound : (n x : ℕ) (p : ℕ → Bool) → holds_below n p ≡ true → x < n → p x ≡ true
unfolding holds_below
holds_below_sound zero x p h lt = absurd (omega arith)
holds_below_sound (suc n) x p h lt = ground (arith, holds_below_sound n x p)

free_byte_table : holds_below 256 (λ c. eqb (bit_and 0 0) (bit_and c 0)) ≡ true
unfolding holds_below
free_byte_table = refl

free_byte : (c : ℕ) → c < 256 → eqb (bit_and 0 0) (bit_and c 0) ≡ true
free_byte c h = holds_below_sound 256 c (λ c. eqb (bit_and 0 0) (bit_and c 0)) free_byte_table h

second_byte_table : holds_below 64 (λ x. eqb (bit_and 128 192) (bit_and (128 + x) 192)) ≡ true
unfolding holds_below
second_byte_table = refl

second_byte : (x : ℕ) → x < 64 → eqb (bit_and 128 192) (bit_and (128 + x) 192) ≡ true
second_byte x h =
    holds_below_sound 64 x (λ x. eqb (bit_and 128 192) (bit_and (128 + x) 192)) second_byte_table h

abbrev zeros : ℕ → Bytes
zeros zero = []
zeros (suc n) = 0 ∷ zeros n

masked_eq-zeros :
    (n : ℕ) (s : Bytes) → AreBytes s → length s ≡ n → masked_eq (zeros n) (zeros n) s ≡ true
unfolding masked_eq
masked_eq-zeros zero [] h l = refl
masked_eq-zeros zero (x ∷ s) h l = absurd (omega arith)
masked_eq-zeros (suc n) [] h l = absurd (omega arith)
masked_eq-zeros (suc n) (x ∷ s) (b, h) l = rw (free_byte x b) (masked_eq-zeros n s h (omega arith))

and_true : {b c : Bool} → b ≡ true → c ≡ true → (b && c) ≡ true
and_true p q = ground arith

or_left : {b : Bool} (c : Bool) → b ≡ true → (b || c) ≡ true
or_left c p = ground arith

or_right : (b c : Bool) → c ≡ true → (b || c) ≡ true
or_right b c p = ground arith

short_form-v6 : (x : ℕ) (rest : Bytes) → short_form (254 ∷ x ∷ rest) ≡ 254 ∷ x ∷ rest
unfolding short_form ◌==◌
short_form-v6 x rest = refl

link_local_blocked : {ip : Ip} → IsLinkLocal ip → any (λ n. net_contains n ip) blocked_nets ≡ true
unfolding net_contains blocked_nets ◌==◌
link_local_blocked (v4 c d hc hd) =
    or_left _ (and_true (free_byte c hc) (and_true (free_byte d hd) refl))
link_local_blocked (v6 x rest h bs l) =
    or_left _ (and_true (second_byte x h) (masked_eq-zeros 14 rest bs l))

-- An address is refused if it is link-local or one of the metadata addresses.
is_blocked_ip-IsLinkLocal : {ip : Ip} → IsLinkLocal ip → is_blocked_ip ip ≡ true
unfolding is_blocked_ip
is_blocked_ip-IsLinkLocal h = or_right _ _ (link_local_blocked h)

module _ (u : Unicode) where
  -- A host that normalises to the text of a link-local address, v4 or v6, is refused as a metadata
  -- host, whatever its letter case, port, brackets and trailing dot were.
  validate_service_host-IsLinkLocal :
      (host : Bytes) (ip : Ip)
      → host ≢ []
      → parse_ip (normalize_host u host) ≡ some ip
      → IsLinkLocal ip
      → validate_service_host u host ≡ some (record { host = host; reason = metadata_host })
  unfolding validate_service_host is_cloud_metadata
  validate_service_host-IsLinkLocal [] ip ne p l = absurd (ne refl)
  validate_service_host-IsLinkLocal (c ∷ host) ip ne p l =
      ground (arith, is_blocked_ip-IsLinkLocal l)

  -- A host that passes the check with name resolution is not empty and has no metadata name; if
  -- it is an address, the address is not blocked, and if it is a name that resolves, none of the
  -- addresses that the resolver gave is blocked.
  pub validate_service_host_resolved_sound :
      (lookup_ip : Bytes → Option (List Ip)) (host : Bytes)
      → validate_service_host_resolved u lookup_ip host ≡ none
      → (host ≢ [])
        × (names_metadata (normalize_host u host) ≡ false)
        × ((ip : Ip) → parse_ip (normalize_host u host) ≡ some ip → is_blocked_ip ip ≡ false)
        × ((ips : List Ip)
            → parse_ip (normalize_host u host) ≡ none
            → lookup_ip (normalize_host u host) ≡ some ips
            → any is_blocked_ip ips ≡ false)
  unfolding validate_service_host_resolved validate_service_host is_cloud_metadata
  validate_service_host_resolved_sound lookup_ip [] h = cc
  validate_service_host_resolved_sound lookup_ip (c ∷ host) h =
      ((λ e. cc e), ground arith, λ ip p. ground arith, λ ips p q. ground arith)
