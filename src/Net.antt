-- ===== src/Net.antt =====
-- What the program uses of Go's package `net`: addresses, host and port, and address blocks.
-- An address is its 16 bytes, as `net.ParseIP` returns it: a v4 address is mapped into ::ffff:0:0/96.
mod Ipv4
mod Ipv6
unfoldable pub use Ipv4.{parse_ipv4_fields}
unfoldable pub use Ipv6.{parse_ipv6}
use Prim.Native.Nat.{bit_and}
use mathlib.Core.Option
use seawise_client.Prelude.{
  ℕ, zero, suc, ◌+◌, ◌-◌, Bool, true, false, not, ◌&&◌, ◌||◌, Option, none, some, [], ◌∷◌, ◌++◌,
  map, eqb, if◌then◌else◌, take, drop,
}
use seawise_client.Prelude.Bytes.{Bytes, lit, ◌==◌, index_byte, last_index_byte}

-- The byte at a place that is inside the text.
unfoldable pub byte_at : ℕ → Bytes → Option ℕ
byte_at i [] = none
byte_at zero (x ∷ xs) = some x
byte_at (suc i) (x ∷ xs) = byte_at i xs

is_byte : ℕ → Option ℕ → Bool
is_byte c none = false
is_byte c (some x) = eqb x c

found : Option ℕ → Bool
found none = false
found (some i) = true

-- net.SplitHostPort; the program uses the host alone, and an error is `none`.
split_bracketed : Bytes → ℕ → Option Bytes
split_bracketed s i = elim (index_byte b']' s) [
  | none ↦ none
  | some end ↦
      if not (eqb (end + 1) i)
      then none
      else if found (index_byte b'[' (drop 1 s)) || found (index_byte b']' (drop (end + 1) s))
      then none
      else some (take (end - 1) (drop 1 s))
]

split_plain : Bytes → ℕ → Option Bytes
split_plain s i =
    if found (index_byte b':' (take i s)) || found (index_byte b'[' s) || found (index_byte b']' s)
    then none
    else some (take i s)

unfoldable pub split_host_port : Bytes → Option Bytes
unfolding split_bracketed split_plain is_byte found byte_at index_byte last_index_byte
split_host_port s = elim (last_index_byte b':' s) [
  | none ↦ none
  | some i ↦ if is_byte b'[' (byte_at 0 s) then split_bracketed s i else split_plain s i
]

abbrev pub Ip : Type 0
Ip = Bytes

abbrev v4_prefix : Bytes
v4_prefix = 0 ∷ 0 ∷ 0 ∷ 0 ∷ 0 ∷ 0 ∷ 0 ∷ 0 ∷ 0 ∷ 0 ∷ 255 ∷ 255 ∷ []

-- The first of the separators decides how the text is read; a zone is no part of an `net.IP`.
by_separator : Bytes → Bytes → Option Ip
by_separator s [] = none
by_separator s (c ∷ rest) =
    let later = by_separator s rest in
    if eqb c b'.'
    then Option.map (λ fields. v4_prefix ++ fields) (parse_ipv4_fields s)
    else if eqb c b':'
    then parse_ipv6 s
    else if eqb c b'%'
    then none
    else later

-- net.ParseIP
unfoldable pub parse_ip : Bytes → Option Ip
unfolding by_separator parse_ipv4_fields parse_ipv6
parse_ip s = by_separator s s

-- ip.To4
unfoldable pub to_4 : Ip → Option Bytes
unfolding ◌==◌
to_4 ip = if take 12 ip == v4_prefix then some (drop 12 ip) else none

-- A block of addresses: 4 or 16 bytes of number and mask.
pub record IpNet : Type 0 where
  pub number : Bytes
  pub mask : Bytes

unfoldable pub masked_eq : Bytes → Bytes → Bytes → Bool
masked_eq [] [] [] = true
masked_eq (n ∷ ns) (m ∷ ms) (a ∷ as') = eqb (bit_and n m) (bit_and a m) && masked_eq ns ms as'
masked_eq _ _ _ = false

unfoldable pub short_form : Ip → Bytes
unfolding to_4
short_form ip = elim (to_4 ip) [ none ↦ ip | some v4 ↦ v4 ]

-- n.Contains(ip); addresses of another length than the block's are outside.
unfoldable pub net_contains : IpNet → Ip → Bool
unfolding masked_eq short_form
net_contains n ip = masked_eq n.number n.mask (short_form ip)
