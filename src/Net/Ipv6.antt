-- ===== src/Net/Ipv6.antt =====
-- Reading a v6 address without a zone, as `net/netip` does.
use seawise_client.Prelude.{
  ℕ, zero, suc, ◌+◌, ◌-◌, ◌*◌, Bool, true, false, not, ◌&&◌, ◌||◌, Option, none, some, [], ◌∷◌,
  ◌++◌, ltb, leb, eqb, if◌then◌else◌, length, is_empty, ◌/◌, ◌%◌,
}
use seawise_client.Prelude.Bytes.{Bytes}
use seawise_client.Net.Ipv4.{parse_ipv4_fields}

hex_value : ℕ → Option ℕ
hex_value c =
    if leb b'0' c && leb c b'9'
    then some (c - 48)
    else if leb b'a' c && leb c b'f'
    then some (c - 87)
    else if leb b'A' c && leb c b'F'
    then some (c - 55)
    else none

-- One group: its value, its number of digits and the rest of the text.
hex_group : ℕ → ℕ → Bytes → ℕ × ℕ × Bytes
hex_group acc off [] = (acc, off, [])
hex_group acc off (c ∷ rest) = elim (hex_value c) [
  | none ↦ (acc, off, c ∷ rest)
  | some d ↦ hex_group (acc * 16 + d) (off + 1) rest
]

-- The groups before and behind the ellipsis; `open` says that the ellipsis was met.
pub record Groups : Type 0 where
  pub front : Bytes
  pub back : Bytes
  pub open_ : Bool

size : Groups → ℕ
size g = length g.front + length g.back

push : Bytes → Groups → Groups
push bs g = if g.open_ then record g { back = g.back ++ bs } else record g { front = g.front ++ bs }

zeros : ℕ → Bytes
zeros zero = []
zeros (suc n) = 0 ∷ zeros n

-- The end of the text: all 16 bytes are there, or the ellipsis stands for at least one group.
close : Groups → Option Bytes
close g =
    if g.open_
    then (if ltb (size g) 16 then some (g.front ++ (zeros (16 - size g) ++ g.back)) else none)
    else if eqb (size g) 16
    then some g.front
    else none

starts_with : ℕ → Bytes → Bool
starts_with c [] = false
starts_with c (x ∷ xs) = eqb x c

-- Behind a group: the end, or a colon with more, which may be the ellipsis.
after : (Groups → Bytes → Option Bytes) → Groups → Bytes → Option Bytes
after continue_ g [] = close g
after continue_ g (c ∷ []) = none
after continue_ g (c ∷ d ∷ rest) =
    if not (eqb c b':')
    then none
    else if not (eqb d b':')
    then continue_ g (d ∷ rest)
    else if g.open_
    then none
    else if is_empty rest
    then close (record g { open_ = true })
    else continue_ (record g { open_ = true }) rest

-- The loop runs while fewer than 16 bytes are read, and a round adds at least two: 8 rounds.
groups_from : ℕ → Groups → Bytes → Option Bytes
groups_from zero g s = if is_empty s then close g else none
groups_from (suc rounds) g s =
    let (acc, off, rest) = hex_group 0 0 s in
    if eqb off 0 || ltb 4 off
    then none
    else if starts_with b'.' rest
    then (if (not g.open_ && not (eqb (size g) 12)) || ltb 12 (size g)
        then none
        else elim (parse_ipv4_fields s) [ none ↦ none | some fields ↦ close (push fields g) ])
    else after (groups_from rounds) (push (acc / 256 ∷ acc % 256 ∷ []) g) rest

leading : Bytes → Option Bytes
leading (c ∷ d ∷ rest) =
    let opened : Groups = record { front = []; back = []; open_ = true } in
    let plain : Groups = record { front = []; back = []; open_ = false } in
    if eqb c b':' && eqb d b':'
    then (if is_empty rest then close opened else groups_from 8 opened rest)
    else groups_from 8 plain (c ∷ d ∷ rest)
leading s = groups_from 8 (record { front = []; back = []; open_ = false }) s

unfoldable pub parse_ipv6 : Bytes → Option Bytes
unfolding leading groups_from after close zeros push size hex_group hex_value starts_with
    parse_ipv4_fields
parse_ipv6 s = leading s
