-- ===== src/Net/Ipv4.antt =====
-- Reading a dotted quad, as `net/netip` does.
use seawise_client.Prelude.{
  ℕ, ◌+◌, ◌-◌, ◌*◌, not, ◌&&◌, ◌||◌, Option, none, some, [], ◌∷◌, ◌++◌, ltb, leb, eqb,
  if◌then◌else◌, length,
}
use seawise_client.Prelude.Bytes.{Bytes}

-- The fields read so far, the value and the number of digits of the field under way.
-- A field has a digit, no leading zero and a value up to 255.
fields_from : Bytes → ℕ → ℕ → Bytes → Option Bytes
fields_from fields val digits [] =
    if eqb digits 0 || not (eqb (length fields) 3) then none else some (fields ++ val ∷ [])
fields_from fields val digits (c ∷ rest) =
    let next_val = val * 10 + (c - 48) in
    let digit = fields_from fields next_val (digits + 1) rest in
    let dot = fields_from (fields ++ val ∷ []) 0 0 rest in
    if leb 48 c && leb c 57
    then (if (eqb digits 1 && eqb val 0) || ltb 255 next_val then none else digit)
    else if eqb c b'.'
    then (if eqb digits 0 || eqb (length fields) 3 then none else dot)
    else none

unfoldable pub parse_ipv4_fields : Bytes → Option Bytes
unfolding fields_from
parse_ipv4_fields s = fields_from [] 0 0 s
