-- ===== src/Prelude/Bytes.antt =====
-- Go strings as lists of bytes, with the functions of the package `strings` that the program calls.
-- A Unicode table decides what `ToLower`, `TrimSpace` and `EqualFold` do beyond ASCII; it is the
-- parameter `Unicode`. On ASCII input each function is written out, as the standard library does.
use Prim.Native.Nat.{ℕ, suc, ◌+◌, ◌-◌, ◌≤◌}
use Prim.Native.Char.{code}
use Prim.Native.String.{String}
use mathlib.Core.Path.{◌≡◌, refl, subst}
use mathlib.Core.Logic.{◌↔◌, inl, inr}
use mathlib.Core.Option
use mathlib.Core.Option.{Option, none, some}
use mathlib.Core.Bool.{Bool, true, false, ◌&&◌, ◌||◌}
use mathlib.Core.List.{List, [], ◌∷◌, ◌++◌, map, reverse}
use native.Mathlib.Omega.{arith}
use seawise_client.Prelude.Tests.{ltb, leb, eqb, Bool-cases, if◌then◌else◌}
use seawise_client.Prelude.Lists.{length, drop, take, all, length-reverse, all-reverse}

abbrev pub Bytes : Type 0
Bytes = List ℕ

-- A literal of the source; every literal of the program is ASCII.
unfoldable pub lit : String → Bytes
lit String.[] = []
lit (String.◌∷◌ c s) = code c ∷ lit s

infix 50 ◌==◌
unfoldable pub ◌==◌ : Bytes → Bytes → Bool
[] == [] = true
[] == (y ∷ ys) = false
(x ∷ xs) == [] = false
(x ∷ xs) == (y ∷ ys) = eqb x y && (xs == ys)

pub eq_of_== : (s t : Bytes) → (s == t) ≡ true → s ≡ t
unfolding ◌==◌
eq_of_== [] [] h = refl
eq_of_== [] (y ∷ ys) h = cc
eq_of_== (x ∷ xs) [] h = cc
eq_of_== (x ∷ xs) (y ∷ ys) h = ground (arith, eq_of_== xs ys)

pub ==_refl : (s : Bytes) → (s == s) ≡ true
unfolding ◌==◌
==_refl [] = refl
==_refl (x ∷ xs) = ground (arith, ==_refl xs)

pub ==_iff : (s t : Bytes) → ((s == t) ≡ true) ↔ (s ≡ t)
==_iff s t = (eq_of_== s t, λ e. subst (λ z. (s == z) ≡ true) e (==_refl s))

-- strings.HasPrefix(s, prefix)
unfoldable pub has_prefix : Bytes → Bytes → Bool
has_prefix s [] = true
has_prefix [] (y ∷ ys) = false
has_prefix (x ∷ xs) (y ∷ ys) = eqb x y && has_prefix xs ys

-- strings.HasSuffix(s, suffix)
unfoldable pub has_suffix : Bytes → Bytes → Bool
has_suffix s suffix =
    leb (length suffix) (length s) && (drop (length s - length suffix) s == suffix)

-- strings.Contains(s, sub)
unfoldable pub contains : Bytes → Bytes → Bool
unfolding has_prefix
contains [] sub = has_prefix [] sub
contains (x ∷ xs) sub = has_prefix (x ∷ xs) sub || contains xs sub

-- strings.TrimSuffix(s, suffix)
unfoldable pub trim_suffix : Bytes → Bytes → Bytes
unfolding has_suffix
trim_suffix s suffix = if has_suffix s suffix then take (length s - length suffix) s else s

-- IndexByteString
unfoldable pub index_byte : ℕ → Bytes → Option ℕ
index_byte c [] = none
index_byte c (x ∷ xs) =
    let later = Option.map suc (index_byte c xs) in if eqb x c then some 0 else later

-- LastIndexByteString
unfoldable pub last_index_byte : ℕ → Bytes → Option ℕ
last_index_byte c [] = none
last_index_byte c (x ∷ xs) = elim (last_index_byte c xs) [
  | some i ↦ some (suc i)
  | none ↦ if eqb x c then some 0 else none
]

-- strings.Split(s, sep) for a separator of one byte, with the part under way.
unfoldable pub split_from : ℕ → Bytes → Bytes → List Bytes
split_from sep cur [] = cur ∷ []
split_from sep cur (x ∷ xs) =
    let closed = cur ∷ split_from sep [] xs in
    let longer = split_from sep (cur ++ x ∷ []) xs in if eqb x sep then closed else longer

unfoldable pub split : ℕ → Bytes → List Bytes
unfolding split_from
split sep s = split_from sep [] s

-- What the Unicode tables of the standard library decide beyond ASCII.
pub record Unicode : Type 0 where
  pub lower : Bytes → Bytes
  pub trim : Bytes → Bytes
  pub fold : Bytes → Bytes → Bool

pub is_ascii : ℕ → Bool
is_ascii c = ltb c 128

unfoldable pub lower_byte : ℕ → ℕ
lower_byte c = if leb b'A' c && leb c b'Z' then c + 32 else c

-- strings.ToLower: the ASCII case of the library, and the tables for the rest.
unfoldable pub to_lower : Unicode → Bytes → Bytes
unfolding lower_byte is_ascii
to_lower u s = if all is_ascii s then map lower_byte s else u.lower s

-- The ASCII blanks: tab, newline, vertical tab, form feed, carriage return, space.
is_blank : ℕ → Bool
is_blank c = (leb 9 c && leb c 13) || eqb c 32

skip_blanks : Bytes → Bytes
skip_blanks [] = []
skip_blanks (x ∷ xs) = let rest = skip_blanks xs in if is_blank x then rest else x ∷ xs

-- strings.TrimSpace
unfoldable pub trim_space : Unicode → Bytes → Bytes
unfolding skip_blanks is_blank is_ascii
trim_space u s =
    if all is_ascii s then reverse (skip_blanks (reverse (skip_blanks s))) else u.trim s

-- The tables for TrimSpace only take characters away.
pub record TrimsOnly (u : Unicode) : Type 0 where
  pub shorter : (s : Bytes) → length (u.trim s) ≤ length s
  pub part : (p : ℕ → Bool) (s : Bytes) → all p s ≡ true → all p (u.trim s) ≡ true

length-skip_blanks : (s : Bytes) → length (skip_blanks s) ≤ length s
unfolding skip_blanks
length-skip_blanks [] = omega arith
length-skip_blanks (x ∷ xs) = ground (arith, length-skip_blanks xs)

all-skip_blanks : (p : ℕ → Bool) (s : Bytes) → all p s ≡ true → all p (skip_blanks s) ≡ true
unfolding skip_blanks
all-skip_blanks p [] h = refl
all-skip_blanks p (x ∷ xs) h = ground (arith, all-skip_blanks p xs)

pub length-trim_space :
    (u : Unicode) → TrimsOnly u → (s : Bytes) → length (trim_space u s) ≤ length s
unfolding trim_space
length-trim_space u law s = elim (Bool-cases (all is_ascii s)) [
  | inl e ↦ rw e (
      omega (
        arith,
        length-reverse (skip_blanks (reverse (skip_blanks s))),
        length-skip_blanks (reverse (skip_blanks s)),
        length-reverse (skip_blanks s),
        length-skip_blanks s,
      ))
  | inr e ↦ rw e (law.shorter s)
]

pub all-trim_space :
    (u : Unicode)
    → TrimsOnly u
    → (p : ℕ → Bool) (s : Bytes) → all p s ≡ true
    → all p (trim_space u s) ≡ true
unfolding trim_space
all-trim_space u law p s h = elim (Bool-cases (all is_ascii s)) [
  | inl e ↦
      rw (e, all-reverse)
        (all-skip_blanks p (reverse (skip_blanks s)) (rw all-reverse (all-skip_blanks p s h)))
  | inr e ↦ rw e (law.part p s h)
]

-- strings.EqualFold: on ASCII texts, equality of the lower-case forms.
unfoldable pub equal_fold : Unicode → Bytes → Bytes → Bool
unfolding lower_byte is_ascii
equal_fold u s t =
    if all is_ascii s && all is_ascii t then map lower_byte s == map lower_byte t else u.fold s t
