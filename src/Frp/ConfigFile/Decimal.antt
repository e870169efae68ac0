-- ===== src/Frp/ConfigFile/Decimal.antt =====
-- How text/template prints an int, and the reading of such a text.
use seawise_client.Prelude.{
  ℕ, zero, suc, ◌+◌, ◌-◌, ◌*◌, ◌≤◌, ◌<◌, ◌≡◌, refl, sym, ap, inl, inr, Bool, true, ◌&&◌, Option,
  none, some, [], ◌∷◌, ◌++◌, arith, ltb, leb, eqb, if◌then◌else◌, Bool-cases, all, ℤ, pos, negsuc,
  ◌∙◌, all-append, ◌/◌, ◌%◌,
}
use mathlib.Core.Option
use seawise_client.Prelude.Bytes.{Bytes}

-- On fuel; n is enough for n.
unfoldable pub digits : ℕ → ℕ → Bytes
digits zero n = (48 + n) ∷ []
digits (suc fuel) n =
    let before = digits fuel (n / 10) in
    if ltb n 10 then (48 + n) ∷ [] else before ++ (48 + n % 10) ∷ []

unfoldable pub decimal : ℕ → Bytes
unfolding digits
decimal n = digits n n

unfoldable pub int_text : ℤ → Bytes
unfolding decimal
int_text (pos n) = decimal n
int_text (negsuc n) = b'-' ∷ decimal (suc n)

abbrev pub is_digit : ℕ → Bool
is_digit c = leb 48 c && leb c 57

-- The number of a text of digits, after those that stand for `acc`.
unfoldable pub number_onto : ℕ → Bytes → Option ℕ
number_onto acc [] = some acc
number_onto acc (c ∷ cs) =
    let rest = number_onto (acc * 10 + (c - 48)) cs in if is_digit c then rest else none

unfoldable pub read_int : Bytes → Option ℤ
unfolding number_onto
read_int [] = none
read_int (c ∷ cs) =
    if eqb c b'-'
    then elim (number_onto 0 cs) [
      | none ↦ none
      | some zero ↦ some (pos 0)
      | some (suc n) ↦ some (negsuc n)
    ]
    else Option.map pos (number_onto 0 (c ∷ cs))

number_onto-append :
    (acc d : ℕ) (cs : Bytes) (n : ℕ)
    → number_onto acc cs ≡ some n
    → d < 10
    → number_onto acc (cs ++ (48 + d) ∷ []) ≡ some (n * 10 + d)
unfolding number_onto
number_onto-append acc d [] n h k = ground arith
number_onto-append acc d (c ∷ cs) n h k =
    ground (arith, number_onto-append (acc * 10 + (c - 48)) d cs n (ground arith) k)

number_onto-digits : (fuel n : ℕ) → n ≤ fuel → number_onto 0 (digits fuel n) ≡ some n
unfolding digits number_onto
number_onto-digits zero n h = ground arith
number_onto-digits (suc fuel) n h = elim (Bool-cases (ltb n 10)) [
  | inl small ↦ rw small (ground arith)
  | inr large ↦ rw large (
      number_onto-append 0 (n % 10) (digits fuel (n / 10)) (n / 10)
        (number_onto-digits fuel (n / 10) (ground arith)) (omega arith)
      ∙ ap some (omega arith))
]

read_digits :
    (c : ℕ) (cs : Bytes) (n : ℕ)
    → is_digit c ≡ true
    → number_onto 0 (c ∷ cs) ≡ some n
    → read_int (c ∷ cs) ≡ some (pos n)
unfolding read_int
read_digits c cs n h k = elim (Bool-cases (eqb c b'-')) [
  | inl e ↦ absurd (ground arith)
  | inr e ↦ rw e (ap (λ o. Option.map pos o) k)
]

pub first_digit :
    (fuel n : ℕ)
    → n ≤ fuel
    → (c : ℕ) × (cs : Bytes) × (digits fuel n ≡ c ∷ cs) × (is_digit c ≡ true)
unfolding digits
first_digit zero n h = (48 + n, [], refl, ground arith)
first_digit (suc fuel) n h = elim (Bool-cases (ltb n 10)) [
  | inl small ↦ (48 + n, [], rw small refl, ground arith)
  | inr large ↦
      let (c, cs, e, d) = first_digit fuel (n / 10) (omega arith) in
      (c, cs ++ (48 + n % 10) ∷ [], rw large (rw e refl), d)
]

pub read_int-int_text : (n : ℤ) → read_int (int_text n) ≡ some n
unfolding read_int int_text decimal
read_int-int_text (pos n) =
    let (c, cs, e, d) = first_digit n n (omega arith) in
    let read = number_onto-digits n n (omega arith) in
    rw e (read_digits c cs n d (ap (number_onto 0) (sym e) ∙ read))
read_int-int_text (negsuc n) = rw (number_onto-digits (suc n) (suc n) (omega arith)) refl

pub digits_plain : (fuel n : ℕ) → n ≤ fuel → all is_digit (digits fuel n) ≡ true
unfolding digits
digits_plain zero n h = ground arith
digits_plain (suc fuel) n h = ground (
  arith,
  digits_plain fuel (n / 10) (omega arith),
  all-append is_digit (digits fuel (n / 10)) ((48 + n % 10) ∷ []),
)
