-- ===== src/Frp/Toml.antt =====
-- tomlEscape of internal/frp/frp.go, and the reading of a TOML basic string.
use seawise_client.Prelude.{
  ℕ, ◌≡◌, refl, ap, inl, inr, ◌||◌, Option, none, some, [], ◌∷◌, ◌++◌, arith, eqb, if◌then◌else◌,
  Bool-cases, ◌∙◌, eqb→eq,
}
use mathlib.Core.List.{append_assoc}
use seawise_client.Prelude.Bytes.{Bytes}

-- strings.ReplaceAll with an old string of one byte.
unfoldable pub replace_byte : ℕ → Bytes → Bytes → Bytes
replace_byte b new [] = []
replace_byte b new (x ∷ xs) =
    let rest = replace_byte b new xs in if eqb x b then new ++ rest else x ∷ rest

-- The bytes: backslash 92, quote 34, newline 10 and n 110, carriage return 13 and r 114, tab 9
-- and t 116.
unfoldable pub toml_escape : Bytes → Bytes
unfolding replace_byte
toml_escape s = replace_byte 9 (92 ∷ 116 ∷ []) (
    replace_byte 13 (92 ∷ 114 ∷ []) (
      replace_byte 10 (92 ∷ 110 ∷ [])
        (replace_byte 34 (92 ∷ 34 ∷ []) (replace_byte 92 (92 ∷ 92 ∷ []) s))))

-- The escapes of TOML that are a backslash and one byte, among those the function writes.
unfoldable pub escaped_byte : ℕ → Option ℕ
escaped_byte x =
    if eqb x 92
    then some 92
    else if eqb x 34
    then some 34
    else if eqb x 110
    then some 10
    else if eqb x 114
    then some 13
    else if eqb x 116
    then some 9
    else none

prepend : Option ℕ → Option (Bytes × Bytes) → Option (Bytes × Bytes)
prepend none read = none
prepend (some x) none = none
prepend (some x) (some (s, rest)) = some (x ∷ s, rest)

-- Reading the inside of a basic string up to its closing quote: the bytes and what follows the
-- quote; `none` at a bare line break, a bad escape or the end of the text. Which
-- bytes a document may hold at all is tested by `is_document`.
unfoldable pub read_string : Bytes → Option (Bytes × Bytes)
unfolding escaped_byte prepend
read_string [] = none
read_string (x ∷ []) = if eqb x 34 then some ([], []) else none
read_string (x ∷ y ∷ rest) =
    let plain = read_string (y ∷ rest) in
    let after = read_string rest in
    if eqb x 34
    then some ([], y ∷ rest)
    else if eqb x 92
    then prepend (escaped_byte y) after
    else if eqb x 10 || eqb x 13
    then none
    else prepend (some x) plain

-- What the function writes for one byte.
abbrev pub escape_byte : ℕ → Bytes
escape_byte x =
    if eqb x 92
    then 92 ∷ 92 ∷ []
    else if eqb x 34
    then 92 ∷ 34 ∷ []
    else if eqb x 10
    then 92 ∷ 110 ∷ []
    else if eqb x 13
    then 92 ∷ 114 ∷ []
    else if eqb x 9
    then 92 ∷ 116 ∷ []
    else x ∷ []

pub toml_escape-cons : (x : ℕ) (s : Bytes) → toml_escape (x ∷ s) ≡ escape_byte x ++ toml_escape s
unfolding toml_escape replace_byte
toml_escape-cons x s = elim (Bool-cases (eqb x 92)) [
  | inl a ↦ ground arith
  | inr a ↦ elim (Bool-cases (eqb x 34)) [
    | inl b ↦ ground arith
    | inr b ↦ elim (Bool-cases (eqb x 10)) [
      | inl c ↦ ground arith
      | inr c ↦ elim (Bool-cases (eqb x 13)) [ inl d ↦ ground arith | inr d ↦ ground arith ]
    ]
  ]
]

read_escaped :
    (x y : ℕ) (s : Bytes)
    → read_string (escape_byte x ++ y ∷ s) ≡ prepend (some x) (read_string (y ∷ s))
unfolding read_string escaped_byte
read_escaped x y s = elim (Bool-cases (eqb x 92)) [
  | inl a ↦ ground (arith, eqb→eq x 92 a)
  | inr a ↦ elim (Bool-cases (eqb x 34)) [
    | inl b ↦ ground (arith, eqb→eq x 34 b)
    | inr b ↦ elim (Bool-cases (eqb x 10)) [
      | inl c ↦ ground (arith, eqb→eq x 10 c)
      | inr c ↦ elim (Bool-cases (eqb x 13)) [
        | inl d ↦ ground (arith, eqb→eq x 13 d)
        | inr d ↦ elim (Bool-cases (eqb x 9)) [
          | inl e ↦ ground (arith, eqb→eq x 9 e)
          | inr e ↦ ground arith
        ]
      ]
    ]
  ]
]

read_after :
    (x : ℕ) (s rest : Bytes)
    → read_string (escape_byte x ++ (s ++ 34 ∷ rest))
      ≡ prepend (some x) (read_string (s ++ 34 ∷ rest))
read_after x [] rest = read_escaped x 34 rest
read_after x (y ∷ s) rest = read_escaped x y (s ++ 34 ∷ rest)

-- An escaped value between quotes is read back as the value, and the reading stops at the quote
-- that closes it: no value ends its string early.
pub read_string-toml_escape :
    (s rest : Bytes) → read_string (toml_escape s ++ 34 ∷ rest) ≡ some (s, rest)
unfolding toml_escape replace_byte read_string prepend
read_string-toml_escape [] [] = refl
read_string-toml_escape [] (x ∷ rest) = refl
read_string-toml_escape (x ∷ s) rest =
    ap (λ t. read_string (t ++ 34 ∷ rest)) (toml_escape-cons x s)
    ∙ ap read_string (append_assoc (escape_byte x) (toml_escape s) (34 ∷ rest))
    ∙ read_after x (toml_escape s) rest
    ∙ ap (prepend (some x)) (read_string-toml_escape s rest)
