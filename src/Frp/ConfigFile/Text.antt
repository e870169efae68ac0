-- ===== src/Frp/ConfigFile/Text.antt =====
-- The bytes that a TOML document may hold: UTF-8 without the control characters, but for the tab
-- and the newline. Carriage returns are left out, since the template writes none.
use seawise_client.Frp.Toml.{escape_byte, toml_escape, toml_escape-cons}
use seawise_client.Prelude.{
  ℕ, zero, suc, ◌≡◌, refl, sym, ap, inl, inr, Bool, true, false, not, ◌&&◌, ◌||◌, Option, none,
  some, [], ◌∷◌, ◌++◌, arith, eqb, if◌then◌else◌, Bool-cases, ◌∙◌, ltb, leb, Option-cases,
}
use seawise_client.Prelude.Bytes.{Bytes}

-- Between two characters, or inside one: how many bytes follow the next, and its least and
-- greatest value.
pub data Utf8State : Type 0 where
  between : Utf8State
  inside : ℕ → ℕ → ℕ → Utf8State

unfoldable pub after_byte : ℕ → Utf8State
after_byte zero = between
after_byte (suc n) = inside n 128 191

unfoldable pub lead : ℕ → Option Utf8State
lead x =
    if leb 194 x && leb x 223
    then some (inside 0 128 191)
    else if eqb x 224
    then some (inside 1 160 191)
    else if eqb x 237
    then some (inside 1 128 159)
    else if leb 225 x && leb x 239
    then some (inside 1 128 191)
    else if eqb x 240
    then some (inside 2 144 191)
    else if leb 241 x && leb x 243
    then some (inside 2 128 191)
    else if eqb x 244
    then some (inside 2 128 143)
    else none

-- `ok` is whether an ASCII byte is allowed; it stands between two characters.
unfoldable pub low_state : (ℕ → Bool) → Utf8State → ℕ → Option Utf8State
low_state ok between x = if ok x then some between else none
low_state ok (inside n lo hi) x = none

unfoldable pub high_state : Utf8State → ℕ → Option Utf8State
unfolding lead after_byte
high_state between x = lead x
high_state (inside n lo hi) x = if leb lo x && leb x hi then some (after_byte n) else none

unfoldable pub next_state : (ℕ → Bool) → Utf8State → ℕ → Option Utf8State
unfolding low_state high_state
next_state ok st x = if ltb x 128 then low_state ok st x else high_state st x

abbrev pub is_between : Utf8State → Bool
is_between between = true
is_between (inside n lo hi) = false

unfoldable pub encoded : (ℕ → Bool) → Utf8State → Bytes → Bool
unfolding next_state
encoded ok st [] = is_between st
encoded ok st (x ∷ xs) = elim (next_state ok st x) [ none ↦ false | some st' ↦ encoded ok st' xs ]

abbrev pub is_inline : ℕ → Bool
is_inline x = (leb 32 x && not (eqb x 127)) || eqb x 9

-- In a document the newline is allowed too, and in a text before its escaping both line breaks.
abbrev pub is_document_byte : ℕ → Bool
is_document_byte x = is_inline x || eqb x 10

abbrev pub is_text_byte : ℕ → Bool
is_text_byte x = is_inline x || eqb x 10 || eqb x 13

abbrev pub is_document : Bytes → Bool
is_document text = encoded is_document_byte between text

abbrev pub is_line : Bytes → Bool
is_line l = encoded is_inline between l

-- UTF-8 without a control character that tomlEscape leaves as it is.
abbrev pub is_text : Bytes → Bool
is_text s = encoded is_text_byte between s

pub encoded-append :
    (ok : ℕ → Bool) (st : Utf8State) (a b : Bytes)
    → encoded ok st a ≡ true
    → encoded ok between b ≡ true
    → encoded ok st (a ++ b) ≡ true
unfolding encoded
encoded-append ok between [] b h k = k
encoded-append ok (inside n lo hi) [] b h k = absurd (ground arith)
encoded-append ok st (x ∷ a) b h k = elim (Option-cases (next_state ok st x)) [
  | inl e ↦ absurd (ground (arith, e))
  | inr (st', e) ↦ ground (arith, e, encoded-append ok st' a b (ground (arith, e)) k)
]

weaker_state :
    (ok ok' : ℕ → Bool) (imp : (x : ℕ) → ok x ≡ true → ok' x ≡ true) (st st' : Utf8State) (x : ℕ)
    → next_state ok st x ≡ some st'
    → next_state ok' st x ≡ some st'
unfolding next_state low_state
weaker_state ok ok' imp between st' x e = elim (Bool-cases (ok x)) [
  | inl fine ↦ ground (arith, imp x fine)
  | inr bad ↦ ground arith
]
weaker_state ok ok' imp (inside n lo hi) st' x e = ground arith

pub encoded-weaken :
    (ok ok' : ℕ → Bool) (imp : (x : ℕ) → ok x ≡ true → ok' x ≡ true) (st : Utf8State) (s : Bytes)
    → encoded ok st s ≡ true
    → encoded ok' st s ≡ true
unfolding encoded
encoded-weaken ok ok' imp st [] h = h
encoded-weaken ok ok' imp st (x ∷ s) h = elim (Option-cases (next_state ok st x)) [
  | inl e ↦ absurd (ground (arith, e))
  | inr (st', e) ↦ ground (
    arith,
    weaker_state ok ok' imp st st' x e,
    encoded-weaken ok ok' imp st' s (ground (arith, e)),
  )
]

next_inline : (x : ℕ) → ltb x 128 ≡ true → is_inline x ≡ true → is_line (x ∷ []) ≡ true
unfolding encoded next_state low_state
next_inline x h k = ground arith

low_escape : (x : ℕ) → is_text_byte x ≡ true → ltb x 128 ≡ true → is_line (escape_byte x) ≡ true
unfolding encoded next_state low_state
low_escape x h k = elim (Bool-cases (eqb x 92)) [
  | inl a ↦ rw a refl
  | inr a ↦ elim (Bool-cases (eqb x 34)) [
    | inl b ↦ rw (a, b) refl
    | inr b ↦ elim (Bool-cases (eqb x 10)) [
      | inl c ↦ rw (a, b, c) refl
      | inr c ↦ elim (Bool-cases (eqb x 13)) [
        | inl d ↦ rw (a, b, c, d) refl
        | inr d ↦ elim (Bool-cases (eqb x 9)) [
          | inl e ↦ rw (a, b, c, d, e) refl
          | inr e ↦ ground (arith, next_inline x (ground arith))
        ]
      ]
    ]
  ]
]

high_escape : (x : ℕ) → ltb x 128 ≡ false → escape_byte x ≡ x ∷ []
high_escape x h = ground arith

low_encoded :
    (st : Utf8State) (x : ℕ) (s : Bytes)
    → ltb x 128 ≡ true
    → encoded is_text_byte st (x ∷ s) ≡ true
    → (st ≡ between) × (is_text_byte x ≡ true) × (encoded is_text_byte between s ≡ true)
unfolding encoded next_state low_state
low_encoded between x s h k = elim (Bool-cases (is_text_byte x)) [
  | inl fine ↦ (refl, fine, ground arith)
  | inr bad ↦ absurd (ground arith)
]
low_encoded (inside n lo hi) x s h k = absurd (ground arith)

to_high :
    (ok : ℕ → Bool) (st : Utf8State) (x : ℕ)
    → ltb x 128 ≡ false
    → next_state ok st x ≡ high_state st x
unfolding next_state
to_high ok st x h = ground arith

high_encoded :
    (st st' : Utf8State) (x : ℕ) (s : Bytes)
    → ltb x 128 ≡ false
    → high_state st x ≡ some st'
    → (ok : ℕ → Bool) → encoded ok st (x ∷ s) ≡ encoded ok st' s
unfolding encoded next_state
high_encoded st st' x s h e ok =
    ap (λ o. elim o [ none ↦ false | some t ↦ encoded ok t s ]) (to_high ok st x h ∙ e)

high_refused :
    (st : Utf8State) (x : ℕ) (s : Bytes)
    → ltb x 128 ≡ false
    → high_state st x ≡ none
    → (ok : ℕ → Bool) → encoded ok st (x ∷ s) ≡ false
unfolding encoded next_state
high_refused st x s h e ok =
    ap (λ o. elim o [ none ↦ false | some t ↦ encoded ok t s ]) (to_high ok st x h ∙ e)

-- What tomlEscape makes of a text stands on one line.
pub toml_escape-encoded :
    (st : Utf8State) (s : Bytes)
    → encoded is_text_byte st s ≡ true
    → encoded is_inline st (toml_escape s) ≡ true
unfolding encoded toml_escape
toml_escape-encoded st [] h = h
toml_escape-encoded st (x ∷ s) h = elim (Bool-cases (ltb x 128)) [
  | inl low ↦
      let (here, fine, rest) = low_encoded st x s low h in
      rw (here, toml_escape-cons x s)
        (encoded-append is_inline between (escape_byte x) (toml_escape s) (low_escape x fine low)
          (toml_escape-encoded between s rest))
  | inr high ↦ elim (Option-cases (high_state st x)) [
    | inl e ↦ absurd (ground (arith, high_refused st x s high e is_text_byte))
    | inr (st', e) ↦
        rw (toml_escape-cons x s, high_escape x high)
          (high_encoded st st' x (toml_escape s) high e is_inline
            ∙ toml_escape-encoded st' s (sym (high_encoded st st' x s high e is_text_byte) ∙ h))
  ]
]
