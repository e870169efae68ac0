-- ===== src/Frp/ConfigFile/Lines.antt =====
-- Splitting the text of frpc.toml gives back its lines: no value puts a newline in.
use seawise_client.Frp.ConfigFile.Decimal.{is_digit}
use mathlib.Core.List.{append-nil, append_assoc}
use seawise_client.Prelude.Bytes.{split, split_from, Bytes}
use seawise_client.Frp.Toml.{escape_byte, toml_escape, toml_escape-cons}
use seawise_client.Frp.ConfigFile.{text_of_lines}
use seawise_client.Frp.ConfigFile.Text.{
  Utf8State, between, inside, encoded, next_state, low_state, is_inline, is_line, is_document,
  is_document_byte, encoded-append, encoded-weaken,
}
use seawise_client.Prelude.{
  ℕ, ◌≡◌, refl, sym, ap, inl, inr, Bool, true, not, ◌||◌, List, [], ◌∷◌, ◌++◌, arith, eqb,
  Bool-cases, Option-cases, some, All, all, ◌∙◌,
}

-- A byte that tomlEscape leaves as it is.
abbrev pub is_unescaped : ℕ → Bool
is_unescaped c = not (eqb c 92 || eqb c 34 || eqb c 10 || eqb c 13 || eqb c 9)

pub toml_escape-unescaped : (s : Bytes) → all is_unescaped s ≡ true → toml_escape s ≡ s
unfolding toml_escape
toml_escape-unescaped [] h = refl
toml_escape-unescaped (x ∷ s) h =
    toml_escape-cons x s ∙ ground (arith, toml_escape-unescaped s (ground arith))

pub toml_escape-append : (s t : Bytes) → toml_escape (s ++ t) ≡ toml_escape s ++ toml_escape t
unfolding toml_escape
toml_escape-append [] t = refl
toml_escape-append (x ∷ s) t =
    toml_escape-cons x (s ++ t)
    ∙ ap (λ r. escape_byte x ++ r) (toml_escape-append s t)
    ∙ sym (append_assoc (escape_byte x) (toml_escape s) (toml_escape t))
    ∙ ap (λ r. r ++ toml_escape t) (sym (toml_escape-cons x s))

abbrev is_unbroken : ℕ → Bool
is_unbroken c = not (eqb c 10)

unbroken_byte :
    (st st' : Utf8State) (x : ℕ) → next_state is_inline st x ≡ some st' → is_unbroken x ≡ true
unfolding next_state low_state
unbroken_byte between st' x e = ground arith
unbroken_byte (inside n lo hi) st' x e = ground arith

unbroken_line :
    (st : Utf8State) (l : Bytes) → encoded is_inline st l ≡ true → all is_unbroken l ≡ true
unfolding encoded next_state low_state
unbroken_line st [] h = refl
unbroken_line st (x ∷ l) h = elim (Option-cases (next_state is_inline st x)) [
  | inl e ↦ absurd (ground (arith, e))
  | inr (st', e) ↦ ground (arith, unbroken_byte st st' x e, unbroken_line st' l (ground (arith, e)))
]

split_from-line :
    (l cur rest : Bytes)
    → all is_unbroken l ≡ true
    → split_from b'\n' cur (l ++ (b'\n' ∷ rest)) ≡ (cur ++ l) ∷ split_from b'\n' [] rest
unfolding split_from
split_from-line [] cur rest h = ap (λ z. z ∷ split_from b'\n' [] rest) (sym (append-nil cur))
split_from-line (x ∷ l) cur rest h = elim (Bool-cases (eqb x b'\n')) [
  | inl e ↦ absurd (ground arith)
  | inr e ↦ rw e (
      split_from-line l (cur ++ x ∷ []) rest (ground arith)
      ∙ ap (λ z. z ∷ split_from b'\n' [] rest) (append_assoc cur (x ∷ []) l))
]

-- Lines of a TOML document.
abbrev pub AreLines : List Bytes → Type 0
AreLines ls = All (λ l. is_line l ≡ true) ls

pub split-text_of_lines :
    (ls : List Bytes) → AreLines ls → split b'\n' (text_of_lines ls) ≡ ls ++ [] ∷ []
unfolding text_of_lines split
split-text_of_lines [] h = refl
split-text_of_lines (l ∷ ls) (h, hs) =
    split_from-line l [] (text_of_lines ls) (unbroken_line between l h)
    ∙ ap (λ z. l ∷ z) (split-text_of_lines ls hs)

pub unescaped_of_digits : (s : Bytes) → all is_digit s ≡ true → all is_unescaped s ≡ true
unescaped_of_digits [] h = refl
unescaped_of_digits (c ∷ s) h = ground (arith, unescaped_of_digits s (ground arith))

pub line_of_digits : (s : Bytes) → all is_digit s ≡ true → is_line s ≡ true
unfolding encoded next_state low_state
line_of_digits [] h = refl
line_of_digits (c ∷ s) h = ground (arith, line_of_digits s (ground arith))

pub is_document-text_of_lines :
    (ls : List Bytes) → AreLines ls → is_document (text_of_lines ls) ≡ true
unfolding text_of_lines encoded next_state low_state
is_document-text_of_lines [] h = refl
is_document-text_of_lines (l ∷ ls) (h, hs) =
    encoded-append is_document_byte between l (10 ∷ text_of_lines ls)
      (encoded-weaken is_inline is_document_byte (λ x e. ground arith) between l h)
      (is_document-text_of_lines ls hs)
