-- ===== src/Validation/Messages.antt =====
-- What a message looks like after the checks of validation.go and errors.go.
use seawise_client.Prelude.{
  ◌≤◌, ◌≡◌, refl, ◌⊎◌, inl, inr, Bool, true, false, not, ◌&&◌, ◌||◌, some, List, [], ◌∷◌, arith,
  ltb, if◌then◌else◌, Bool-cases, length, All, all, any, ltb→ge, length-append, length-keep,
  all-keep, length-take, take,
}
use seawise_client.Prelude.Bytes.{
  Bytes, lit, Unicode, to_lower, contains, has_prefix, TrimsOnly, all-trim_space, length-trim_space,
}
use seawise_client.Validation.{
  is_control, sanitize_log_value, shorten, sanitize_message, sensitive_patterns, shows_pattern,
  sanitize_error_for_ui,
}

length-dots : length (lit "...") ≡ 3
unfolding lit
length-dots = refl

length-shorten : (msg : Bytes) → length (shorten msg) ≤ 203
unfolding shorten
length-shorten msg = elim (Bool-cases (ltb 200 (length msg))) [
  | inl long ↦
      rw long
        (omega (arith, length-append (take 200 msg) (lit "..."), length-take 200 msg, length-dots))
  | inr short ↦ rw short (omega (arith, ltb→ge 200 (length msg) short))
]

module _ (u : Unicode) (law : TrimsOnly u) where
  -- If trimming only takes characters away, a sanitised message has at most 203 bytes, and no
  -- control character, whatever the message was.
  sanitize_message_safe :
      (msg : Bytes)
      → (length (sanitize_message u msg) ≤ 203)
        × (all (λ c. not (is_control c)) (sanitize_message u msg) ≡ true)
  unfolding sanitize_message sanitize_log_value
  sanitize_message_safe msg = (
    omega (
      arith,
      length-trim_space u law (sanitize_log_value (shorten msg)),
      length-keep (λ c. not (is_control c)) (shorten msg),
      length-shorten msg,
    ),
    all-trim_space u law (λ c. not (is_control c)) (sanitize_log_value (shorten msg))
        (all-keep (λ c. not (is_control c)) (shorten msg)),
  )

abbrev pub NoPattern : Unicode → Bytes → List Bytes → Type 0
NoPattern u msg patterns = All (λ p. contains (to_lower u msg) (to_lower u p) ≡ false) patterns

NoPattern-any :
    (u : Unicode) (msg : Bytes) (ps : List Bytes)
    → any (λ p. contains (to_lower u msg) (to_lower u p)) ps ≡ false
    → NoPattern u msg ps
NoPattern-any u msg [] h = tt
NoPattern-any u msg (p ∷ ps) h = (ground arith, NoPattern-any u msg ps (ground arith))

-- A text that passes three guards, or the fallback.
abbrev guarded : Bool → Bool → Bool → Bool → Bool → Bytes → Bytes → Bytes
guarded a b c d e msg fallback =
    if a
    then fallback
    else if b
    then fallback
    else if c
    then fallback
    else if d
    then msg
    else if e
    then msg
    else fallback

guarded_cases :
    (a b c d e : Bool) (msg fallback : Bytes)
    → (guarded a b c d e msg fallback ≡ fallback)
      ⊎ ((guarded a b c d e msg fallback ≡ msg) × (a ≡ false) × (b ≡ false) × (c ≡ false))
guarded_cases true b c d e msg fallback = inl refl
guarded_cases false true c d e msg fallback = inl refl
guarded_cases false false true d e msg fallback = inl refl
guarded_cases false false false true e msg fallback = inr (refl, refl, refl, refl)
guarded_cases false false false false true msg fallback = inr (refl, refl, refl, refl)
guarded_cases false false false false false msg fallback = inl refl

or_false : (a b : Bool) → (a || b) ≡ false → a ≡ false
or_false a b h = ground arith

module _ (u : Unicode) where
  -- An error text shown in place of the fallback is the error's own text, is at most 200 bytes
  -- long, opens no JSON object and, in lower case, holds none of the sensitive patterns.
  sanitize_error_for_ui_safe :
      (msg fallback : Bytes)
      → (sanitize_error_for_ui u (some msg) fallback ≡ fallback)
        ⊎ ((sanitize_error_for_ui u (some msg) fallback ≡ msg)
            × (length msg ≤ 200)
            × (contains msg (b'{' ∷ 34 ∷ []) ≡ false)
            × NoPattern u msg sensitive_patterns)
  unfolding sanitize_error_for_ui
  sanitize_error_for_ui_safe msg fallback =
      elim (guarded_cases (contains msg (b'{' ∷ 34 ∷ []) || contains msg (b'{' ∷ 92 ∷ 34 ∷ []))
        (shows_pattern u msg) (ltb 200 (length msg)) (has_prefix msg (lit "blocked:"))
        (not (contains msg (lit "(status")) && not (contains msg (lit "respBody"))) msg fallback) [
          | inl e ↦ inl e
          | inr (e, json, shown, long) ↦ inr (
            e,
            ltb→ge 200 (length msg) long,
            or_false _ _ json,
            NoPattern-any u msg sensitive_patterns shown,
          )
        ]
