-- ===== src/Api/SafeUrls.antt =====
-- The URLs below a base that ValidateBaseURL of internal/api/client.go accepts.
use seawise_client.Prelude.{
  ◌≡◌, refl, sym, ◌⊎◌, inl, inr, Bool, true, ◌||◌, none, List, [], ◌∷◌, ◌++◌, arith, Bool-cases,
  any, subst, eqb_refl,
}
use seawise_client.Prelude.Bytes.{Bytes, lit, ◌==◌, has_prefix, eq_of_==}
use seawise_client.Api.Url.{local_prefixes, validate_base_url}

-- A URL that starts with https:// or with one of the local addresses.
abbrev pub is_safe_url : Bytes → Bool
is_safe_url url = has_prefix url (lit "https://") || any (has_prefix url) local_prefixes

pub has_prefix-append : (s t p : Bytes) → has_prefix s p ≡ true → has_prefix (s ++ t) p ≡ true
unfolding has_prefix
has_prefix-append [] t [] h = refl
has_prefix-append (x ∷ s) t [] h = refl
has_prefix-append [] t (y ∷ p) h = cc
has_prefix-append (x ∷ s) t (y ∷ p) h = ground (arith, has_prefix-append s t p)

pub has_prefix_same : (s t p : Bytes) → has_prefix t p ≡ true → has_prefix (s ++ t) (s ++ p) ≡ true
unfolding has_prefix
has_prefix_same [] t p h = h
has_prefix_same (x ∷ s) t p h = ground (arith, has_prefix_same s t p h, eqb_refl x)

pub any_prefix-append :
    (s t : Bytes) (ps : List Bytes)
    → any (has_prefix s) ps ≡ true
    → any (has_prefix (s ++ t)) ps ≡ true
any_prefix-append s t [] h = h
any_prefix-append s t (p ∷ ps) h = ground (arith, has_prefix-append s t p, any_prefix-append s t ps)

-- The ways a base URL is accepted.
accepted_base :
    (base : Bytes)
    → validate_base_url base ≡ none
    → (any (has_prefix base) local_prefixes ≡ true)
      ⊎ (base ≡ lit "http://localhost")
      ⊎ (base ≡ lit "http://127.0.0.1")
      ⊎ (base ≡ lit "http://[::1]")
      ⊎ (has_prefix base (lit "https://") ≡ true)
unfolding validate_base_url
accepted_base base h = elim (Bool-cases (any (has_prefix base) local_prefixes)) [
  | inl near ↦ inl near
  | inr far ↦ elim (Bool-cases (base == lit "http://localhost")) [
    | inl a ↦ inr (inl (eq_of_== base (lit "http://localhost") a))
    | inr a ↦ elim (Bool-cases (base == lit "http://127.0.0.1")) [
      | inl b ↦ inr (inr (inl (eq_of_== base (lit "http://127.0.0.1") b)))
      | inr b ↦ elim (Bool-cases (base == lit "http://[::1]")) [
        | inl c ↦ inr (inr (inr (inl (eq_of_== base (lit "http://[::1]") c))))
        | inr c ↦ inr (inr (inr (inr (ground arith))))
      ]
    ]
  ]
]

bare_local :
    (t : Bytes)
    → (is_safe_url (lit "http://localhost" ++ b'/' ∷ t) ≡ true)
      × (is_safe_url (lit "http://127.0.0.1" ++ b'/' ∷ t) ≡ true)
      × (is_safe_url (lit "http://[::1]" ++ b'/' ∷ t) ≡ true)
unfolding local_prefixes has_prefix lit
bare_local t = (refl, refl, refl)

-- A path after an accepted base is safe.
pub safe_path :
    (base t : Bytes) → validate_base_url base ≡ none → is_safe_url (base ++ b'/' ∷ t) ≡ true
safe_path base t h =
    let (a, b, c) = bare_local t in
    elim (accepted_base base h) [
      | inl near ↦ ground (arith, any_prefix-append base (b'/' ∷ t) local_prefixes near)
      | inr (inl e) ↦ subst (λ s. is_safe_url (s ++ b'/' ∷ t) ≡ true) (sym e) a
      | inr (inr (inl e)) ↦ subst (λ s. is_safe_url (s ++ b'/' ∷ t) ≡ true) (sym e) b
      | inr (inr (inr (inl e))) ↦ subst (λ s. is_safe_url (s ++ b'/' ∷ t) ≡ true) (sym e) c
      | inr (inr (inr (inr web))) ↦
          ground (arith, has_prefix-append base (b'/' ∷ t) (lit "https://") web)
    ]
