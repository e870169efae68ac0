-- ===== src/Certs/Places.antt =====
-- Where the files of a domain are: internal/certs/certs.go, validateDomain and the two paths.
use seawise_client.Certs.{
  CertError, key_path_of, get_cert_paths, cert_path_of, CertManager, valid_domain, ends_domain,
  validate_domain,
}
use seawise_client.Prelude.Paths.{same_path-child, same_path, join-child, child, is_plain}
use seawise_client.Prelude.Bytes.{==_iff, ==_refl, eq_of_==, ◌==◌, lit, Bytes}
use mathlib.Core.List.{append_cancel_right}
use seawise_client.Prelude.{
  ℕ, ◌≡◌, refl, sym, ap, ◌⊎◌, inl, inr, true, false, not, none, some, [], ◌∷◌, ◌++◌, arith, eqb,
  Bool-cases, all, ◌∙◌, Option-cases, all-append,
}

ends_domain-plain : (s : Bytes) → ends_domain s ≡ true → all (λ c. not (eqb c b'/')) s ≡ true
unfolding ends_domain
ends_domain-plain [] h = refl
ends_domain-plain (c ∷ []) h = ground arith
ends_domain-plain (c ∷ d ∷ s) h = ground (arith, ends_domain-plain (d ∷ s) (ground arith))

valid_domain-plain :
    (c : ℕ) (s ext : Bytes)
    → valid_domain (c ∷ s) ≡ true
    → all (λ x. not (eqb x b'/')) ext ≡ true
    → is_plain ((c ∷ s) ++ ext) ≡ true
unfolding valid_domain is_plain ◌==◌ lit
valid_domain-plain c [] ext h k = ground arith
valid_domain-plain c (d ∷ s) ext h k = ground (
  arith,
  ends_domain-plain (d ∷ s) (ground arith),
  all-append (λ x. not (eqb x b'/')) (c ∷ d ∷ s) ext,
)

last_byte : Bytes → ℕ → ℕ
last_byte [] c = c
last_byte (x ∷ xs) c = last_byte xs x

last_byte-append : (s : Bytes) (x c : ℕ) (t : Bytes) → last_byte (s ++ x ∷ t) c ≡ last_byte t x
unfolding last_byte
last_byte-append [] x c t = refl
last_byte-append (y ∷ s) x c t = last_byte-append s x y t

==_suffix : (a b s : Bytes) → (a ++ s == b ++ s) ≡ (a == b)
==_suffix a b s = elim (Bool-cases (a == b)) [
  | inl e ↦ rw (e, eq_of_== a b e) (==_refl (b ++ s))
  | inr e ↦ elim (Bool-cases (a ++ s == b ++ s)) [
    | inl f ↦
        let same = (==_iff a b).1 (append_cancel_right a b s (eq_of_== (a ++ s) (b ++ s) f)) in
        absurd (ground arith)
    | inr f ↦ f ∙ sym e
  ]
]

==_sym : (s t : Bytes) → (s == t) ≡ (t == s)
unfolding ◌==◌
==_sym [] [] = refl
==_sym [] (y ∷ ys) = refl
==_sym (x ∷ xs) [] = refl
==_sym (x ∷ xs) (y ∷ ys) = ground (arith, ==_sym xs ys)

crt_not_key : (a b : Bytes) → (a ++ lit ".crt" == b ++ lit ".key") ≡ false
unfolding lit last_byte
crt_not_key a b = elim (Bool-cases (a ++ lit ".crt" == b ++ lit ".key")) [
  | inl e ↦
      let same = ap (λ s. last_byte s 0) (eq_of_== (a ++ lit ".crt") (b ++ lit ".key") e) in
      absurd (
        omega
          (arith, same, last_byte-append a 46 0 (lit "crt"), last_byte-append b 46 0 (lit "key")))
  | inr e ↦ e
]

domain-is_plain :
    (s ext : Bytes)
    → validate_domain s ≡ none
    → all (λ x. not (eqb x b'/')) ext ≡ true
    → is_plain (s ++ ext) ≡ true
unfolding validate_domain
domain-is_plain [] ext h k = cc
domain-is_plain (c ∷ s) ext h k = valid_domain-plain c s ext (ground arith) k

module _ (m : CertManager) (domain : Bytes) (h : validate_domain domain ≡ none) where
  pub cert_path_of-child : cert_path_of m domain ≡ child m.certs_dir (domain ++ lit ".crt")
  unfolding cert_path_of lit
  cert_path_of-child =
      join-child m.certs_dir (domain ++ lit ".crt") (domain-is_plain domain (lit ".crt") h refl)

  pub key_path_of-child : key_path_of m domain ≡ child m.certs_dir (domain ++ lit ".key")
  unfolding key_path_of lit
  key_path_of-child =
      join-child m.certs_dir (domain ++ lit ".key") (domain-is_plain domain (lit ".key") h refl)

-- The domain of an answer is valid, and the two paths are entries of the directory of the
-- certificates itself, named after the domain; any other text is refused.
pub get_cert_paths-child :
    (m : CertManager) (domain : Bytes)
    → ((validate_domain domain ≡ none)
        × (get_cert_paths domain m
            ≡ inr (
              child m.certs_dir (domain ++ lit ".crt"),
              child m.certs_dir (domain ++ lit ".key"),
            )))
      ⊎ ((e : CertError) × (validate_domain domain ≡ some e) × (get_cert_paths domain m ≡ inl e))
unfolding get_cert_paths
get_cert_paths-child m domain = elim (Option-cases (validate_domain domain)) [
  | inl h ↦ inl (
    h,
    rw (h, get_cert_paths) (rw (cert_path_of-child m domain h, key_path_of-child m domain h) refl),
  )
  | inr (e, h) ↦ inr (e, h, rw (h, get_cert_paths) refl)
]

module _ (m : CertManager) (a b : Bytes) (h : validate_domain a ≡ none)
    (k : validate_domain b ≡ none) where
  pub same_path-cert : same_path (cert_path_of m a) (cert_path_of m b) ≡ (a == b)
  same_path-cert =
      rw (cert_path_of-child m a h, cert_path_of-child m b k)
        (same_path-child m.certs_dir (a ++ lit ".crt") (b ++ lit ".crt")
          ∙ ==_suffix a b (lit ".crt"))

  pub same_path-key : same_path (key_path_of m a) (key_path_of m b) ≡ (a == b)
  same_path-key =
      rw (key_path_of-child m a h, key_path_of-child m b k)
        (same_path-child m.certs_dir (a ++ lit ".key") (b ++ lit ".key")
          ∙ ==_suffix a b (lit ".key"))

  pub cert_not_key : same_path (cert_path_of m a) (key_path_of m b) ≡ false
  cert_not_key =
      rw (cert_path_of-child m a h, key_path_of-child m b k)
        (same_path-child m.certs_dir (a ++ lit ".crt") (b ++ lit ".key") ∙ crt_not_key a b)

  pub key_not_cert : same_path (key_path_of m a) (cert_path_of m b) ≡ false
  key_not_cert =
      rw (key_path_of-child m a h, cert_path_of-child m b k)
        (same_path-child m.certs_dir (a ++ lit ".key") (b ++ lit ".crt")
          ∙ ==_sym (a ++ lit ".key") (b ++ lit ".crt")
          ∙ crt_not_key b a)
