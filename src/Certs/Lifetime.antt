-- ===== src/Certs/Lifetime.antt =====
-- When a certificate of internal/certs/certs.go is renewed, and what its removal leaves.
use seawise_client.Prelude.{
  ℕ, ◌+◌, ◌≤◌, ◌≡◌, refl, ap, inl, inr, Bool, true, false, Option, none, some, arith, Bool-cases,
  ◌∙◌, ◌↔◌, Option-cases, Sum-cases, case_if, case_some, case_none,
}
use seawise_client.Certs.Places.{cert_not_key, same_path-key, same_path-cert, key_not_cert}
use seawise_client.Certs.Store.{same_path_self, set_file_off, set_file-at, SameFiles}
use seawise_client.Certs.{
  CertError, cert_exists, first_error, remove_path, delete_cert, validate_domain, load_cert,
  needs_renewal, key_path_of, renewal_window, CertInfo, info_of, cert_path_of, Files, CertManager,
  Crypto,
}
use seawise_client.Prelude.Paths.{same_path, FilePath}
use seawise_client.Prelude.Bytes.{==_refl, eq_of_==, lit, Bytes, ◌==◌}

-- The certificate of a domain can be read, is a PEM block of the type CERTIFICATE that parses, and
-- stays valid for another 30 days.
abbrev pub IsCurrent : Crypto → ℕ → Bytes → CertManager → Files → Type 0
IsCurrent c now domain m fs =
    (content : Bytes) × (der : Bytes) × (not_before : ℕ) × (not_after : ℕ) × (fs
        (cert_path_of m domain)
      ≡ some content)
    × (c.decode_pem content ≡ some (lit "CERTIFICATE", der))
    × (c.parse_certificate der ≡ some (not_before, not_after))
    × (now + renewal_window ≤ not_after)

module _ (c : Crypto) (domain : Bytes) (m : CertManager) where
  info_sound :
      (content : Bytes) (info : CertInfo)
      → info_of c domain m content ≡ inr info
      → (der : Bytes) × (c.decode_pem content ≡ some (lit "CERTIFICATE", der))
        × (c.parse_certificate der ≡ some (info.issued_at, info.expires_at))
  unfolding info_of
  info_sound content info h = elim (Option-cases (c.decode_pem content)) [
    | inl e ↦ absurd (ground arith)
    | inr ((kind, der), e) ↦ elim (Bool-cases (kind == lit "CERTIFICATE")) [
      | inr f ↦ absurd (ground arith)
      | inl f ↦ elim (Option-cases (c.parse_certificate der)) [
        | inl g ↦ absurd (ground arith)
        | inr ((a, b), g) ↦
            (der, e ∙ ap (λ k. some (k, der)) (eq_of_== kind (lit "CERTIFICATE") f), ground arith)
      ]
    ]
  ]

  info_complete :
      (content der : Bytes) (a b : ℕ)
      → c.decode_pem content ≡ some (lit "CERTIFICATE", der)
      → c.parse_certificate der ≡ some (a, b)
      → (info : CertInfo) × (info_of c domain m content ≡ inr info) × (info.expires_at ≡ b)
  unfolding info_of
  info_complete content der a b e g = (
    record {
      cert_path = cert_path_of m domain;
      key_path = key_path_of m domain;
      domain = domain;
      expires_at = b;
      issued_at = a;
    },
    rw (e, info_of) (rw (==_refl (lit "CERTIFICATE")) (rw g refl)),
    refl,
  )

-- NeedsRenewal answers that no new certificate is needed exactly if the domain is valid, the
-- certificate can be read, is a PEM block of the type CERTIFICATE that parses, and stays valid for
-- another 30 days.
pub needs_renewal_iff :
    (c : Crypto) (reads : Bool) (now : ℕ) (domain : Bytes) (m : CertManager) (fs : Files)
    → (needs_renewal c reads now domain m fs ≡ false)
      ↔ ((validate_domain domain ≡ none) × (reads ≡ true) × IsCurrent c now domain m fs)
unfolding needs_renewal load_cert
needs_renewal_iff c reads now domain m fs = (
  λ h. elim (Option-cases (validate_domain domain)) [
    | inr (e, bad) ↦ absurd (ground arith)
    | inl good ↦ elim (Option-cases (fs (cert_path_of m domain))) [
      | inl gone ↦ absurd (ground arith)
      | inr (content, there) ↦ elim (Bool-cases reads) [
        | inr unread ↦ absurd (ground arith)
        | inl read ↦ elim (Sum-cases (info_of c domain m content)) [
          | inl (e, bad) ↦ absurd (ground arith)
          | inr (info, found) ↦
              let (der, d, q) = info_sound c domain m content info found in
              (
                good,
                read,
                (content, der, info.issued_at, info.expires_at, there, d, q, ground arith),
              )
        ]
      ]
    ]
  ],
  λ (good, read, (content, der, a, b, there, d, q, late)).
      let (info, found, ends) = info_complete c domain m content der a b d q in ground arith,
)

remove_path_off :
    (removes : Bool) (path p : FilePath) (fs : Files)
    → same_path path p ≡ false
    → (remove_path removes path fs).1 p ≡ fs p
unfolding remove_path
remove_path_off removes path p fs h =
    case_some {B = Bool × Files} (λ r. r.1 p ≡ fs p) (fs path) refl
      (λ content there.
        case_if {B = Bool × Files} (λ r. r.1 p ≡ fs p) removes (λ e. set_file_off path p none fs h)
          (λ e. refl))

remove_path-at :
    (removes : Bool) (path : FilePath) (fs : Files)
    → same_path path path ≡ true
    → (remove_path removes path fs).0 ≡ true
    → (remove_path removes path fs).1 path ≡ none
unfolding remove_path
remove_path-at removes path fs self =
    case_none {B = Bool × Files} (λ r. r.0 ≡ true → r.1 path ≡ none) (fs path) (λ gone h. gone)
      (λ content there.
        case_if {B = Bool × Files} (λ r. r.0 ≡ true → r.1 path ≡ none) removes
          (λ e h. set_file-at path path none fs self) (λ e h. cc))

-- The files after the two removals.
abbrev both_removed : Bool → Bool → Bytes → CertManager → Files → Files
both_removed removes_cert removes_key domain m fs =
    (remove_path removes_key (key_path_of m domain)
      (remove_path removes_cert (cert_path_of m domain) fs).1).1

both_gone : (a b : Bool) → first_error a b ≡ none → (a ≡ true) × (b ≡ true)
unfolding first_error
both_gone true true h = (refl, refl)
both_gone true false h = cc
both_gone false b h = cc

-- A valid domain, and two removals that succeeded.
abbrev Deletes : Bool → Bool → Bytes → CertManager → Files → Option CertError × Files → Type 0
Deletes rc rk domain m fs r =
    r.0 ≡ none
    → (validate_domain domain ≡ none)
      × (r.1 ≡ both_removed rc rk domain m fs)
      × ((remove_path rc (cert_path_of m domain) fs).0 ≡ true)
      × ((remove_path rk (key_path_of m domain) (remove_path rc (cert_path_of m domain) fs).1).0
          ≡ true)

delete_cert-Deletes :
    (rc rk : Bool) (domain : Bytes) (m : CertManager) (fs : Files)
    → Deletes rc rk domain m fs (delete_cert rc rk domain m fs)
unfolding delete_cert
delete_cert-Deletes rc rk domain m fs =
    let first = remove_path rc (cert_path_of m domain) fs in
    let second = remove_path rk (key_path_of m domain) first.1 in
    case_none (Deletes rc rk domain m fs) (validate_domain domain)
      (λ valid h. (let (a, b) = both_gone first.0 second.0 h in (valid, refl, a, b)))
      (λ e bad h. cc)

missing_cert :
    (c : Crypto) (reads : Bool) (now : ℕ) (domain : Bytes) (m : CertManager) (fs : Files)
    → fs (cert_path_of m domain) ≡ none
    → (cert_exists domain m fs ≡ false) × (needs_renewal c reads now domain m fs ≡ true)
unfolding cert_exists needs_renewal load_cert
missing_cert c reads now domain m fs h = elim (Option-cases (validate_domain domain)) [
  | inl good ↦ (ground arith, ground arith)
  | inr (e, bad) ↦ (ground arith, ground arith)
]

-- A removal of the certificate that reports no error leaves it missing, so that it needs to be
-- renewed, leaves no key file, and leaves the files of any other valid domain as they were.
cert_exists-delete_cert :
    (c : Crypto) (removes_cert removes_key reads : Bool) (now : ℕ) (domain other : Bytes)
    (m : CertManager) (fs : Files)
    → (delete_cert removes_cert removes_key domain m fs).0 ≡ none
    → validate_domain other ≡ none
    → (domain == other) ≡ false
    → (cert_exists domain m (delete_cert removes_cert removes_key domain m fs).1 ≡ false)
      × (needs_renewal c reads now domain m (delete_cert removes_cert removes_key domain m fs).1
          ≡ true)
      × ((delete_cert removes_cert removes_key domain m fs).1 (key_path_of m domain) ≡ none)
      × SameFiles m other fs (delete_cert removes_cert removes_key domain m fs).1
cert_exists-delete_cert c rc rk reads now domain other m fs h valid differ =
    let (good, after, cert_gone, key_gone) = delete_cert-Deletes rc rk domain m fs h in
    let cert = cert_path_of m domain in
    let key = key_path_of m domain in
    let fs1 : Files = (remove_path rc cert fs).1 in
    let (cert_self, key_self) = same_path_self m domain good in
    let no_cert =
      remove_path_off rk key cert fs1 (key_not_cert m domain domain good good)
      ∙ remove_path-at rc cert fs cert_self cert_gone in
    let (absent, renewed) =
      missing_cert c reads now domain m (both_removed rc rk domain m fs) no_cert in
    rw after (
      absent,
      renewed,
      remove_path-at rk key fs1 key_self key_gone,
      (
        remove_path_off rk key (cert_path_of m other) fs1 (key_not_cert m domain other good valid)
            ∙ remove_path_off rc cert (cert_path_of m other) fs
                (same_path-cert m domain other good valid ∙ differ),
        remove_path_off rk key (key_path_of m other) fs1
              (same_path-key m domain other good valid ∙ differ)
            ∙ remove_path_off rc cert (key_path_of m other) fs
                (cert_not_key m domain other good valid),
      ),
    )
