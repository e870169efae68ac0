-- ===== src/Certs/Store.antt =====
-- What the files of a domain are after the calls of internal/certs/certs.go.
use seawise_client.Certs.Places.{key_not_cert, cert_not_key, same_path-key, same_path-cert}
use seawise_client.Prelude.Bytes.{◌==◌, ==_refl, lit, Bytes}
use seawise_client.Certs.{
  info_of, load_cert, cert_exists, whole, CertError, cert_path_of, validate_domain, broken,
  key_path_of, CertManager, Files, Crypto, FileWrite, write_path, set_file, save_key, save_cert,
}
use seawise_client.Prelude.{
  ◌≡◌, refl, sym, ap, ◌⊎◌, inr, Bool, true, false, not, Option, none, some, arith, subst, ◌∙◌,
  case_if, case_none, case_some,
}
use seawise_client.Prelude.Paths.{same_path, FilePath}

pub set_file-at :
    (path p : FilePath) (content : Option Bytes) (fs : Files)
    → same_path path p ≡ true
    → set_file path content fs p ≡ content
unfolding set_file
set_file-at path p content fs h = rw h refl

pub set_file_off :
    (path p : FilePath) (content : Option Bytes) (fs : Files)
    → same_path path p ≡ false
    → set_file path content fs p ≡ fs p
unfolding set_file
set_file_off path p content fs h = rw h refl

abbrev pub WritesKey : Crypto → Bytes → CertManager → Bytes → Files → Files → Type 0
WritesKey c domain m key fs fs' =
    (der : Bytes) × (c.marshal_key key ≡ some der)
    × (fs' ≡ set_file (key_path_of m domain) (some (c.encode_pem (lit "EC PRIVATE KEY") der)) fs)

write_path_ok :
    (write : FileWrite) (path p : FilePath) (content : Bytes) (fs : Files)
    → (write_path write path content fs).0 ≡ inr p
    → (p ≡ path) × ((write_path write path content fs).1 ≡ set_file path (some content) fs)
unfolding write_path
write_path_ok whole path p content fs h = (ground arith, refl)
write_path_ok (broken left) path p content fs h = cc

module _ (c : Crypto) (made : Bool) (write : FileWrite) (key domain : Bytes) (m : CertManager)
    (fs : Files) (p : FilePath) where
  -- What a call that answers the path has done.
  abbrev SavesKey : (CertError ⊎ FilePath) × Files → Type 0
  SavesKey r =
      r.0 ≡ inr p
      → (validate_domain domain ≡ none)
        × (p ≡ key_path_of m domain)
        × WritesKey c domain m key fs r.1

  pub save_key-WritesKey : SavesKey (save_key c made write key domain m fs)
  unfolding save_key
  save_key-WritesKey =
      case_none SavesKey (validate_domain domain)
        (λ valid.
          case_if SavesKey (not made) (λ e h. cc)
            (λ e.
              case_some SavesKey (c.marshal_key key) (λ h. cc)
                (λ der marshalled h.
                  let (same, after) =
                    write_path_ok write (key_path_of m domain) p
                      (c.encode_pem (lit "EC PRIVATE KEY") der) fs h in
                  (valid, same, (der, marshalled, after)))))
        (λ e bad h. cc)

  abbrev SavesCert : (CertError ⊎ FilePath) × Files → Type 0
  SavesCert r =
      r.0 ≡ inr p
      → (validate_domain domain ≡ none)
        × (p ≡ cert_path_of m domain)
        × (r.1 ≡ set_file (cert_path_of m domain) (some key) fs)

  pub save_cert_writes : SavesCert (save_cert made write key domain m fs)
  unfolding save_cert
  save_cert_writes =
      case_none SavesCert (validate_domain domain)
        (λ valid.
          case_if SavesCert (not made) (λ e h. cc)
            (λ e h.
              let (same, after) = write_path_ok write (cert_path_of m domain) p key fs h in
              (valid, same, after)))
        (λ e bad h. cc)

pub same_path_self :
    (m : CertManager) (domain : Bytes)
    → validate_domain domain ≡ none
    → (same_path (cert_path_of m domain) (cert_path_of m domain) ≡ true)
      × (same_path (key_path_of m domain) (key_path_of m domain) ≡ true)
same_path_self m domain h = (
  same_path-cert m domain domain h h ∙ ==_refl domain,
  same_path-key m domain domain h h ∙ ==_refl domain,
)

-- The two files of a domain, after one of them is set.
module _ (m : CertManager) (a b : Bytes) (h : validate_domain a ≡ none)
    (k : validate_domain b ≡ none) (content : Option Bytes) (fs : Files) where
  pub set_cert :
      ((a == b) ≡ false
        → set_file (cert_path_of m a) content fs (cert_path_of m b) ≡ fs (cert_path_of m b))
      × (set_file (cert_path_of m a) content fs (key_path_of m b) ≡ fs (key_path_of m b))
  set_cert = (
    λ e.
        set_file_off (cert_path_of m a) (cert_path_of m b) content fs
          (same_path-cert m a b h k ∙ e),
    set_file_off (cert_path_of m a) (key_path_of m b) content fs (cert_not_key m a b h k),
  )

  pub set_key :
      ((a == b) ≡ false
        → set_file (key_path_of m a) content fs (key_path_of m b) ≡ fs (key_path_of m b))
      × (set_file (key_path_of m a) content fs (cert_path_of m b) ≡ fs (cert_path_of m b))
  set_key = (
    λ e. set_file_off (key_path_of m a) (key_path_of m b) content fs (same_path-key m a b h k ∙ e),
    set_file_off (key_path_of m a) (cert_path_of m b) content fs (key_not_cert m a b h k),
  )

-- The files of a domain as the manager finds them.
pub record Found (c : Crypto) (m : CertManager) (domain content : Bytes) (fs : Files) : Type 0 where
  pub exists : cert_exists domain m fs ≡ true
  pub loads : load_cert c true domain m fs ≡ info_of c domain m content

abbrev pub SameFiles : CertManager → Bytes → Files → Files → Type 0
SameFiles m domain fs fs' =
    (fs' (cert_path_of m domain) ≡ fs (cert_path_of m domain))
    × (fs' (key_path_of m domain) ≡ fs (key_path_of m domain))

store-Found :
    (c : Crypto) (m : CertManager) (domain content key : Bytes) (fs : Files)
    → validate_domain domain ≡ none
    → fs (cert_path_of m domain) ≡ some content
    → fs (key_path_of m domain) ≡ some key
    → Found c m domain content fs
unfolding cert_exists load_cert
store-Found c m domain content key fs h k l = record {
  exists = rw (h, cert_exists) (rw (k, l) refl);
  loads = rw (h, load_cert) (rw k refl);
}

module _ (c : Crypto) (made made' : Bool) (write write' : FileWrite) (key content domain : Bytes)
    (m : CertManager) (fs : Files) where
  -- The files after a SaveKey and then a SaveCert.
  abbrev pub files_after : Files
  files_after =
      (save_cert made' write' content domain m (save_key c made write key domain m fs).1).1

  abbrev set_both : Bytes → Files
  set_both pem =
      set_file (cert_path_of m domain) (some content)
        (set_file (key_path_of m domain) (some pem) fs)

module _ (c : Crypto) (made made' : Bool) (write write' : FileWrite) (key content domain : Bytes)
    (m : CertManager) (fs : Files) (p q : FilePath) where
  both_saved :
      (save_key c made write key domain m fs).0 ≡ inr p
      → (save_cert made' write' content domain m (save_key c made write key domain m fs).1).0
        ≡ inr q
      → (validate_domain domain ≡ none)
        × (p ≡ key_path_of m domain)
        × (q ≡ cert_path_of m domain)
        × ((pem : Bytes) × ((files_after c made made' write write' key content domain m fs)
              ≡ set_both c made made' write write' key content domain m fs pem))
  both_saved h k =
      let (good, pe, (der, marshalled, e1)) = save_key-WritesKey c made write key domain m fs p h in
      let (good', qe, e2) =
        save_cert_writes c made' write' content domain m (save_key c made write key domain m fs).1 q
          k in
      (
        good,
        pe,
        qe,
        (
          c.encode_pem (lit "EC PRIVATE KEY") der,
          e2 ∙ ap (set_file (cert_path_of m domain) (some content)) e1,
        ),
      )

  pub files_after-Found :
      (save_key c made write key domain m fs).0 ≡ inr p
      → (save_cert made' write' content domain m (save_key c made write key domain m fs).1).0
        ≡ inr q
      → (validate_domain domain ≡ none)
        × (p ≡ key_path_of m domain)
        × (q ≡ cert_path_of m domain)
        × Found c m domain content (files_after c made made' write write' key content domain m fs)
  files_after-Found h k =
      let (good, pe, qe, (pem, after)) = both_saved h k in
      let (cert_self, key_self) = same_path_self m domain good in
      let fs' : Files = set_file (key_path_of m domain) (some pem) fs in
      (
        good,
        pe,
        qe,
        subst (λ f. Found c m domain content f) (sym after)
            (store-Found c m domain content pem
              (set_both c made made' write write' key content domain m fs pem) good
              (set_file-at (cert_path_of m domain) (cert_path_of m domain) (some content) fs'
                cert_self)
              ((set_cert m domain domain good good (some content) fs').1
                ∙ set_file-at (key_path_of m domain) (key_path_of m domain) (some pem) fs
                    key_self)),
      )

  files_after-SameFiles :
      (other : Bytes)
      → (save_key c made write key domain m fs).0 ≡ inr p
      → (save_cert made' write' content domain m (save_key c made write key domain m fs).1).0
        ≡ inr q
      → validate_domain other ≡ none
      → (domain == other) ≡ false
      → SameFiles m other fs (files_after c made made' write write' key content domain m fs)
  files_after-SameFiles other h k valid differ =
      let (good, pe, qe, (pem, after)) = both_saved h k in
      let fs' : Files = set_file (key_path_of m domain) (some pem) fs in
      subst (λ f. SameFiles m other fs f) (sym after)
        (
          (set_cert m domain other good valid (some content) fs').0 differ
              ∙ (set_key m domain other good valid (some pem) fs).1,
          (set_cert m domain other good valid (some content) fs').1
              ∙ (set_key m domain other good valid (some pem) fs).0 differ,
        )

-- Once SaveKey and SaveCert have both succeeded for a domain, CertExists holds for it, LoadCert
-- answers what the saved certificate says, if the file can be read, and the files of any other
-- valid domain are as they were.
pub save_cert-save_key :
    (c : Crypto) (made made' : Bool) (write write' : FileWrite) (key content domain other : Bytes)
    (m : CertManager) (fs : Files) (p q : FilePath)
    → (save_key c made write key domain m fs).0 ≡ inr p
    → (save_cert made' write' content domain m (save_key c made write key domain m fs).1).0 ≡ inr q
    → validate_domain other ≡ none
    → (domain == other) ≡ false
    → Found c m domain content (files_after c made made' write write' key content domain m fs)
      × SameFiles m other fs (files_after c made made' write write' key content domain m fs)
save_cert-save_key c made made' write write' key content domain other m fs p q h k valid differ = (
  (files_after-Found c made made' write write' key content domain m fs p q h k).3,
  files_after-SameFiles c made made' write write' key content domain m fs p q other h k valid
      differ,
)
