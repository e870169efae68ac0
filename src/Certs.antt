-- ===== src/Certs.antt =====
-- internal/certs/certs.go: the certificate manager. The files are a function on cleaned paths; the
-- cryptography and PEM are the parameter `Crypto`, and a key is the bytes that stand for it.
use seawise_client.Prelude.{
  ℕ, ◌+◌, ◌⊎◌, inl, inr, Bool, true, false, not, ◌&&◌, ◌||◌, Option, none, some, List, [], ◌∷◌,
  ◌++◌, ltb, leb, eqb, if◌then◌else◌, length, is_empty, is_some,
}
use seawise_client.Prelude.Paths.{FilePath, clean, same_path, join}
use seawise_client.Prelude.Bytes.{◌==◌, Bytes, lit}
pub mod Places
pub mod Store
pub mod Lifetime
pub mod Tests

pub record CertManager : Type 0 where
  pub certs_dir : FilePath

pub record CertInfo : Type 0 where
  pub cert_path : FilePath
  pub key_path : FilePath
  pub domain : Bytes
  pub expires_at : ℕ
  pub issued_at : ℕ

abbrev pub Files : Type 0
Files = FilePath → Option Bytes

-- `dir` is the data directory.
unfoldable pub new_cert_manager : Bytes → CertManager
unfolding clean join
new_cert_manager dir = record { certs_dir = join (clean dir) (lit "certs") }

abbrev pub is_alphanumeric : ℕ → Bool
is_alphanumeric c =
    (leb b'a' c && leb c b'z') || (leb b'A' c && leb c b'Z') || (leb b'0' c && leb c b'9')

abbrev pub is_domain_byte : ℕ → Bool
is_domain_byte c = is_alphanumeric c || eqb c b'.' || eqb c b'-'

-- `[a-zA-Z0-9.-]*[a-zA-Z0-9]`
unfoldable pub ends_domain : Bytes → Bool
ends_domain [] = false
ends_domain (c ∷ []) = is_alphanumeric c
ends_domain (c ∷ d ∷ rest) = is_domain_byte c && ends_domain (d ∷ rest)

unfoldable pub valid_domain : Bytes → Bool
unfolding ends_domain
valid_domain [] = false
valid_domain (c ∷ rest) = is_alphanumeric c && (is_empty rest || ends_domain rest)

pub data CertError : Type 0 where
  empty_domain domain_too_long invalid_characters : CertError
  mkdir_failed marshal_failed write_failed read_failed invalid_pem parse_failed : CertError
  remove_cert_failed remove_key_failed : CertError

unfoldable pub validate_domain : Bytes → Option CertError
unfolding valid_domain
validate_domain domain =
    if is_empty domain
    then some empty_domain
    else if ltb 253 (length domain)
    then some domain_too_long
    else if not (valid_domain domain)
    then some invalid_characters
    else none

-- x509.CertificateRequest, the fields that are set.
pub record CsrTemplate : Type 0 where
  pub common_name : Bytes
  pub organization : List Bytes
  pub dns_names : List Bytes

-- crypto/x509 and encoding/pem: `decode_pem` gives the type and the bytes of the first block, and
-- `parse_certificate` the instants NotBefore and NotAfter.
pub record Crypto : Type 0 where
  pub create_request : Bytes → CsrTemplate → Option Bytes
  pub marshal_key : Bytes → Option Bytes
  pub encode_pem : Bytes → Bytes → Bytes
  pub decode_pem : Bytes → Option (Bytes × Bytes)
  pub parse_certificate : Bytes → Option (ℕ × ℕ)

-- How os.WriteFile ends; after a failure anything may be at the path.
pub data FileWrite : Type 0 where
  whole : FileWrite
  broken : Option Bytes → FileWrite

unfoldable pub set_file : FilePath → Option Bytes → Files → Files
unfolding same_path
set_file path content fs p = if same_path path p then content else fs p

-- os.WriteFile, with the path as the answer of the two functions that end in it.
unfoldable pub write_path : FileWrite → FilePath → Bytes → Files → (CertError ⊎ FilePath) × Files
unfolding set_file
write_path whole path content fs = (inr path, set_file path (some content) fs)
write_path (broken left) path content fs = (inl write_failed, set_file path left fs)

-- os.Remove, with a missing file as a success.
unfoldable pub remove_path : Bool → FilePath → Files → Bool × Files
unfolding set_file
remove_path removes path fs = elim (fs path) [
  | none ↦ (true, fs)
  | some content ↦ if removes then (true, set_file path none fs) else (false, fs)
]

unfoldable pub cert_path_of : CertManager → Bytes → FilePath
unfolding join
cert_path_of m domain = join m.certs_dir (domain ++ lit ".crt")

unfoldable pub key_path_of : CertManager → Bytes → FilePath
unfolding join
key_path_of m domain = join m.certs_dir (domain ++ lit ".key")

abbrev pub renewal_window : ℕ
renewal_window = 2592000000000000

module _ (c : Crypto) where
  unfoldable pub create_csr : Bytes → Bytes → Option Bytes
  create_csr key domain =
      elim (c.create_request key (record {
        common_name = domain;
        organization = lit "Seawise.io" ∷ [];
        dns_names = domain ∷ [];
      })) [ none ↦ none | some der ↦ some (c.encode_pem (lit "CERTIFICATE REQUEST") der) ]

  -- `made` is whether the directory can be made.
  unfoldable pub save_key :
      Bool → FileWrite → Bytes → Bytes → CertManager → Files → (CertError ⊎ FilePath) × Files
  unfolding validate_domain key_path_of write_path
  save_key made write key domain m fs = elim (validate_domain domain) [
    | some e ↦ (inl e, fs)
    | none ↦ if not made then (inl mkdir_failed, fs) else elim (c.marshal_key key) [
      | none ↦ (inl marshal_failed, fs)
      | some der ↦
          write_path write (key_path_of m domain) (c.encode_pem (lit "EC PRIVATE KEY") der) fs
    ]
  ]

  -- What the content of a certificate file says.
  unfoldable pub info_of : Bytes → CertManager → Bytes → CertError ⊎ CertInfo
  unfolding cert_path_of key_path_of
  info_of domain m content = elim (c.decode_pem content) [
    | none ↦ inl invalid_pem
    | some (kind, der) ↦
        if not (kind == lit "CERTIFICATE")
        then inl invalid_pem
        else elim (c.parse_certificate der) [
          | none ↦ inl parse_failed
          | some (not_before, not_after) ↦ inr (record {
            cert_path = cert_path_of m domain;
            key_path = key_path_of m domain;
            domain = domain;
            expires_at = not_after;
            issued_at = not_before;
          })
        ]
  ]

  -- `reads` is whether a file that is there can be read.
  unfoldable pub load_cert : Bool → Bytes → CertManager → Files → CertError ⊎ CertInfo
  unfolding validate_domain cert_path_of info_of
  load_cert reads domain m fs = elim (validate_domain domain) [
    | some e ↦ inl e
    | none ↦ elim (fs (cert_path_of m domain)) [
      | none ↦ inl read_failed
      | some content ↦ if reads then info_of domain m content else inl read_failed
    ]
  ]

  unfoldable pub needs_renewal : Bool → ℕ → Bytes → CertManager → Files → Bool
  unfolding load_cert
  needs_renewal reads now domain m fs = elim (load_cert reads domain m fs) [
    | inl e ↦ true
    | inr info ↦ ltb info.expires_at (now + renewal_window)
  ]

unfoldable pub save_cert :
    Bool → FileWrite → Bytes → Bytes → CertManager → Files → (CertError ⊎ FilePath) × Files
unfolding validate_domain cert_path_of write_path
save_cert made write content domain m fs = elim (validate_domain domain) [
  | some e ↦ (inl e, fs)
  | none ↦
      if not made
      then (inl mkdir_failed, fs)
      else write_path write (cert_path_of m domain) content fs
]

-- os.Stat succeeds on a file that is there.
unfoldable pub cert_exists : Bytes → CertManager → Files → Bool
unfolding validate_domain cert_path_of key_path_of
cert_exists domain m fs = elim (validate_domain domain) [
  | some e ↦ false
  | none ↦ is_some (fs (cert_path_of m domain)) && is_some (fs (key_path_of m domain))
]

unfoldable pub get_cert_paths : Bytes → CertManager → CertError ⊎ (FilePath × FilePath)
unfolding validate_domain cert_path_of key_path_of
get_cert_paths domain m = elim (validate_domain domain) [
  | some e ↦ inl e
  | none ↦ inr (cert_path_of m domain, key_path_of m domain)
]

unfoldable pub first_error : Bool → Bool → Option CertError
first_error false key_gone = some remove_cert_failed
first_error true false = some remove_key_failed
first_error true true = none

unfoldable pub delete_cert : Bool → Bool → Bytes → CertManager → Files → Option CertError × Files
unfolding validate_domain cert_path_of key_path_of remove_path first_error
delete_cert removes_cert removes_key domain m fs = elim (validate_domain domain) [
  | some e ↦ (some e, fs)
  | none ↦
      let (cert_gone, fs') = remove_path removes_cert (cert_path_of m domain) fs in
      let (key_gone, fs'') = remove_path removes_key (key_path_of m domain) fs' in
      (first_error cert_gone key_gone, fs'')
]
