-- ===== src/Certs/Tests.antt =====
-- Tests of the certificate manager, and the theorems on it at concrete inputs.
use seawise_client.Prelude.Bytes.{split, ◌==◌, Bytes, lit}
use seawise_client.Certs.Places.{get_cert_paths-child}
use seawise_client.Certs.{
  CertError, invalid_characters, cert_path_of, key_path_of, valid_domain, write_path,
  get_cert_paths, save_key, save_cert, needs_renewal, CertManager, Files, new_cert_manager,
  validate_domain, Crypto, whole,
}
use seawise_client.Certs.Store.{save_cert-save_key, SameFiles, files_after, Found}
use seawise_client.Prelude.Paths.{join, child, clean}
use seawise_client.Certs.Lifetime.{needs_renewal_iff, IsCurrent}
use seawise_client.Prelude.{◌≡◌, refl, ◌⊎◌, inl, inr, true, false, none, some, [], ◌∷◌, ◌++◌, ◌↔◌}

abbrev pub manager : CertManager
manager = new_cert_manager (lit "/config/")

abbrev domain : Bytes
domain = lit "plex-a1.seawise.dev"

-- PEM is a prefix here, and a certificate is one byte, the instant it expires.
abbrev pub crypto : Crypto
crypto = record {
  create_request = λ key csr. some key;
  marshal_key = λ key. some key;
  encode_pem = λ kind der. der;
  decode_pem = λ content. some (lit "CERTIFICATE", content);
  parse_certificate = λ der. some (0, 3000000000000000);
}

no_files : Files
no_files path = none

certs_dir_below : manager.certs_dir.parts ≡ lit "certs" ∷ lit "config" ∷ []
unfolding new_cert_manager clean join lit ◌==◌ split
certs_dir_below = refl

traversal_refused :
    (validate_domain (lit "../x") ≡ some invalid_characters) × (validate_domain (lit "a..b") ≡ none)
unfolding validate_domain valid_domain lit
traversal_refused = (refl, refl)

valid : validate_domain domain ≡ none
unfolding validate_domain valid_domain lit
valid = refl

other_valid : validate_domain (lit "b.seawise.dev") ≡ none
unfolding validate_domain valid_domain lit
other_valid = refl

differ : (domain == lit "b.seawise.dev") ≡ false
unfolding lit ◌==◌
differ = refl

get_cert_paths-child_example :
    ((validate_domain domain ≡ none)
      × (get_cert_paths domain manager
          ≡ inr (
            child manager.certs_dir (domain ++ lit ".crt"),
            child manager.certs_dir (domain ++ lit ".key"),
          )))
    ⊎ ((e : CertError) × (validate_domain domain ≡ some e)
        × (get_cert_paths domain manager ≡ inl e))
get_cert_paths-child_example = get_cert_paths-child manager domain

after_key : Files
after_key = (save_key crypto true whole (lit "k") domain manager no_files).1

key_saved :
    (save_key crypto true whole (lit "k") domain manager no_files).0
    ≡ inr (key_path_of manager domain)
unfolding save_key write_path validate_domain valid_domain lit
key_saved = refl

cert_saved :
    (save_cert true whole
      (lit "c")
      domain
      manager
      (save_key crypto true whole (lit "k") domain manager no_files).1).0
    ≡ inr (cert_path_of manager domain)
unfolding save_cert write_path validate_domain valid_domain lit
cert_saved = refl

save_cert-save_key_example :
    Found crypto manager domain
      (lit "c")
      (files_after crypto true true whole whole (lit "k") (lit "c") domain manager no_files)
    × SameFiles manager
        (lit "b.seawise.dev")
        no_files
        (files_after crypto true true whole whole (lit "k") (lit "c") domain manager no_files)
save_cert-save_key_example =
    save_cert-save_key crypto true true whole whole (lit "k") (lit "c") domain (lit "b.seawise.dev")
      manager no_files (key_path_of manager domain) (cert_path_of manager domain) key_saved
      cert_saved other_valid differ

needs_renewal_iff_example :
    (needs_renewal crypto true 5 domain manager no_files ≡ false)
    ↔ ((validate_domain domain ≡ none) × (true ≡ true) × IsCurrent crypto 5 domain manager no_files)
needs_renewal_iff_example = needs_renewal_iff crypto true 5 domain manager no_files
