-- ===== src/Server/Certificates.antt =====
-- ensureServiceCert of cmd/seawise/server/service_lifecycle.go over the certificate manager of
-- internal/certs/certs.go.
use seawise_client.Api.Certificates.{request_certificate, CertIssueResponse}
use seawise_client.Api.{ok}
use seawise_client.Prelude.{ℕ, ◌≡◌, ◌⊎◌, inl, inr, Bool, true, Option, none, some, ◌++◌}
use seawise_client.Server.{Server, World, Certs}
use seawise_client.Certs.Store.{files_after, Found}
use seawise_client.Prelude.Bytes.{lit, Bytes}
use seawise_client.Prelude.Paths.{child, text_of, FilePath}
use seawise_client.Certs.Lifetime.{IsCurrent}
use seawise_client.Certs.{
  validate_domain, create_csr, get_cert_paths, needs_renewal, save_cert, cert_exists, save_key,
  Files, FileWrite, CertManager, CertError, Crypto,
}

-- What the manager takes from outside during the call.
pub record Issuing : Type 0 where
  pub fresh_key : Option Bytes
  pub made_for_key : Bool
  pub made_for_cert : Bool
  pub key_write : FileWrite
  pub cert_write : FileWrite
  pub reads : Bool

both_texts : CertError ⊎ (FilePath × FilePath) → Option (Bytes × Bytes)
both_texts (inl e) = none
both_texts (inr (cert, key)) = some (text_of cert, text_of key)

module _ (c : Crypto) (io : Issuing) (m : CertManager) (now : ℕ) (fs : Files) where
  -- SaveKey and then SaveCert.
  unfoldable pub save_issued : Bytes → Bytes → Bytes → CertError ⊎ (FilePath × FilePath)
  unfolding save_key save_cert
  save_issued key domain content =
      let (key_saved, fs') = save_key c io.made_for_key io.key_write key domain m fs in
      elim key_saved [
        | inl e ↦ inl e
        | inr key_path ↦ elim (save_cert io.made_for_cert io.cert_write content domain m fs').0 [
          | inl e ↦ inl e
          | inr cert_path ↦ inr (cert_path, key_path)
        ]
      ]

  -- The certificate store that the server sees.
  unfoldable pub certs_of : Certs
  unfolding cert_exists needs_renewal get_cert_paths create_csr save_issued both_texts
  certs_of = record {
    cert_exists = λ domain. cert_exists domain m fs;
    needs_renewal = λ domain. needs_renewal c io.reads now domain m fs;
    cert_paths = λ domain. both_texts (get_cert_paths domain m);
    signing_request =
        λ domain. elim io.fresh_key [ none ↦ none | some key ↦ create_csr c key domain ];
    saved_paths = λ domain content. elim io.fresh_key [
      | none ↦ none
      | some key ↦ both_texts (save_issued key domain content)
    ];
  }

  -- The answer of the certificate authority for the request that the program makes for a fresh
  -- key, and the files after that key and that answer are saved.
  abbrev pub IsAnswered : World → Server → Bytes → Bytes → Type 0
  IsAnswered w s subdomain domain =
      (key : Bytes) × (csr : Bytes) × (issued : CertIssueResponse) × (io.fresh_key ≡ some key)
      × (create_csr c key domain ≡ some csr)
      × ((request_certificate w.http w.decoders.certs subdomain csr s.api).0 ≡ ok issued)
      × Found c m domain issued.certificate (
          files_after c io.made_for_key io.made_for_cert io.key_write io.cert_write key
            issued.certificate domain m fs)

  -- The certificate of a domain that is used as it is, or one that was just issued and saved.
  abbrev pub IsIssued : World → Server → Bytes → Bytes → Type 0
  IsIssued w s subdomain domain =
      ((cert_exists domain m fs ≡ true) × IsCurrent c now domain m fs)
      ⊎ IsAnswered w s subdomain domain

  -- The two texts are the paths of the files of a valid domain in the certificates' directory.
  abbrev pub IsStored : World → Server → Bytes → Bytes → Bytes × Bytes → Type 0
  IsStored w s subdomain domain (cert, key) =
      (validate_domain domain ≡ none)
      × (cert ≡ text_of (child m.certs_dir (domain ++ lit ".crt")))
      × (key ≡ text_of (child m.certs_dir (domain ++ lit ".key")))
      × IsIssued w s subdomain domain
