-- ===== src/Web/Tls.antt =====
-- The self-signed certificate of cmd/seawise/server/webui.go over several starts.
use seawise_client.Web.{
  TlsFiles, CertGeneration, generate_self_signed_cert, generated, no_key, no_certificate,
  cert_not_created, cert_not_written, key_not_marshalled, key_not_created, key_not_written,
  choose_tls,
}
use seawise_client.Prelude.Bytes.{◌==◌, lit}
use seawise_client.Prelude.{◌≡◌, Bool, true, false, ◌&&◌, arith}

-- The generation failed after the certificate file was created.
abbrev pub fails_late : CertGeneration → Bool
fails_late cert_not_written = true
fails_late key_not_marshalled = true
fails_late key_not_created = true
fails_late key_not_written = true
fails_late _ = false

-- If no certificate file is there and no complete key, and the generation fails after it created
-- the certificate file, the web UI falls back to HTTP in that start; in every later start it is
-- served with TLS only, on files of which one is not complete.
choose_tls_strands :
    (how later : CertGeneration) (f : TlsFiles)
    → f.cert_there ≡ false
    → f.key_complete ≡ false
    → fails_late how ≡ true
    → ((choose_tls (lit "auto") how f).0 ≡ false)
      × (choose_tls (lit "auto") later (choose_tls (lit "auto") how f).1
          ≡ (true, (choose_tls (lit "auto") how f).1))
      × (((choose_tls (lit "auto") how f).1.cert_complete
            && (choose_tls (lit "auto") how f).1.key_complete)
          ≡ false)
unfolding choose_tls generate_self_signed_cert lit ◌==◌
choose_tls_strands generated later f h k e = cc
choose_tls_strands no_key later f h k e = cc
choose_tls_strands no_certificate later f h k e = cc
choose_tls_strands cert_not_created later f h k e = cc
choose_tls_strands cert_not_written later f h k e = (ground arith, ground arith, ground arith)
choose_tls_strands key_not_marshalled later f h k e = (ground arith, ground arith, ground arith)
choose_tls_strands key_not_created later f h k e = (ground arith, ground arith, ground arith)
choose_tls_strands key_not_written later f h k e = (ground arith, ground arith, ground arith)
