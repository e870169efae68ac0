-- ===== src/Api/Certificates.antt =====
-- GetCertStatus and RequestCertificate of internal/api/client.go.
use seawise_client.Prelude.{Bool, Option, none, some, ◌++◌}
use seawise_client.Prelude.Bytes.{Bytes, lit}
use seawise_client.Api.{
  Json, text, object, no_fields, field, Http, ApiClient, Exchange, and_then, is_ok, exchange_json,
  exchange_empty, decoded,
}

pub record CertStatusResponse : Type 0 where
  pub e2e_tls_enabled : Bool
  pub acme_directory : Bytes

pub record CertIssueResponse : Type 0 where
  pub certificate : Bytes
  pub domain : Bytes
  pub expires_at : Bytes

pub record CertDecoders : Type 0 where
  pub cert_status : Bytes → Option CertStatusResponse
  pub cert_issue : Bytes → Option CertIssueResponse

unfoldable pub cert_payload : Bytes → Bytes → Json
cert_payload subdomain csr =
    object (field (lit "subdomain") (text subdomain) (field (lit "csr") (text csr) no_fields))

module _ (h : Http) (d : CertDecoders) where
  unfoldable pub get_cert_status : ApiClient → Exchange CertStatusResponse
  unfolding exchange_empty decoded
  get_cert_status c =
      and_then (exchange_empty h (lit "GET") (c.base_url ++ lit "/api/certs/status") none)
        (decoded h is_ok d.cert_status)

  unfoldable pub request_certificate : Bytes → Bytes → ApiClient → Exchange CertIssueResponse
  unfolding exchange_json cert_payload decoded
  request_certificate subdomain csr c =
      and_then
        (exchange_json h (lit "POST") (c.base_url ++ lit "/api/certs/issue") (some c.frp_token)
          (cert_payload subdomain csr))
        (decoded h is_ok d.cert_issue)
