-- ===== src/Frp/ConfigFile.antt =====
-- The text of frpc.toml: frpcTemplate and writeConfigLocked of internal/frp/frp.go. The text is
-- given by its lines, each of which ends with a newline.
use seawise_client.Frp.{Config, FrpClient}
use seawise_client.Prelude.{
  ◌-◌, not, Option, none, some, List, [], ◌∷◌, ◌++◌, if◌then◌else◌, keep, ℤ, is_some,
}
use seawise_client.Prelude.Bytes.{lit, Bytes, Unicode}
use seawise_client.Services.Tunnels.{TunnelService}
use seawise_client.Validation.Host.{validate_service_host}
use seawise_client.Frp.ConfigFile.Decimal.{int_text}
use seawise_client.Frp.Toml.{toml_escape}
pub mod Decimal
pub mod Reader
pub mod Text
pub mod Lines
pub mod Settings
pub mod Proxies
pub mod ReadsBack
pub mod Written

-- key = "text"
unfoldable pub quoted : Bytes → Bytes → Bytes
quoted key text = key ++ (lit " = \"" ++ (text ++ lit "\""))

-- key = number
unfoldable pub numbered : Bytes → ℤ → Bytes
unfolding int_text
numbered key n = key ++ (lit " = " ++ int_text n)

unfoldable pub tls_lines : Config → List Bytes
unfolding quoted
tls_lines cfg =
    if cfg.use_tls
    then []
      ∷ lit "transport.tls.enable = true"
      ∷ quoted (lit "transport.tls.serverName") (toml_escape cfg.server_addr)
      ∷ quoted (lit "transport.tls.trustedCaFile") (lit "/etc/ssl/certs/ca-certificates.crt")
      ∷ []
    else []

unfoldable pub mode_lines : TunnelService → List Bytes
unfolding quoted numbered
mode_lines s =
    if s.use_e2e_tls
    then lit "# E2E TLS mode - TLS terminated locally, traffic encrypted end-to-end"
      ∷ quoted (lit "type") (lit "https")
      ∷ lit "[proxies.plugin]"
      ∷ quoted (lit "type") (lit "https2http")
      ∷ quoted (lit "localAddr") (toml_escape s.local_ip ++ (lit ":" ++ int_text s.local_port))
      ∷ quoted (lit "crtPath") (toml_escape s.cert_path)
      ∷ quoted (lit "keyPath") (toml_escape s.key_path)
      ∷ []
    else lit "# Standard HTTP mode - TLS terminated at gateway"
      ∷ quoted (lit "type") (lit "http")
      ∷ quoted (lit "localIP") (toml_escape s.local_ip)
      ∷ numbered (lit "localPort") s.local_port
      ∷ []

-- The body of the range over the services.
unfoldable pub proxy_lines : Config → TunnelService → List Bytes
unfolding mode_lines quoted
proxy_lines cfg s =
    []
    ∷ lit "[[proxies]]"
    ∷ quoted (lit "name") (toml_escape cfg.server_id ++ (lit "-" ++ toml_escape s.tunnel_name))
    ∷ []
    ∷ (mode_lines s ++ ([] ∷ quoted (lit "subdomain") (toml_escape s.tunnel_subdomain) ∷ []))

unfoldable pub all_proxy_lines : Config → List TunnelService → List Bytes
unfolding proxy_lines
all_proxy_lines cfg [] = [] ∷ []
all_proxy_lines cfg (s ∷ ss) = proxy_lines cfg s ++ all_proxy_lines cfg ss

-- What follows the lines for TLS.
unfoldable pub after_tls : Config → Bytes → List TunnelService → List Bytes
unfolding all_proxy_lines quoted
after_tls cfg connection_id ss =
    []
    ∷ lit "# Authentication - token and server ID sent via metadata for plugin validation"
    ∷ quoted (lit "metadatas.token") (toml_escape cfg.token)
    ∷ quoted (lit "metadatas.server_id") (toml_escape cfg.server_id)
    ∷ quoted (lit "metadatas.connection_id") (toml_escape connection_id)
    ∷ []
    ∷ quoted (lit "log.to") (lit "console")
    ∷ quoted (lit "log.level") (lit "warn")
    ∷ []
    ∷ all_proxy_lines cfg ss

unfoldable pub config_lines : Config → Bytes → List TunnelService → List Bytes
unfolding tls_lines after_tls quoted numbered
config_lines cfg connection_id ss =
    quoted (lit "serverAddr") (toml_escape cfg.server_addr)
    ∷ numbered (lit "serverPort") cfg.server_port
    ∷ (tls_lines cfg ++ after_tls cfg connection_id ss)

unfoldable pub text_of_lines : List Bytes → Bytes
text_of_lines [] = []
text_of_lines (l ∷ ls) = l ++ (b'\n' ∷ text_of_lines ls)

-- How the steps on the file end; a failure after the opening leaves what the step says.
pub data ConfigIo : Type 0 where
  no_dir not_opened all_written : ConfigIo
  not_executed not_flushed : Bytes → ConfigIo

pub data ConfigError : Type 0 where
  dir_failed open_failed execute_failed flush_failed : ConfigError

-- The services that are not left out.
unfoldable pub unblocked : Unicode → List TunnelService → List TunnelService
unfolding validate_service_host
unblocked u ss = keep (λ s. not (is_some (validate_service_host u s.local_ip))) ss

-- The error, if any, and the content of the file, if there is one.
unfoldable pub write_config :
    Unicode → ConfigIo → FrpClient → Option Bytes → Option ConfigError × Option Bytes
unfolding config_lines text_of_lines unblocked
write_config u no_dir c file = (some dir_failed, file)
write_config u not_opened c file = (some open_failed, file)
write_config u (not_executed left) c file = (some execute_failed, some left)
write_config u (not_flushed left) c file = (some flush_failed, some left)
write_config u all_written c file =
    (none, some (text_of_lines (config_lines c.config c.connection_id (unblocked u c.services))))
