-- ===== src/Frp/ConfigFile/Settings.antt =====
-- The settings that frpc.toml of internal/frp/frp.go is to hold, table by table.
use seawise_client.Frp.ConfigFile.{Config}
use seawise_client.Frp.ConfigFile.Reader.{
  plugin, string, integer, yes_value, root, proxy, set, Entry,
}
use seawise_client.Prelude.{ℕ, suc, List, [], ◌∷◌, ◌++◌, if◌then◌else◌}
use seawise_client.Prelude.Bytes.{Bytes, lit}
use seawise_client.Frp.ConfigFile.Decimal.{int_text}
use seawise_client.Services.Tunnels.{TunnelService}

-- The settings of a proxy after its name. What follows the header of the plugin belongs to it.
abbrev pub mode_settings : ℕ → TunnelService → List Entry
mode_settings i s =
    if s.use_e2e_tls
    then set (proxy i) (lit "type") (string (lit "https"))
      ∷ set (plugin i) (lit "type") (string (lit "https2http"))
      ∷ set (plugin i) (lit "localAddr") (string (s.local_ip ++ (lit ":" ++ int_text s.local_port)))
      ∷ set (plugin i) (lit "crtPath") (string s.cert_path)
      ∷ set (plugin i) (lit "keyPath") (string s.key_path)
      ∷ set (plugin i) (lit "subdomain") (string s.tunnel_subdomain)
      ∷ []
    else set (proxy i) (lit "type") (string (lit "http"))
      ∷ set (proxy i) (lit "localIP") (string s.local_ip)
      ∷ set (proxy i) (lit "localPort") (integer s.local_port)
      ∷ set (proxy i) (lit "subdomain") (string s.tunnel_subdomain)
      ∷ []

abbrev pub proxy_settings : ℕ → Config → TunnelService → List Entry
proxy_settings i cfg s =
    set (proxy i) (lit "name") (string (cfg.server_id ++ (lit "-" ++ s.tunnel_name)))
    ∷ mode_settings i s

abbrev pub all_proxy_settings : ℕ → Config → List TunnelService → List Entry
all_proxy_settings i cfg [] = []
all_proxy_settings i cfg (s ∷ ss) = proxy_settings i cfg s ++ all_proxy_settings (suc i) cfg ss

abbrev pub tls_settings : Config → List Entry
tls_settings cfg =
    if cfg.use_tls
    then set root (lit "transport.tls.enable") yes_value
      ∷ set root (lit "transport.tls.serverName") (string cfg.server_addr)
      ∷ set root (lit "transport.tls.trustedCaFile")
          (string (lit "/etc/ssl/certs/ca-certificates.crt"))
      ∷ []
    else []

abbrev pub settings : Config → Bytes → List TunnelService → List Entry
settings cfg id ss =
    set root (lit "serverAddr") (string cfg.server_addr)
    ∷ set root (lit "serverPort") (integer cfg.server_port)
    ∷ (tls_settings cfg
        ++ (set root (lit "metadatas.token") (string cfg.token)
            ∷ set root (lit "metadatas.server_id") (string cfg.server_id)
            ∷ set root (lit "metadatas.connection_id") (string id)
            ∷ set root (lit "log.to") (string (lit "console"))
            ∷ set root (lit "log.level") (string (lit "warn"))
            ∷ all_proxy_settings 0 cfg ss))
