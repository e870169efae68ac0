-- ===== src/Frp/ConfigFile/ReadsBack.antt =====
-- What a reader of TOML finds in the frpc.toml of internal/frp/frp.go.
use seawise_client.Frp.ConfigFile.Proxies.{read_proxies, set_integer, set_string}
use seawise_client.Frp.ConfigFile.Lines.{toml_escape-unescaped}
use seawise_client.Frp.ConfigFile.Settings.{settings, tls_settings, all_proxy_settings}
use seawise_client.Frp.ConfigFile.{after_tls, tls_lines, config_lines, Config, quoted}
use mathlib.Core.List.{append_assoc}
use seawise_client.Frp.ConfigFile.Reader.{
  proxies_before, read_lines_skipped, kind_of, read_lines-key, string, yes_value, root, read_lines,
  is_key, set, Entry, read_value,
}
use seawise_client.Prelude.{
  ◌≡◌, refl, sym, ap, inl, inr, some, List, [], ◌∷◌, ◌++◌, Bool-cases, ◌∙◌,
}
use seawise_client.Prelude.Bytes.{◌==◌, Bytes, lit}
use seawise_client.Frp.Toml.{toml_escape}
use seawise_client.Services.Tunnels.{TunnelService}

abbrev rest_settings : Config → Bytes → List TunnelService → List Entry
rest_settings cfg id ss =
    set root (lit "metadatas.token") (string cfg.token)
    ∷ set root (lit "metadatas.server_id") (string cfg.server_id)
    ∷ set root (lit "metadatas.connection_id") (string id)
    ∷ set root (lit "log.to") (string (lit "console"))
    ∷ set root (lit "log.level") (string (lit "warn"))
    ∷ all_proxy_settings 0 cfg ss

read_rest :
    (cfg : Config) (id : Bytes) (ss : List TunnelService)
    → read_lines root (after_tls cfg id ss ++ [] ∷ []) ≡ some (rest_settings cfg id ss)
unfolding after_tls is_key lit kind_of proxies_before
read_rest cfg id ss = read_lines_skipped root [] _ _ refl (
    read_lines_skipped root
      (lit "# Authentication - token and server ID sent via metadata for plugin validation") _ _
      refl
      (set_string root (lit "metadatas.token") (toml_escape cfg.token) cfg.token _ _ refl refl (
        set_string root (lit "metadatas.server_id") (toml_escape cfg.server_id) cfg.server_id _ _
          refl refl
          (set_string root (lit "metadatas.connection_id") (toml_escape id) id _ _ refl refl (
            read_lines_skipped root [] _ _ refl (
              set_string root (lit "log.to") (lit "console") (lit "console") _ _ refl
                (sym (toml_escape-unescaped (lit "console") refl))
                (set_string root (lit "log.level") (lit "warn") (lit "warn") _ _ refl
                  (sym (toml_escape-unescaped (lit "warn") refl))
                  (read_lines_skipped root [] _ _ refl (read_proxies root 0 cfg ss refl)))))))))

set_enabled :
    (ls : List Bytes) (es : List Entry)
    → read_lines root ls ≡ some es
    → read_lines root (lit "transport.tls.enable = true" ∷ ls)
      ≡ some (set root (lit "transport.tls.enable") yes_value ∷ es)
unfolding is_key lit read_value ◌==◌
set_enabled ls es h =
    read_lines-key root (lit "transport.tls.enable") (lit "true") yes_value ls refl refl ∙ rw h refl

read_tls :
    (cfg : Config) (ls : List Bytes) (es : List Entry)
    → read_lines root ls ≡ some es
    → read_lines root (tls_lines cfg ++ ls) ≡ some (tls_settings cfg ++ es)
unfolding tls_lines is_key lit kind_of quoted
read_tls cfg ls es h = elim (Bool-cases cfg.use_tls) [
  | inr e ↦ rw e h
  | inl e ↦ rw e (
      read_lines_skipped root [] _ _ refl (
        set_enabled _ _ (
          set_string root (lit "transport.tls.serverName") (toml_escape cfg.server_addr)
            cfg.server_addr _ _ refl refl
            (set_string root (lit "transport.tls.trustedCaFile")
              (lit "/etc/ssl/certs/ca-certificates.crt") (lit "/etc/ssl/certs/ca-certificates.crt")
              ls es refl
              (sym (toml_escape-unescaped (lit "/etc/ssl/certs/ca-certificates.crt") refl)) h))))
]

pub read_config_lines :
    (cfg : Config) (id : Bytes) (ss : List TunnelService)
    → read_lines root (config_lines cfg id ss ++ [] ∷ []) ≡ some (settings cfg id ss)
unfolding config_lines is_key lit
read_config_lines cfg id ss =
    set_string root (lit "serverAddr") (toml_escape cfg.server_addr) cfg.server_addr _ _ refl refl (
      set_integer root (lit "serverPort") cfg.server_port _ _ refl (
        ap (read_lines root) (append_assoc (tls_lines cfg) (after_tls cfg id ss) ([] ∷ []))
        ∙ read_tls cfg (after_tls cfg id ss ++ [] ∷ []) (rest_settings cfg id ss)
            (read_rest cfg id ss)))
