-- ===== src/Frp/ConfigFile/Written.antt =====
-- The file that WriteConfig of internal/frp/frp.go leaves.
use seawise_client.Frp.ConfigFile.Lines.{
  AreLines, split-text_of_lines, line_of_digits, is_document-text_of_lines,
}
use seawise_client.Frp.ConfigFile.{
  no_dir, not_opened, all_written, text_of_lines, not_flushed, not_executed, ConfigIo, unblocked,
  proxy_lines, write_config, mode_lines, all_proxy_lines, after_tls, tls_lines, config_lines,
  Config, numbered, quoted,
}
use seawise_client.Frp.ConfigFile.ReadsBack.{read_config_lines}
use seawise_client.Frp.{FrpClient}
use seawise_client.Validation.Host.{validate_service_host}
use seawise_client.Frp.ConfigFile.Reader.{read_document, root, read_lines}
use seawise_client.Prelude.{
  suc, ◌≡◌, refl, ap, Bool, true, not, Option, none, some, List, [], ◌∷◌, ◌++◌, arith, All, keep, ℤ,
  pos, negsuc, ◌∙◌, All-append, is_some, case_if,
}
use seawise_client.Prelude.Bytes.{Unicode, Bytes, lit}
use seawise_client.Frp.ConfigFile.Settings.{settings}
use seawise_client.Frp.ConfigFile.Decimal.{digits_plain, digits, decimal, int_text}
use seawise_client.Frp.Toml.{toml_escape}
use seawise_client.Frp.ConfigFile.Text.{
  encoded, next_state, low_state, is_inline, between, is_line, is_text, encoded-append,
  toml_escape-encoded,
}
use seawise_client.Services.Tunnels.{TunnelService}

-- The texts of a service are UTF-8 without the control characters that tomlEscape leaves.
pub record HasTexts (s : TunnelService) : Type 0 where
  pub name_text : is_text s.tunnel_name ≡ true
  pub ip_text : is_text s.local_ip ≡ true
  pub subdomain_text : is_text s.tunnel_subdomain ≡ true
  pub cert_text : is_text s.cert_path ≡ true
  pub key_text : is_text s.key_path ≡ true

-- So are those of the configuration, with the connection id.
pub record IsReadable (cfg : Config) (id : Bytes) : Type 0 where
  pub addr_text : is_text cfg.server_addr ≡ true
  pub token_text : is_text cfg.token ≡ true
  pub server_text : is_text cfg.server_id ≡ true
  pub id_text : is_text id ≡ true

All-keep : {A : Type 0} (P : A → Type 0) (p : A → Bool) (xs : List A) → All P xs → All P (keep p xs)
All-keep P p [] h = tt
All-keep P p (x ∷ xs) (h, hs) =
    case_if (All P) (p x) (λ e. (h, All-keep P p xs hs)) (λ e. All-keep P p xs hs)

toml_escape_inline : (s : Bytes) → is_text s ≡ true → is_line (toml_escape s) ≡ true
toml_escape_inline s h = toml_escape-encoded between s h

int_text_inline : (n : ℤ) → is_line (int_text n) ≡ true
unfolding int_text decimal encoded next_state low_state
int_text_inline (pos n) = line_of_digits (digits n n) (digits_plain n n (omega arith))
int_text_inline (negsuc n) =
    encoded-append is_inline between (45 ∷ []) (digits (suc n) (suc n)) refl
      (line_of_digits (digits (suc n) (suc n)) (digits_plain (suc n) (suc n) (omega arith)))

inline_append : (a b : Bytes) → is_line a ≡ true → is_line b ≡ true → is_line (a ++ b) ≡ true
inline_append a b h k = encoded-append is_inline between a b h k

quoted_inline :
    (key text : Bytes) → is_line key ≡ true → is_line text ≡ true → is_line (quoted key text) ≡ true
unfolding quoted lit encoded next_state low_state
quoted_inline key text h k =
    inline_append key (lit " = \"" ++ (text ++ lit "\"")) h (inline_append text (lit "\"") k refl)

numbered_inline : (key : Bytes) (n : ℤ) → is_line key ≡ true → is_line (numbered key n) ≡ true
unfolding numbered lit encoded next_state low_state
numbered_inline key n h = inline_append key (lit " = " ++ int_text n) h (int_text_inline n)

escaped_inline :
    (key v : Bytes)
    → is_line key ≡ true
    → is_text v ≡ true
    → is_line (quoted key (toml_escape v)) ≡ true
escaped_inline key v h k = quoted_inline key (toml_escape v) h (toml_escape_inline v k)

mode_lines-AreLines : (s : TunnelService) → HasTexts s → AreLines (mode_lines s)
unfolding mode_lines lit quoted encoded next_state low_state
mode_lines-AreLines s h =
    case_if AreLines s.use_e2e_tls
      (λ e. (
        refl,
        (
          refl,
          (
            refl,
            (
              refl,
              (
                quoted_inline (lit "localAddr")
                    (toml_escape s.local_ip ++ (lit ":" ++ int_text s.local_port)) refl
                    (inline_append (toml_escape s.local_ip) (lit ":" ++ int_text s.local_port)
                      (toml_escape_inline s.local_ip h.ip_text) (int_text_inline s.local_port)),
                (
                  escaped_inline (lit "crtPath") s.cert_path refl h.cert_text,
                  (escaped_inline (lit "keyPath") s.key_path refl h.key_text, tt),
                ),
              ),
            ),
          ),
        ),
      ))
      (λ e. (
        refl,
        (
          refl,
          (
            escaped_inline (lit "localIP") s.local_ip refl h.ip_text,
            (numbered_inline (lit "localPort") s.local_port refl, tt),
          ),
        ),
      ))

all_proxy_lines-AreLines :
    (cfg : Config) (ss : List TunnelService)
    → is_text cfg.server_id ≡ true
    → All HasTexts ss
    → AreLines (all_proxy_lines cfg ss)
unfolding all_proxy_lines proxy_lines lit encoded next_state low_state
all_proxy_lines-AreLines cfg [] k hs = (refl, tt)
all_proxy_lines-AreLines cfg (s ∷ ss) k (h, hs) =
    let sub = quoted (lit "subdomain") (toml_escape s.tunnel_subdomain) in
    let name = toml_escape cfg.server_id ++ (lit "-" ++ toml_escape s.tunnel_name) in
    All-append (λ l. is_line l ≡ true) (proxy_lines cfg s) (all_proxy_lines cfg ss)
      (
        refl,
        (
          refl,
          (
            quoted_inline (lit "name") name refl (
                inline_append (toml_escape cfg.server_id) (lit "-" ++ toml_escape s.tunnel_name)
                  (toml_escape_inline cfg.server_id k)
                  (toml_escape_inline s.tunnel_name h.name_text)),
            (
              refl,
              All-append (λ l. is_line l ≡ true) (mode_lines s) ([] ∷ sub ∷ [])
                  (mode_lines-AreLines s h)
                  (
                    refl,
                    (escaped_inline (lit "subdomain") s.tunnel_subdomain refl h.subdomain_text, tt),
                  ),
            ),
          ),
        ),
      )
      (all_proxy_lines-AreLines cfg ss k hs)

config_lines-AreLines :
    (cfg : Config) (id : Bytes) (ss : List TunnelService)
    → IsReadable cfg id
    → All HasTexts ss
    → AreLines (config_lines cfg id ss)
unfolding config_lines tls_lines after_tls lit quoted encoded next_state low_state
config_lines-AreLines cfg id ss c hs =
    let ending : AreLines (after_tls cfg id ss) = (
      refl,
      (
        refl,
        (
          escaped_inline (lit "metadatas.token") cfg.token refl c.token_text,
          (
            escaped_inline (lit "metadatas.server_id") cfg.server_id refl c.server_text,
            (
              escaped_inline (lit "metadatas.connection_id") id refl c.id_text,
              (refl, (refl, (refl, (refl, all_proxy_lines-AreLines cfg ss c.server_text hs)))),
            ),
          ),
        ),
      ),
    ) in
    let tls : AreLines (tls_lines cfg) =
      case_if AreLines cfg.use_tls
        (λ e. (
          refl,
          (
            refl,
            (
              escaped_inline (lit "transport.tls.serverName") cfg.server_addr refl c.addr_text,
              (refl, tt),
            ),
          ),
        ))
        (λ e. tt) in
    (
      escaped_inline (lit "serverAddr") cfg.server_addr refl c.addr_text,
      (
        numbered_inline (lit "serverPort") cfg.server_port refl,
        All-append (λ l. is_line l ≡ true) (tls_lines cfg) (after_tls cfg id ss) tls ending,
      ),
    )

-- The hosts that ValidateServiceHost accepts.
abbrev pub is_unblocked : Unicode → TunnelService → Bool
is_unblocked u s = not (is_some (validate_service_host u s.local_ip))

-- After a WriteConfig without an error, if each text of the configuration and of the services is
-- UTF-8 without control characters other than tabs and line breaks, the file is a TOML document, and
-- a reader of TOML finds in it exactly the settings of the configuration and of the services whose
-- host is not blocked, in their order; a service with end-to-end TLS has its subdomain in the table
-- of its plugin, any other in its own table.
pub write_config-settings :
    (u : Unicode) (io : ConfigIo) (c : FrpClient) (file : Option Bytes)
    → IsReadable c.config c.connection_id
    → All HasTexts c.services
    → (write_config u io c file).0 ≡ none
    → (text : Bytes) × ((write_config u io c file).1 ≡ some text)
      × (read_document text
          ≡ some (settings c.config c.connection_id (keep (is_unblocked u) c.services)))
unfolding write_config read_document unblocked
write_config-settings u no_dir c file k ks h = cc
write_config-settings u not_opened c file k ks h = cc
write_config-settings u (not_executed left) c file k ks h = cc
write_config-settings u (not_flushed left) c file k ks h = cc
write_config-settings u all_written c file k ks h =
    let ss = keep (is_unblocked u) c.services in
    let lines = config_lines c.config c.connection_id ss in
    let good =
      config_lines-AreLines c.config c.connection_id ss k
        (All-keep HasTexts (is_unblocked u) c.services ks) in
    (
      text_of_lines lines,
      refl,
      rw (is_document-text_of_lines lines good) (
          ap (read_lines root) (split-text_of_lines lines good)
          ∙ read_config_lines c.config c.connection_id ss),
    )
