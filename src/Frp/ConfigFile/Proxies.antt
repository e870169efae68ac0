-- ===== src/Frp/ConfigFile/Proxies.antt =====
-- Reading the part of frpc.toml about the proxies, which internal/frp/frp.go writes service by
-- service.
use seawise_client.Frp.ConfigFile.Settings.{mode_settings, proxy_settings, all_proxy_settings}
use seawise_client.Frp.ConfigFile.{
  all_proxy_lines, proxy_lines, mode_lines, Config, numbered, quoted,
}
use mathlib.Core.List.{append_assoc}
use seawise_client.Frp.ConfigFile.Reader.{
  names_table, proxies_before, read_lines-next_table, its_plugin, next_table, read_lines_skipped,
  kind_of, read_value-int_text, read_lines-key, plugin, string, integer, proxy, read_lines, is_key,
  set, Entry, read_value, Table,
}
use seawise_client.Prelude.{
  ℕ, suc, ◌≡◌, refl, sym, ap, inl, inr, true, false, some, List, [], ◌∷◌, ◌++◌, arith,
  if◌then◌else◌, Bool-cases, all, ℤ, pos, negsuc, subst, ◌∙◌, case_if,
}
use seawise_client.Prelude.Bytes.{◌==◌, Bytes, lit}
use seawise_client.Frp.ConfigFile.Decimal.{digits_plain, digits, decimal, int_text}
use seawise_client.Frp.ConfigFile.Lines.{
  unescaped_of_digits, is_unescaped, toml_escape-unescaped, toml_escape-append,
}
use seawise_client.Frp.Toml.{read_string-toml_escape, toml_escape}
use seawise_client.Services.Tunnels.{TunnelService}

pub set_string :
    (t : Table) (key text v : Bytes) (ls : List Bytes) (es : List Entry)
    → is_key key ≡ true
    → text ≡ toml_escape v
    → read_lines t ls ≡ some es
    → read_lines t (quoted key text ∷ ls) ≡ some (set t key (string v) ∷ es)
unfolding quoted lit read_value
set_string t key text v ls es h e k =
    read_lines-key t key (b'"' ∷ (text ++ b'"' ∷ [])) (string v) ls h
      (rw (e, read_string-toml_escape v []) refl)
    ∙ rw k refl

pub set_integer :
    (t : Table) (key : Bytes) (n : ℤ) (ls : List Bytes) (es : List Entry)
    → is_key key ≡ true
    → read_lines t ls ≡ some es
    → read_lines t (numbered key n ∷ ls) ≡ some (set t key (integer n) ∷ es)
unfolding numbered
set_integer t key n ls es h k =
    read_lines-key t key (int_text n) (integer n) ls h (read_value-int_text n) ∙ rw k refl

name_text :
    (a b : Bytes) → toml_escape a ++ (lit "-" ++ toml_escape b) ≡ toml_escape (a ++ (lit "-" ++ b))
unfolding lit
name_text a b = sym (
    toml_escape-append a (b'-' ∷ b)
    ∙ ap (λ z. toml_escape a ++ z)
        (toml_escape-append (b'-' ∷ []) b
          ∙ ap (λ z. z ++ toml_escape b) (toml_escape-unescaped (b'-' ∷ []) refl)))

int_text_unescaped : (n : ℤ) → all is_unescaped (int_text n) ≡ true
unfolding int_text decimal
int_text_unescaped (pos n) = unescaped_of_digits (digits n n) (digits_plain n n (omega arith))
int_text_unescaped (negsuc n) =
    unescaped_of_digits (digits (suc n) (suc n)) (digits_plain (suc n) (suc n) (omega arith))

address_text :
    (a : Bytes) (n : ℤ)
    → toml_escape a ++ (lit ":" ++ int_text n) ≡ toml_escape (a ++ (lit ":" ++ int_text n))
unfolding lit
address_text a n = sym (
    toml_escape-append a (b':' ∷ int_text n)
    ∙ ap (λ z. toml_escape a ++ z)
        (toml_escape-unescaped (b':' ∷ int_text n) (int_text_unescaped n)))

-- Where the reader is after a proxy.
abbrev after_proxy : ℕ → TunnelService → Table
after_proxy i s = if s.use_e2e_tls then plugin i else proxy i

module _ (cfg : Config) (s : TunnelService) (ls : List Bytes) (es : List Entry) (i : ℕ) where
  https_proxy :
      read_lines (plugin i) ls ≡ some es
      → s.use_e2e_tls ≡ true
      → read_lines
          (proxy i)
          (mode_lines s ++ ([] ∷ quoted (lit "subdomain") (toml_escape s.tunnel_subdomain) ∷ ls))
        ≡ some (
            set (proxy i) (lit "type") (string (lit "https"))
            ∷ set (plugin i) (lit "type") (string (lit "https2http"))
            ∷ set
                (plugin i)
                (lit "localAddr")
                (string (s.local_ip ++ (lit ":" ++ int_text s.local_port)))
            ∷ set (plugin i) (lit "crtPath") (string s.cert_path)
            ∷ set (plugin i) (lit "keyPath") (string s.key_path)
            ∷ set (plugin i) (lit "subdomain") (string s.tunnel_subdomain)
            ∷ es)
  unfolding mode_lines is_key lit kind_of next_table ◌==◌ its_plugin
  https_proxy h e = rw e (
      read_lines_skipped (proxy i)
        (lit "# E2E TLS mode - TLS terminated locally, traffic encrypted end-to-end") _ _ refl
        (set_string (proxy i) (lit "type") (lit "https") (lit "https") _ _ refl
          (sym (toml_escape-unescaped (lit "https") refl))
          (read_lines-next_table (proxy i) (lit "[proxies.plugin]") _ _ (plugin i) refl refl (
            set_string (plugin i) (lit "type") (lit "https2http") (lit "https2http") _ _ refl
              (sym (toml_escape-unescaped (lit "https2http") refl))
              (set_string (plugin i) (lit "localAddr")
                (toml_escape s.local_ip ++ (lit ":" ++ int_text s.local_port))
                (s.local_ip ++ (lit ":" ++ int_text s.local_port)) _ _ refl
                (address_text s.local_ip s.local_port)
                (set_string (plugin i) (lit "crtPath") (toml_escape s.cert_path) s.cert_path _ _
                  refl refl
                  (set_string (plugin i) (lit "keyPath") (toml_escape s.key_path) s.key_path _ _
                    refl refl
                    (read_lines_skipped (plugin i) [] _ _ refl (
                      set_string (plugin i) (lit "subdomain") (toml_escape s.tunnel_subdomain)
                        s.tunnel_subdomain ls es refl refl h)))))))))

  http_proxy :
      read_lines (proxy i) ls ≡ some es
      → s.use_e2e_tls ≡ false
      → read_lines
          (proxy i)
          (mode_lines s ++ ([] ∷ quoted (lit "subdomain") (toml_escape s.tunnel_subdomain) ∷ ls))
        ≡ some (
            set (proxy i) (lit "type") (string (lit "http"))
            ∷ set (proxy i) (lit "localIP") (string s.local_ip)
            ∷ set (proxy i) (lit "localPort") (integer s.local_port)
            ∷ set (proxy i) (lit "subdomain") (string s.tunnel_subdomain)
            ∷ es)
  unfolding mode_lines is_key lit kind_of
  http_proxy h e = rw e (
      read_lines_skipped (proxy i) (lit "# Standard HTTP mode - TLS terminated at gateway") _ _ refl
        (set_string (proxy i) (lit "type") (lit "http") (lit "http") _ _ refl
          (sym (toml_escape-unescaped (lit "http") refl))
          (set_string (proxy i) (lit "localIP") (toml_escape s.local_ip) s.local_ip _ _ refl refl (
            set_integer (proxy i) (lit "localPort") s.local_port _ _ refl (
              read_lines_skipped (proxy i) [] _ _ refl (
                set_string (proxy i) (lit "subdomain") (toml_escape s.tunnel_subdomain)
                  s.tunnel_subdomain ls es refl refl h))))))

header_kind : kind_of (lit "[[proxies]]") ≡ names_table
unfolding kind_of lit
header_kind = refl

header_table :
    (t : Table) (i : ℕ) → proxies_before t ≡ i → next_table (lit "[[proxies]]") t ≡ some (proxy i)
unfolding next_table lit ◌==◌
header_table t i at = ap (λ n. some (proxy n)) at

name_key : is_key (lit "name") ≡ true
unfolding is_key lit
name_key = refl

before_after : (i : ℕ) (s : TunnelService) → proxies_before (after_proxy i s) ≡ suc i
unfolding proxies_before
before_after i s = case_if (λ t. proxies_before t ≡ suc i) s.use_e2e_tls (λ e. refl) (λ e. refl)

read_lines_nil : (t : Table) → read_lines t [] ≡ some []
unfolding read_lines
read_lines_nil t = refl

read_mode :
    (i : ℕ) (cfg : Config) (s : TunnelService) (ls : List Bytes) (es : List Entry)
    → read_lines (after_proxy i s) ls ≡ some es
    → read_lines (proxy i) (
        (mode_lines s ++ ([] ∷ quoted (lit "subdomain") (toml_escape s.tunnel_subdomain) ∷ []))
        ++ ls)
      ≡ some (mode_settings i s ++ es)
read_mode i cfg s ls es h =
    let tail : List Bytes = [] ∷ quoted (lit "subdomain") (toml_escape s.tunnel_subdomain) ∷ [] in
    let joined = ap (read_lines (proxy i)) (append_assoc (mode_lines s) tail ls) in
    elim (Bool-cases s.use_e2e_tls) [
      | inl e ↦
          joined
          ∙ https_proxy cfg s ls es i
              (subst (λ b. read_lines (if b then plugin i else proxy i) ls ≡ some es) e h) e
          ∙ rw e refl
      | inr e ↦
          joined
          ∙ http_proxy cfg s ls es i
              (subst (λ b. read_lines (if b then plugin i else proxy i) ls ≡ some es) e h) e
          ∙ rw e refl
    ]

read_proxy :
    (t : Table) (i : ℕ) (cfg : Config) (s : TunnelService) (ls : List Bytes) (es : List Entry)
    → proxies_before t ≡ i
    → read_lines (after_proxy i s) ls ≡ some es
    → read_lines t (proxy_lines cfg s ++ ls) ≡ some (proxy_settings i cfg s ++ es)
unfolding proxy_lines is_key kind_of next_table
read_proxy t i cfg s ls es at h =
    let mode : List Bytes =
      (mode_lines s ++ ([] ∷ quoted (lit "subdomain") (toml_escape s.tunnel_subdomain) ∷ []))
      ++ ls in
    read_lines_skipped t [] _ _ refl (
      read_lines-next_table t (lit "[[proxies]]") _ _ (proxy i) (header_kind) (header_table t i at)
        (set_string (proxy i) (lit "name")
          (toml_escape cfg.server_id ++ (lit "-" ++ toml_escape s.tunnel_name))
          (cfg.server_id ++ (lit "-" ++ s.tunnel_name)) ([] ∷ mode) (mode_settings i s ++ es)
          name_key (name_text cfg.server_id s.tunnel_name)
          (read_lines_skipped (proxy i) [] mode (mode_settings i s ++ es) refl
            (read_mode i cfg s ls es h))))

pub read_proxies :
    (t : Table) (i : ℕ) (cfg : Config) (ss : List TunnelService)
    → proxies_before t ≡ i
    → read_lines t (all_proxy_lines cfg ss ++ [] ∷ []) ≡ some (all_proxy_settings i cfg ss)
unfolding all_proxy_lines kind_of
read_proxies t i cfg [] at =
    read_lines_skipped t [] _ _ refl (read_lines_skipped t [] _ _ refl (read_lines_nil t))
read_proxies t i cfg (s ∷ ss) at =
    ap (read_lines t) (append_assoc (proxy_lines cfg s) (all_proxy_lines cfg ss) ([] ∷ []))
    ∙ read_proxy t i cfg s (all_proxy_lines cfg ss ++ [] ∷ []) (all_proxy_settings (suc i) cfg ss)
        at (read_proxies (after_proxy i s) (suc i) cfg ss (before_after i s))
