-- ===== src/Frp/ProcessTests.antt =====
-- Tests of frpc.toml and of the monitor, and the theorems on them at concrete inputs.
use seawise_client.Frp.Monitor.{
  Steps, signal, waiting, watching, read_fields, fresh, start_process, exit_process, Life,
  begin_stop, wake,
}
use seawise_client.Frp.Monitor.Late.{record_crash-start_process, late_crash}
use seawise_client.Frp.{crashed, FrpClient}
use seawise_client.Frp.ConfigFile.Written.{
  write_config-settings, is_unblocked, IsReadable, HasTexts,
}
use seawise_client.Frp.ConfigFile.Text.{encoded, next_state, low_state}
use seawise_client.Frp.ConfigFile.Settings.{settings}
use seawise_client.Prelude.Bytes.{lit, ◌==◌, Bytes, Unicode}
use seawise_client.Frp.ConfigFile.Reader.{read_document}
use seawise_client.Frp.ConfigFile.Decimal.{decimal, int_text}
use seawise_client.Frp.ConfigFile.{
  all_written, write_config, config_lines, tls_lines, after_tls, quoted, numbered, text_of_lines,
}
use seawise_client.Frp.Toml.{toml_escape}
use seawise_client.Prelude.{
  [], ◌∷◌, All, ◌≡◌, refl, true, false, none, some, arith, keep, pos, negsuc,
}
use seawise_client.Frp.Tests.{client}

abbrev ascii : Unicode
ascii = record { lower = λ s. s; trim = λ s. s; fold = λ s t. s == t }

number_printed : (int_text (pos 7000) ≡ lit "7000") × (int_text (negsuc 0) ≡ lit "-1")
unfolding int_text decimal lit
number_printed = (refl, refl)

no_error : (write_config ascii all_written client none).0 ≡ none
unfolding write_config
no_error = refl

readable : IsReadable client.config client.connection_id
unfolding encoded next_state low_state lit
readable = record { addr_text = refl; token_text = refl; server_text = refl; id_text = refl }

texts : All HasTexts client.services
unfolding encoded next_state low_state lit
texts = (
  record {
    name_text = refl;
    ip_text = refl;
    subdomain_text = refl;
    cert_text = refl;
    key_text = refl;
  },
  tt,
)

write_config-settings_example :
    (text : Bytes) × ((write_config ascii all_written client none).1 ≡ some text)
    × (read_document text
        ≡ some (
            settings client.config client.connection_id
              (keep (is_unblocked ascii) client.services)))
write_config-settings_example =
    write_config-settings ascii all_written client none readable texts no_error

-- A control character goes unescaped, and what is written is not TOML.
abbrev garbled : FrpClient
garbled = record client { config = record client.config { token = 1 ∷ [] } }

garbled_refused :
    (text : Bytes) × ((write_config ascii all_written garbled none).1 ≡ some text)
    × (read_document text ≡ none)
unfolding write_config read_document encoded next_state low_state config_lines tls_lines after_tls
    quoted numbered text_of_lines toml_escape int_text decimal lit
garbled_refused = (_, refl, refl)

-- A Stop that has captured a process whose monitor has not read the fields.
abbrev stopping_life : Life
stopping_life = begin_stop (start_process fresh)

abbrev late : Life
late = wake 0 0 0 (exit_process 0 (read_fields 0 (start_process fresh)))

record_crash-start_process_example :
    Steps false late (late_crash 0 late)
    × ((late_crash 0 late).state ≡ crashed)
    × ((late_crash 0 late).cmd ≡ some late.started)
    × ((late_crash 0 late).alive late.started ≡ true)
unfolding wake exit_process read_fields start_process fresh
record_crash-start_process_example =
    record_crash-start_process late 0 refl refl refl refl (omega arith)

-- A Start while a Stop waits for the process of an earlier one, before the monitor of that one has
-- read the fields: both monitors wait for the later process.
abbrev crossed : Life
crossed =
    read_fields 1 (read_fields 0 (start_process (signal 0 (begin_stop (start_process fresh)))))

crossed_monitors :
    (crossed.monitors 0 ≡ watching 1 0)
    × (crossed.monitors 1 ≡ watching 1 0)
    × (crossed.stopping ≡ waiting 0)
    × (crossed.reaped 0 ≡ false)
unfolding read_fields signal begin_stop start_process fresh
crossed_monitors = (refl, refl, refl, refl)
