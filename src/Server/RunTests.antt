-- ===== src/Server/RunTests.antt =====
-- The theorems on the start, the loop and the certificates of the server at concrete inputs.
use seawise_client.Server.Upgrading.{start_program_upgraded, split_disk, no_failures, legacy_disk}
use seawise_client.Prelude.Bytes.{lit, Bytes}
use seawise_client.Certs.{whole, Files}
use seawise_client.Server.{paired, no_pairing, Server, World}
use seawise_client.Server.Certificates.{Issuing}
use seawise_client.Server.Looping.{start_program, Waiting}
use seawise_client.Frp.{crashed}
use seawise_client.Prelude.{◌≡◌, refl, true, false, none, some, [], is_empty}
use seawise_client.Server.Tests.{client, world, server, binding}

abbrev old_server : Server
old_server = record server {
  disk = legacy_disk binding;
  cfg = none;
  frp = none;
  pairing_state = no_pairing;
}

named :
    (is_empty binding.server_id ≡ false)
    × (is_empty binding.frp_token ≡ false)
    × (is_empty (lit "1f") ≡ false)
unfolding lit
named = (refl, refl, refl)

start_program_upgraded_example :
    (t : Server) × (start_program (no_failures (lit "1f")) world old_server ≡ some t)
    × (t.pairing_state ≡ paired)
    × (t.cfg ≡ some binding)
    × (t.disk ≡ split_disk binding (lit "1f"))
start_program_upgraded_example =
    start_program_upgraded world old_server binding (lit "1f") refl (named.2) (named.0) (named.1)

abbrev issuing : Issuing
issuing = record {
  fresh_key = some (lit "k");
  made_for_key = true;
  made_for_cert = true;
  key_write = whole;
  cert_write = whole;
  reads = true;
}

-- No file is there.
abbrev empty_store : Files
empty_store path = none

abbrev secured : Server
secured = record server { certs_enabled = true; e2e_tls_enabled = true }

-- A server that answers each request for a certificate.
abbrev answering : World
answering = record world {
  http = record world.http {
    send = λ req. some (record { status_code = 200; content = some (lit "{}") });
  };
  decoders = record world.decoders {
    certs = record world.decoders.certs {
      cert_issue = λ body. some (record { certificate = lit "c"; domain = []; expires_at = [] });
    };
  };
}

abbrev issued_paths : Bytes × Bytes
issued_paths =
    (lit "/config/certs/plex-a1.seawise.dev.crt", lit "/config/certs/plex-a1.seawise.dev.key")

-- A client that has crashed, and a wait that the shutdown ends.
abbrev fallen : Server
fallen = record server {
  frp = some (record client { state = crashed; launched = false });
  restart_in_progress = false;
}

abbrev cut_short : Waiting
cut_short = record { meanwhile = λ s. s; interrupted = true; later = world }
