-- ===== src/Config/Tests.antt =====
-- Tests after config_test.go, and the theorems on the migration at concrete inputs.
use seawise_client.Prelude.{◌≡◌, refl, ◌⊎◌, true, false, none, some, [], pos}
use seawise_client.Prelude.Bytes.{lit}
use seawise_client.Config.{
  Error, Machine, Account, missing, corrupt, holds, exists, written, refused, write_file,
  save_machine, Disk, get_api_url,
}
use seawise_client.Config.Atomic.{
  Slot, Steps, write_atomic, outcome, is_none, write_atomic-write_file,
}
use seawise_client.Config.Migrate.{Outcomes, seed_fresh_machine, migrate_legacy}
use seawise_client.Config.Recovery.{IsKept, migrate_legacy-IsKept, migrate_legacy_strands}

abbrev binding : Account
binding = record {
  server_id = lit "srv";
  server_name = lit "nas";
  frp_token = lit "secret";
  frp_server_addr = lit "tunnel.seawise.io";
  frp_server_port = pos 7000;
  frp_use_tls = true;
  api_url = [];
  user_id = lit "u1";
  user_email = [];
}

abbrev nas : Machine
nas = record { machine_id = lit "1f"; machine_name = lit "nas"; services = [] }

abbrev fine : Outcomes
fine = record {
  fresh_id = some (lit "1f");
  machine_write = written;
  account_write = written;
  removes = true;
}

abbrev full_disk : Outcomes
full_disk = record {
  fresh_id = some (lit "2e");
  machine_write = written;
  account_write = refused;
  removes = true;
}

abbrev old_disk : Disk
old_disk = record { machine = missing; account = missing; legacy = holds binding }

abbrev new_disk : Disk
new_disk = record { machine = holds nas; account = holds binding; legacy = missing }

abbrev bare_disk : Disk
bare_disk = record { machine = holds nas; account = missing; legacy = missing }

fallback_url : get_api_url (some binding) [] ≡ lit "https://api.seawise.io"
unfolding get_api_url lit
fallback_url = refl

environment_url : get_api_url none (lit "http://localhost:3000") ≡ lit "http://localhost:3000"
unfolding get_api_url lit
environment_url = refl

fresh_install :
    migrate_legacy fine (record { machine = missing; account = missing; legacy = missing }) ≡ (
      none,
      record {
        machine = holds (record nas { machine_name = [] });
        account = missing;
        legacy = missing;
      },
    )
unfolding migrate_legacy seed_fresh_machine save_machine write_file exists lit
fresh_install = refl

corrupt_legacy :
    (migrate_legacy fine (record old_disk { legacy = corrupt })).1
    ≡ record old_disk { legacy = corrupt }
unfolding migrate_legacy exists
corrupt_legacy = refl

migrate_legacy-IsKept_example : IsKept old_disk (migrate_legacy full_disk old_disk).1
migrate_legacy-IsKept_example = migrate_legacy-IsKept full_disk old_disk

migrate_legacy_strands_example :
    (d : Disk) × (err : Error) × (migrate_legacy full_disk old_disk ≡ (some err, d))
    × (d.legacy ≡ holds binding)
    × (d.account ≡ missing)
    × (migrate_legacy fine d ≡ (none, d))
unfolding lit
migrate_legacy_strands_example = migrate_legacy_strands fine binding (lit "2e") true refl

-- The directory cannot be synced: the binding is stored, and an error is reported.
abbrev unsynced : Steps
unsynced = record {
  opens = true;
  writes = true;
  syncs = true;
  closes = true;
  renames = true;
  syncs_dir = false;
  removes = true;
}

abbrev first_write : Slot Account
first_write = record { target = missing; temp = missing }

write_atomic-write_file_example :
    ((write_atomic unsynced binding first_write).1.target
      ≡ (write_file (outcome unsynced) binding missing).1)
    × ((write_atomic unsynced binding first_write).0
        ≡ is_none (write_file (outcome unsynced) binding missing).0)
    × (((write_atomic unsynced binding first_write).1.temp ≡ missing)
        ⊎ ((write_atomic unsynced binding first_write).1.temp ≡ missing)
        ⊎ (unsynced.removes ≡ false))
write_atomic-write_file_example = write_atomic-write_file unsynced binding first_write
