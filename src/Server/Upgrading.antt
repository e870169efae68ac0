-- ===== src/Server/Upgrading.antt =====
-- The first start after an upgrade, of cmd/seawise/server/server.go over internal/config/migrate.go.
use seawise_client.Prelude.{
  ◌≡◌, refl, sym, ap, true, false, not, none, some, [], arith, ◌∙◌, is_empty, case_none, case_if,
}
use seawise_client.Server.Frames.{set_connection-Keeps}
use seawise_client.Server.Restarts.{Keeps-rest, start_services-rest}
use seawise_client.Api.{set_frp_token, ApiClient, ok, err}
use seawise_client.Connection.{connecting}
use seawise_client.Api.Url.{new_client}
use seawise_client.Server.{set_connection, paired, Server, World}
use seawise_client.Config.Migrate.{migrate_legacy, Outcomes}
use seawise_client.Server.Looping.{after_migration, start_program}
use seawise_client.Server.Starting.{start_services, start_paired}
use mathlib.Core.Option.{some_inj}
use seawise_client.Config.{missing, written, load, holds, Disk, exists, Account}
use seawise_client.Config.Recovery.{migrate_legacy_splits}
use seawise_client.Prelude.Bytes.{Bytes}

-- A disk with the legacy file alone.
abbrev pub legacy_disk : Account → Disk
legacy_disk a = record { machine = missing; account = missing; legacy = holds a }

abbrev pub no_failures : Bytes → Outcomes
no_failures id = record {
  fresh_id = some id;
  machine_write = written;
  account_write = written;
  removes = true;
}

abbrev pub split_disk : Account → Bytes → Disk
split_disk a id = record {
  machine = holds (record { machine_id = id; machine_name = a.server_name; services = [] });
  account = holds a;
  legacy = missing;
}

abbrev IsBoundStart : Server → Account → Server → Type 0
IsBoundStart s a t = (t.pairing_state ≡ paired) × (t.cfg ≡ some a) × (t.disk ≡ s.disk)

-- The server that the start makes of a binding.
abbrev with_binding : Server → Account → Server
with_binding s c =
    let api : ApiClient = elim (new_client c.api_url) [ err e ↦ s.api | ok stored ↦ stored ] in
    record s { cfg = some c; api = set_frp_token c.frp_token api; pairing_state = paired }

start_paired_bound :
    (w : World) (s : Server) (a : Account)
    → s.disk.account ≡ holds a
    → IsBoundStart s a (start_paired w s)
unfolding start_paired exists load
start_paired_bound w s a h =
    case_if {B = Server} (IsBoundStart s a) (not (exists s.disk.account))
      (λ e. absurd (no_account e))
      (λ e.
        case_none {B = Server} (IsBoundStart s a) (load s.disk.account) (λ e'. absurd (no_load e'))
          (λ c e'. started c (some_inj.0 (sym e' ∙ ap load h))))
  where
    no_account : not (exists s.disk.account) ≡ true → ⊥
    no_account e = ground (arith, ap exists h)

    no_load : load s.disk.account ≡ none → ⊥
    no_load e = ground (arith, ap load h)

    started :
        (c : Account)
        → c ≡ a
        → IsBoundStart s a (start_services w (set_connection w connecting (with_binding s c)))
    started c same =
        let s1 = with_binding s c in
        let all_same =
          start_services-rest w (set_connection w connecting s1)
          ∙ Keeps-rest (set_connection-Keeps w connecting s1) in
        (ap (λ x. x.3) all_same, ap (λ x. x.0) all_same ∙ ap some same, ap (λ x. x.1) all_same)

-- A program that starts for the first time on a disk with the legacy file alone, whose binding has
-- a server id and a token, starts paired with this binding, if nothing fails on the disk, whatever
-- the server answers; the disk then has the binding, a machine without services and no legacy file.
pub start_program_upgraded :
    (w : World) (s : Server) (a : Account) (id : Bytes)
    → s.disk ≡ legacy_disk a
    → is_empty id ≡ false
    → is_empty a.server_id ≡ false
    → is_empty a.frp_token ≡ false
    → (t : Server) × (start_program (no_failures id) w s ≡ some t)
      × (t.pairing_state ≡ paired)
      × (t.cfg ≡ some a)
      × (t.disk ≡ split_disk a id)
unfolding start_program after_migration
start_program_upgraded w s a id d h k l =
    let moved = migrate_legacy_splits a id h k l in
    let s' : Server = record s { disk = split_disk a id } in
    let (state, bound, kept) = start_paired_bound w s' a refl in
    (
      start_paired w s',
      ap (λ x. after_migration w s (migrate_legacy (no_failures id) x)) d
          ∙ ap (after_migration w s) moved,
      state,
      bound,
      kept,
    )
