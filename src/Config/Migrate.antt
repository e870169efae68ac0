-- ===== src/Config/Migrate.antt =====
-- internal/config/migrate.go and Delete of internal/config/config.go. A crash leaves the disk that
-- a failed write or removal at the same place leaves, so the outcomes below cover crashes too.
use seawise_client.Prelude.{Bool, not, ◌||◌, Option, none, some, [], if◌then◌else◌}
use seawise_client.Prelude.Bytes.{Bytes}
use seawise_client.Config.{
  Error, read_failed, generate_failed, delete_failed, Machine, Account, File, missing, corrupt,
  holds, exists, Write, save_machine, save_account, Disk, delete_account,
}

-- What a run takes from outside: the fresh machine id, how its two writes end, and whether the
-- removal of the legacy file succeeds.
pub record Outcomes : Type 0 where
  pub fresh_id : Option Bytes
  pub machine_write : Write
  pub account_write : Write
  pub removes : Bool

-- os.Remove on a file that may be missing.
unfoldable pub remove_file : Bool → File Account → File Account
remove_file removes f = if removes then missing else f

unfoldable pub clean_up : Bool → Disk → Disk
unfolding remove_file exists
clean_up removes d =
    if exists d.account then record d { legacy = remove_file removes d.legacy } else d

unfoldable pub seed_fresh_machine : Outcomes → Disk → Option Error × Disk
unfolding save_machine
seed_fresh_machine o d = elim o.fresh_id [
  | none ↦ (some generate_failed, d)
  | some id ↦
      let m : Machine = record { machine_id = id; machine_name = []; services = [] } in
      let (e, machine) = save_machine o.machine_write m d.machine in
      (e, record d { machine = machine })
]

-- The steps 5 and 6, once machine.json is written.
unfoldable pub move_account : Outcomes → Account → Disk → Option Error × Disk
unfolding save_account remove_file
move_account o a d =
    let (e, account) = save_account o.account_write a d.account in
    let d' : Disk = record d { account = account } in
    elim e [
      | some err ↦ (some err, d')
      | none ↦ (
        (if o.removes then none else some delete_failed),
        record d' { legacy = remove_file o.removes d.legacy },
      )
    ]

-- The steps 4 to 6.
unfoldable pub split_legacy : Outcomes → Account → Disk → Option Error × Disk
unfolding save_machine move_account
split_legacy o a d = elim o.fresh_id [
  | none ↦ (some generate_failed, d)
  | some id ↦
      let m : Machine = record { machine_id = id; machine_name = a.server_name; services = [] } in
      let (e, machine) = save_machine o.machine_write m d.machine in
      let d' : Disk = record d { machine = machine } in
      elim e [ some err ↦ (some err, d') | none ↦ move_account o a d' ]
]

unfoldable pub migrate_legacy : Outcomes → Disk → Option Error × Disk
unfolding clean_up seed_fresh_machine split_legacy exists
migrate_legacy o d = if exists d.machine then (none, clean_up o.removes d) else elim d.legacy [
  | missing ↦ seed_fresh_machine o d
  | corrupt ↦ (some read_failed, d)
  | holds a ↦ split_legacy o a d
]

-- Delete; the flags say whether each of the two removals succeeds.
unfoldable pub delete : Bool → Bool → Disk → Option Error × Disk
unfolding delete_account remove_file exists
delete account_goes legacy_goes d =
    let (e, account) = delete_account account_goes d.account in
    let d' : Disk = record d { account = account } in
    elim e [
      | some err ↦ (some err, d')
      | none ↦ (
        (if legacy_goes || not (exists d.legacy) then none else some delete_failed),
        record d' { legacy = remove_file legacy_goes d.legacy },
      )
    ]
