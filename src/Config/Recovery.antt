-- ===== src/Config/Recovery.antt =====
-- What the migration and the unpairing of internal/config do to an account binding.
use seawise_client.Prelude.{
  ◌≡◌, refl, ◌⊎◌, inl, inr, Bool, true, false, Option, none, some, [], arith, Bool-cases,
  Option-cases, is_empty,
}
use seawise_client.Prelude.Bytes.{Bytes}
use seawise_client.Config.{
  Error, server_id_required, frp_token_required, write_failed, Machine, Account, File, missing,
  corrupt, holds, exists, Write, written, refused, renamed, write_file, save_machine, save_account,
  Disk,
}
use seawise_client.Config.Migrate.{
  Outcomes, remove_file, clean_up, seed_fresh_machine, move_account, split_legacy, migrate_legacy,
}

write_file_cases :
    (w : Write) (a : Account) (f : File Account)
    → (write_file w a f ≡ (some write_failed, f))
      ⊎ ((e : Option Error) × (write_file w a f ≡ (e, holds a)))
unfolding write_file
write_file_cases written a f = inr (none, refl)
write_file_cases refused a f = inl refl
write_file_cases renamed a f = inr (some write_failed, refl)

-- Saving the account keeps the old file and fails, or stores the account.
pub save_account_cases :
    (w : Write) (a : Account) (f : File Account)
    → ((err : Error) × (save_account w a f ≡ (some err, f)))
      ⊎ ((e : Option Error) × (save_account w a f ≡ (e, holds a)))
unfolding save_account
save_account_cases w a f = elim (Bool-cases (is_empty a.server_id)) [
  | inl bad ↦ inl (server_id_required, ground arith)
  | inr good ↦ elim (Bool-cases (is_empty a.frp_token)) [
    | inl bare ↦ inl (frp_token_required, ground arith)
    | inr full ↦ elim (write_file_cases w a f) [
      | inl kept ↦ inl (write_failed, ground arith)
      | inr (e, stored) ↦ inr (e, ground arith)
    ]
  ]
]

-- Neither file changed, or the account is stored.
abbrev pub IsMoved : Account → Disk → Disk → Type 0
IsMoved a d d' = ((d'.legacy ≡ d.legacy) × (d'.account ≡ d.account)) ⊎ (d'.account ≡ holds a)

move_account-IsMoved : (o : Outcomes) (a : Account) (d : Disk) → IsMoved a d (move_account o a d).1
unfolding move_account
move_account-IsMoved o a d = elim (save_account_cases o.account_write a d.account) [
  | inl (err, e) ↦ inl (ground arith, ground arith)
  | inr (none, e) ↦ inr (ground arith)
  | inr (some err, e) ↦ inr (ground arith)
]

split_legacy-IsMoved : (o : Outcomes) (a : Account) (d : Disk) → IsMoved a d (split_legacy o a d).1
unfolding split_legacy
split_legacy-IsMoved o a d = elim (Option-cases o.fresh_id) [
  | inl e ↦ inl (ground arith, ground arith)
  | inr (id, e) ↦
      let m : Machine = record { machine_id = id; machine_name = a.server_name; services = [] } in
      let d' : Disk = record d { machine = (save_machine o.machine_write m d.machine).1 } in
      elim (Option-cases (save_machine o.machine_write m d.machine).0) [
        | inl saved ↦ elim (move_account-IsMoved o a d') [
          | inl (l, k) ↦ inl (ground arith, ground arith)
          | inr k ↦ inr (ground arith)
        ]
        | inr (err, unsaved) ↦ inl (ground arith, ground arith)
      ]
]

seed_fresh_machine_keeps :
    (o : Outcomes) (d : Disk)
    → ((seed_fresh_machine o d).1.legacy ≡ d.legacy)
      × ((seed_fresh_machine o d).1.account ≡ d.account)
unfolding seed_fresh_machine
seed_fresh_machine_keeps o d = elim (Option-cases o.fresh_id) [
  | inl e ↦ (ground arith, ground arith)
  | inr (id, e) ↦ (ground arith, ground arith)
]

-- What a migration may do to the two files with a binding.
abbrev pub IsKept : Disk → Disk → Type 0
IsKept d d' =
    ((d'.legacy ≡ d.legacy) ⊎ (exists d'.account ≡ true))
    × ((d'.account ≡ d.account) ⊎ ((a : Account) × (d.legacy ≡ holds a) × (d'.account ≡ holds a)))

migrate_fresh :
    (o : Outcomes) (d : Disk) → exists d.machine ≡ false → IsKept d (migrate_legacy o d).1
unfolding migrate_legacy exists
migrate_fresh o d new =
    elim d.legacy as (λ f. d.legacy ≡ f → IsKept d (migrate_legacy o d).1) [
      | missing ↦
          λ l. let (k, j) = seed_fresh_machine_keeps o d in (inl (ground arith), inl (ground arith))
      | corrupt ↦ λ l. (inl (ground arith), inl (ground arith))
      | holds a ↦ λ l. elim (split_legacy-IsMoved o a d) [
        | inl (k, j) ↦ (inl (ground arith), inl (ground arith))
        | inr k ↦ (inr (ground arith), inr (a, l, ground arith))
      ]
    ]
      refl

-- However a migration ends, or crashes, a binding in the legacy file stays there unless
-- account.json exists afterwards; and account.json keeps its content or takes the legacy one.
pub migrate_legacy-IsKept : (o : Outcomes) (d : Disk) → IsKept d (migrate_legacy o d).1
unfolding migrate_legacy clean_up
migrate_legacy-IsKept o d = elim (Bool-cases (exists d.machine)) [
  | inr new ↦ migrate_fresh o d new
  | inl old ↦ elim (Bool-cases (exists d.account)) [
    | inl bound ↦ (inr (ground arith), inl (ground arith))
    | inr unbound ↦ (inl (ground arith), inl (ground arith))
  ]
]

-- From a legacy file with a server id and a token alone, a run without failures makes a machine
-- without services, moves the whole binding to account.json and removes the legacy file.
pub migrate_legacy_splits :
    (a : Account) (id : Bytes)
    → is_empty id ≡ false
    → is_empty a.server_id ≡ false
    → is_empty a.frp_token ≡ false
    → migrate_legacy
        (record {
          fresh_id = some id;
          machine_write = written;
          account_write = written;
          removes = true;
        })
        (record { machine = missing; account = missing; legacy = holds a })
      ≡ (
        none,
        record {
          machine = holds (record { machine_id = id; machine_name = a.server_name; services = [] });
          account = holds a;
          legacy = missing;
        },
      )
unfolding migrate_legacy split_legacy move_account save_machine save_account write_file remove_file
    exists
migrate_legacy_splits a id h k l = ground arith

-- Once machine.json exists and account.json does not, no run changes anything: the binding in the
-- legacy file is never moved, and every run reports success.
pub migrate_legacy_stuck :
    (o : Outcomes) (d : Disk)
    → exists d.machine ≡ true
    → exists d.account ≡ false
    → migrate_legacy o d ≡ (none, d)
unfolding migrate_legacy clean_up
migrate_legacy_stuck o d h k = ground arith

save_account_refused :
    (a : Account) (f : File Account) → (err : Error) × (save_account refused a f ≡ (some err, f))
unfolding save_account write_file
save_account_refused a f = elim (Bool-cases (is_empty a.server_id)) [
  | inl bad ↦ (server_id_required, ground arith)
  | inr good ↦ elim (Bool-cases (is_empty a.frp_token)) [
    | inl bare ↦ (frp_token_required, ground arith)
    | inr full ↦ (write_failed, ground arith)
  ]
]

-- On a disk with the legacy file alone, a write of account.json that fails before the file is replaced,
-- after machine.json was written, leads there: the run reports it, the binding stays in the legacy
-- file alone, and each later run reports success and changes nothing.
pub migrate_legacy_strands :
    (q : Outcomes) (a : Account) (id : Bytes) (removes : Bool)
    → is_empty id ≡ false
    → (d : Disk) × (err : Error) × (migrate_legacy
          (record {
            fresh_id = some id;
            machine_write = written;
            account_write = refused;
            removes = removes;
          })
          (record { machine = missing; account = missing; legacy = holds a })
        ≡ (some err, d))
      × (d.legacy ≡ holds a)
      × (d.account ≡ missing)
      × (migrate_legacy q d ≡ (none, d))
unfolding migrate_legacy split_legacy move_account save_machine write_file exists
migrate_legacy_strands q a id removes h =
    let (err, e) = save_account_refused a missing in
    let m : Machine = record { machine_id = id; machine_name = a.server_name; services = [] } in
    let d : Disk = record { machine = holds m; account = missing; legacy = holds a } in
    (d, err, ground arith, refl, refl, migrate_legacy_stuck q d refl refl)
