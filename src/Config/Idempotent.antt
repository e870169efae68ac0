-- ===== src/Config/Idempotent.antt =====
-- MigrateLegacy of internal/config/migrate.go when it is run again.
use seawise_client.Prelude.{
  ◌≡◌, refl, inl, inr, true, false, none, [], arith, Bool-cases, Option-cases,
}
use seawise_client.Config.{
  Machine, Account, missing, corrupt, holds, exists, save_machine, save_account, Disk,
}
use seawise_client.Config.Updates.{save_machine_exists}
use seawise_client.Config.Migrate.{
  Outcomes, remove_file, clean_up, seed_fresh_machine, move_account, split_legacy, migrate_legacy,
}

-- A disk on which a migration changes nothing: machine.json exists, and next to account.json no
-- legacy file does.
abbrev pub IsDone : Disk → Type 0
IsDone d = (exists d.machine ≡ true) × (exists d.account ≡ true → d.legacy ≡ missing)

migrate_legacy_done : (q : Outcomes) (d : Disk) → IsDone d → migrate_legacy q d ≡ (none, d)
unfolding migrate_legacy clean_up remove_file
migrate_legacy_done q d (m, l) = elim (Bool-cases (exists d.account)) [
  | inl bound ↦ ground (arith, l bound)
  | inr unbound ↦ ground arith
]

move_account-IsDone :
    (o : Outcomes) (a : Account) (d d' : Disk)
    → o.removes ≡ true
    → exists d.machine ≡ true
    → move_account o a d ≡ (none, d')
    → IsDone d'
unfolding move_account remove_file
move_account-IsDone o a d d' r m e =
    elim (Option-cases (save_account o.account_write a d.account).0) [
      | inl saved ↦ (ground arith, λ b. ground arith)
      | inr (err, unsaved) ↦ absurd (ground arith)
    ]

split_legacy-IsDone :
    (o : Outcomes) (a : Account) (d d' : Disk)
    → o.removes ≡ true
    → split_legacy o a d ≡ (none, d')
    → IsDone d'
unfolding split_legacy
split_legacy-IsDone o a d d' r e = elim (Option-cases o.fresh_id) [
  | inl no_id ↦ absurd (ground arith)
  | inr (id, i) ↦
      let m : Machine = record { machine_id = id; machine_name = a.server_name; services = [] } in
      elim (Option-cases (save_machine o.machine_write m d.machine).0) [
        | inl saved ↦
            move_account-IsDone o a
              (record d { machine = (save_machine o.machine_write m d.machine).1 }) d' r
              (save_machine_exists o.machine_write m d.machine saved) (ground arith)
        | inr (err, unsaved) ↦ absurd (ground arith)
      ]
]

seed_fresh_machine-IsDone :
    (o : Outcomes) (d d' : Disk)
    → d.legacy ≡ missing
    → seed_fresh_machine o d ≡ (none, d')
    → IsDone d'
unfolding seed_fresh_machine
seed_fresh_machine-IsDone o d d' l e = elim (Option-cases o.fresh_id) [
  | inl no_id ↦ absurd (ground arith)
  | inr (id, i) ↦
      let m : Machine = record { machine_id = id; machine_name = []; services = [] } in
      (
        ground (arith, save_machine_exists o.machine_write m d.machine (ground arith)),
        λ b. ground arith,
      )
]

migrate_fresh-IsDone :
    (o : Outcomes) (d d' : Disk)
    → o.removes ≡ true
    → exists d.machine ≡ false
    → migrate_legacy o d ≡ (none, d')
    → IsDone d'
unfolding migrate_legacy
migrate_fresh-IsDone o d d' r new e =
    elim d.legacy as (λ f. d.legacy ≡ f → IsDone d') [
      | missing ↦ λ l. seed_fresh_machine-IsDone o d d' l (ground arith)
      | corrupt ↦ λ l. absurd (ground arith)
      | holds a ↦ λ l. split_legacy-IsDone o a d d' r (ground arith)
    ]
      refl

-- After a run without an error whose removal works, a second run changes nothing.
migrate_legacy-idempotent :
    (o q : Outcomes) (d d' : Disk)
    → o.removes ≡ true
    → migrate_legacy o d ≡ (none, d')
    → migrate_legacy q d' ≡ (none, d')
unfolding migrate_legacy clean_up remove_file
migrate_legacy-idempotent o q d d' r e =
    migrate_legacy_done q d' (elim (Bool-cases (exists d.machine)) [
      | inr new ↦ migrate_fresh-IsDone o d d' r new e
      | inl old ↦ (ground arith, λ b. ground arith)
    ])
