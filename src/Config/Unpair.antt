-- ===== src/Config/Unpair.antt =====
-- Delete and Save of internal/config/config.go, and the migration that follows at the next start.
use seawise_client.Prelude.{
  ◌≡◌, inl, inr, Bool, true, none, [], arith, Bool-cases, ◌∙◌, Option-cases,
}
use seawise_client.Config.{
  Machine, Account, File, missing, corrupt, holds, exists, Write, save_machine, Disk,
  delete_account, Saving, save_config, save_config_account,
}
use seawise_client.Config.Updates.{save_machine_exists}
use seawise_client.Config.Migrate.{Outcomes, remove_file, clean_up, migrate_legacy, delete}
use seawise_client.Config.Recovery.{save_account_cases, migrate_legacy-IsKept}

delete_account_gone :
    (goes : Bool) (f f' : File Account) → delete_account goes f ≡ (none, f') → f' ≡ missing
unfolding delete_account
delete_account_gone goes missing f' e = ground arith
delete_account_gone goes corrupt f' e = ground arith
delete_account_gone goes (holds a) f' e = ground arith

delete_gone :
    (account_goes : Bool) (d d' : Disk)
    → delete account_goes true d ≡ (none, d')
    → (d'.machine ≡ d.machine) × (d'.account ≡ missing) × (d'.legacy ≡ missing)
unfolding delete remove_file
delete_gone account_goes d d' e = elim (Option-cases (delete_account account_goes d.account).0) [
  | inl done ↦ (
    ground arith,
    ground (
      arith,
      delete_account_gone account_goes d.account (delete_account account_goes d.account).1
          (ground arith),
    ),
    ground arith,
  )
  | inr (err, undone) ↦ absurd (ground arith)
]

-- A successful unpairing is final: it keeps the machine, and no later start, however it ends,
-- brings a binding back.
migrate_legacy-delete :
    (o : Outcomes) (account_goes : Bool) (d d' : Disk)
    → delete account_goes true d ≡ (none, d')
    → (d'.machine ≡ d.machine) × ((migrate_legacy o d').1.account ≡ missing)
migrate_legacy-delete o account_goes d d' e =
    let (machine, account, legacy) = delete_gone account_goes d d' e in
    (
      machine,
      elim (migrate_legacy-IsKept o d').1 [
        | inl same ↦ same ∙ account
        | inr (a, held, stored) ↦ absurd (ground arith)
      ],
    )

save_config_account_stores :
    (w : Write) (c : Account) (d d' : Disk)
    → save_config_account w c d ≡ (none, d')
    → (d'.machine ≡ d.machine) × (d'.legacy ≡ d.legacy) × (d'.account ≡ holds c)
unfolding save_config_account
save_config_account_stores w c d d' e = elim (save_account_cases w c d.account) [
  | inl (err, kept) ↦ absurd (ground arith)
  | inr (err, stored) ↦ (ground arith, ground arith, ground arith)
]

pub save_config_stores :
    (s : Saving) (c : Account) (d d' : Disk)
    → save_config s c d ≡ (none, d')
    → (exists d'.machine ≡ true) × (d'.account ≡ holds c)
unfolding save_config
save_config_stores s c d d' e = elim (Bool-cases (exists d.machine)) [
  | inl old ↦
      let (m, l, a) = save_config_account_stores s.account_write c d d' (ground arith) in
      (ground arith, a)
  | inr new ↦ elim (Option-cases s.fresh_id) [
    | inl no_id ↦ absurd (ground arith)
    | inr (id, i) ↦
        let n : Machine = record { machine_id = id; machine_name = c.server_name; services = [] } in
        let saving = save_machine s.machine_write n d.machine in
        elim (Option-cases saving.0) [
          | inl saved ↦
              let (m, l, a) =
                save_config_account_stores s.account_write c (record d { machine = saving.1 }) d'
                  (ground arith) in
              (ground (arith, save_machine_exists s.machine_write n d.machine saved), a)
          | inr (err, unsaved) ↦ absurd (ground arith)
        ]
  ]
]

-- A successful Save after any history leaves a machine and the binding it was given, and the next
-- migration, however it ends, keeps both.
migrate_legacy-save_config :
    (o : Outcomes) (s : Saving) (c : Account) (d d' : Disk)
    → save_config s c d ≡ (none, d')
    → (exists d'.machine ≡ true)
      × (d'.account ≡ holds c)
      × ((migrate_legacy o d').0 ≡ none)
      × ((migrate_legacy o d').1.machine ≡ d'.machine)
      × ((migrate_legacy o d').1.account ≡ holds c)
unfolding migrate_legacy clean_up exists
migrate_legacy-save_config o s c d d' e =
    let (m, a) = save_config_stores s c d d' e in (m, a, ground arith, ground arith, ground arith)
