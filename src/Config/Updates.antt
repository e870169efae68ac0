-- ===== src/Config/Updates.antt =====
-- What UpdateMachine of internal/config/machine.go leaves when it succeeds.
use seawise_client.Prelude.{◌≡◌, refl, ◌⊎◌, inl, inr, true, none, arith, Bool-cases, is_empty}
use seawise_client.Config.{
  exists, Error, Machine, File, holds, missing, corrupt, load, Write, written, refused, renamed,
  Change, changed, failed, update_machine, save_machine, write_file,
}

pub Change-cases : (c : Change) → ((e : Error) × (c ≡ failed e)) ⊎ ((m : Machine) × (c ≡ changed m))
Change-cases (changed m) = inr (m, refl)
Change-cases (failed e) = inl (e, refl)

pub save_machine_written :
    (w : Write) (m : Machine) (f f' : File Machine) → save_machine w m f ≡ (none, f') → f' ≡ holds m
unfolding save_machine write_file
save_machine_written written m f f' e = elim (Bool-cases (is_empty m.machine_id)) [
  | inl bad ↦ absurd (ground arith)
  | inr good ↦ ground arith
]
save_machine_written refused m f f' e =
    absurd (elim (Bool-cases (is_empty m.machine_id)) [
      | inl bad ↦ ground arith
      | inr good ↦ ground arith
    ])
save_machine_written renamed m f f' e =
    absurd (elim (Bool-cases (is_empty m.machine_id)) [
      | inl bad ↦ ground arith
      | inr good ↦ ground arith
    ])

-- An update whose write succeeds stores the changed machine.
pub update_machine_written :
    (w : Write) (change : Machine → Change) (f f' : File Machine)
    → update_machine w change f ≡ (none, f')
    → (m : Machine) × (m' : Machine) × (f ≡ holds m) × (change m ≡ changed m') × (f' ≡ holds m')
unfolding update_machine load save_machine write_file
update_machine_written w change missing f' e = absurd (ground arith)
update_machine_written w change corrupt f' e = absurd (ground arith)
update_machine_written w change (holds m) f' e = elim (Change-cases (change m)) [
  | inl (err, c) ↦ absurd (ground arith)
  | inr (m', c) ↦ (m, m', refl, c, save_machine_written w m' (holds m) f' (ground arith))
]

pub save_machine_exists :
    (w : Write) (m : Machine) (f : File Machine)
    → (save_machine w m f).0 ≡ none
    → exists (save_machine w m f).1 ≡ true
unfolding exists
save_machine_exists w m f e =
    ground (arith, save_machine_written w m f (save_machine w m f).1 (ground arith))
