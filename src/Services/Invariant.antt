-- ===== src/Services/Invariant.antt =====
-- The invariant of machine.json over the functions of cmd/seawise/server/service_sync.go.
use seawise_client.Prelude.{
  ◌≡◌, refl, inl, inr, Bool, true, false, not, ◌&&◌, ◌||◌, some, List, [], ◌∷◌, ◌++◌, map, arith,
  Bool-cases, all, any, Option-cases, all-append, is_empty,
}
use seawise_client.Prelude.Bytes.{◌==◌, Unicode, equal_fold}
use seawise_client.Config.{
  LocalService, Machine, File, holds, corrupt, missing, Write, written, refused, renamed,
  write_file, Change, changed, save_machine, update_machine, load,
}
use seawise_client.Config.Updates.{Change-cases}
use seawise_client.Services.{update_first, has_local_id, remove_first}

-- A disabled service is not registered, if the flag asks for that.
abbrev pub is_settled : Bool → LocalService → Bool
is_settled careful s =
    not careful || not s.disabled || (is_empty s.server_service_id && is_empty s.subdomain)

-- Two services the client tells apart: by local id, and by name whatever its case.
abbrev pub differs : Unicode → LocalService → LocalService → Bool
differs u t s = not (s.local_id == t.local_id) && not (equal_fold u s.name t.name)

-- Each later service differs from the earlier ones.
abbrev pub distinct : Unicode → List LocalService → Bool
distinct u [] = true
distinct u (s ∷ ss) = all (λ t. differs u t s) ss && distinct u ss

abbrev pub well_formed : Bool → Unicode → List LocalService → Bool
well_formed careful u ss = all (is_settled careful) ss && distinct u ss

abbrev pub IsWellFormed : Bool → Unicode → File Machine → Type 0
IsWellFormed careful u (holds m) = well_formed careful u m.services ≡ true
IsWellFormed careful u missing = Unit
IsWellFormed careful u corrupt = Unit

-- A change of one service that keeps its name and local id and leaves it settled.
unfoldable pub IsTame : Bool → (LocalService → LocalService) → Type 0
IsTame careful g =
    (s : LocalService)
    → ((g s).name ≡ s.name)
      × ((g s).local_id ≡ s.local_id)
      × (is_settled careful s ≡ true → is_settled careful (g s) ≡ true)

module _ (careful : Bool) (u : Unicode) where
  all-differs-map :
      (g : LocalService → LocalService) (tame : IsTame careful g) (s : LocalService)
      (ss : List LocalService)
      → all (λ t. differs u t s) ss ≡ true
      → all (λ t. differs u t (g s)) (map g ss) ≡ true
  unfolding IsTame
  all-differs-map g tame s [] h = refl
  all-differs-map g tame s (t ∷ ss) h =
      let a = tame s in
      let b = tame t in
      ground (arith, a.0, a.1, b.0, b.1, all-differs-map g tame s ss (ground arith))

  pub well_formed-map :
      (g : LocalService → LocalService) (tame : IsTame careful g) (ss : List LocalService)
      → well_formed careful u ss ≡ true
      → well_formed careful u (map g ss) ≡ true
  unfolding IsTame
  well_formed-map g tame [] h = refl
  well_formed-map g tame (s ∷ ss) h = ground (
    arith,
    (tame s).2 (ground arith),
    all-differs-map g tame s ss (ground arith),
    well_formed-map g tame ss (ground arith),
  )

  pub all_weaken :
      (p q : LocalService → Bool) (imp : (s : LocalService) → p s ≡ true → q s ≡ true)
      (ss : List LocalService)
      → all p ss ≡ true
      → all q ss ≡ true
  all_weaken p q imp [] h = refl
  all_weaken p q imp (s ∷ ss) h =
      ground (arith, imp s (ground arith), all_weaken p q imp ss (ground arith))

  module _ (p : LocalService → Bool) (g : LocalService → LocalService)
      (names : (s : LocalService) → (g s).name ≡ s.name)
      (ids : (s : LocalService) → (g s).local_id ≡ s.local_id) where
    all-differs-update_first :
        (s : LocalService) (ss ss' : List LocalService)
        → update_first p g ss ≡ some ss'
        → all (λ t. differs u t s) ss ≡ true
        → all (λ t. differs u t s) ss' ≡ true
    unfolding update_first
    all-differs-update_first s [] ss' e h = absurd (ground arith)
    all-differs-update_first s (t ∷ ss) ss' e h = elim (Option-cases (update_first p g ss)) [
      | inl gone ↦ ground (arith, names t, ids t)
      | inr (later, found) ↦
          ground (arith, names t, ids t, all-differs-update_first s ss later found (ground arith))
    ]

    all-renamed :
        (t : LocalService) (ss : List LocalService)
        → all (λ s. differs u s (g t)) ss ≡ all (λ s. differs u s t) ss
    all-renamed t [] = refl
    all-renamed t (s ∷ ss) = ground (arith, names t, ids t, all-renamed t ss)

    pub well_formed-update_first :
        (ss ss' : List LocalService)
        → update_first p g ss ≡ some ss'
        → well_formed careful u ss ≡ true
        → all (λ s. not (p s) || is_settled careful (g s)) ss ≡ true
        → well_formed careful u ss' ≡ true
    unfolding update_first
    well_formed-update_first [] ss' e h k = absurd (ground arith)
    well_formed-update_first (t ∷ ss) ss' e h k = elim (Option-cases (update_first p g ss)) [
      | inl gone ↦ ground (arith, names t, ids t, all-renamed t ss)
      | inr (later, found) ↦ ground (
        arith,
        names t,
        ids t,
        all-renamed t ss,
        all-differs-update_first t ss later found (ground arith),
        well_formed-update_first ss later found (ground arith) (ground arith),
      )
    ]

  all-remove_first :
      (q p : LocalService → Bool) (ss : List LocalService)
      → all q ss ≡ true
      → all q (remove_first p ss) ≡ true
  unfolding remove_first
  all-remove_first q p [] h = refl
  all-remove_first q p (s ∷ ss) h = ground (arith, all-remove_first q p ss (ground arith))

  pub well_formed-remove_first :
      (p : LocalService → Bool) (ss : List LocalService)
      → well_formed careful u ss ≡ true
      → well_formed careful u (remove_first p ss) ≡ true
  unfolding remove_first
  well_formed-remove_first p [] h = refl
  well_formed-remove_first p (s ∷ ss) h = ground (
    arith,
    all-remove_first (λ t. differs u t s) p ss (ground arith),
    well_formed-remove_first p ss (ground arith),
  )

  pub distinct-append :
      (ss : List LocalService) (new : LocalService)
      → distinct u ss ≡ true
      → any (has_local_id new.local_id) ss ≡ false
      → any (λ s. equal_fold u s.name new.name) ss ≡ false
      → distinct u (ss ++ new ∷ []) ≡ true
  distinct-append [] new h k l = refl
  distinct-append (s ∷ ss) new h k l = ground (
    arith,
    all-append (λ t. differs u t s) ss (new ∷ []),
    distinct-append ss new (ground arith) (ground arith) (ground arith),
  )

  write_file-IsWellFormed :
      (w : Write) (m : Machine) (f : File Machine)
      → IsWellFormed careful u f
      → well_formed careful u m.services ≡ true
      → IsWellFormed careful u (write_file w m f).1
  unfolding write_file
  write_file-IsWellFormed written m f h k = k
  write_file-IsWellFormed refused m f h k = h
  write_file-IsWellFormed renamed m f h k = k

  save_machine-IsWellFormed :
      (w : Write) (m : Machine) (f : File Machine)
      → IsWellFormed careful u f
      → well_formed careful u m.services ≡ true
      → IsWellFormed careful u (save_machine w m f).1
  unfolding save_machine
  save_machine-IsWellFormed w m f h k = elim (Bool-cases (is_empty m.machine_id)) [
    | inl bad ↦ rw bad h
    | inr good ↦ rw good (write_file-IsWellFormed w m f h k)
  ]

  -- Whatever way its write ends, an update keeps what its change keeps.
  pub update_machine-IsWellFormed :
      (w : Write) (change : Machine → Change) (f : File Machine)
      → IsWellFormed careful u f
      → ((m m' : Machine)
          → load f ≡ some m
          → change m ≡ changed m'
          → well_formed careful u m.services ≡ true
          → well_formed careful u m'.services ≡ true)
      → IsWellFormed careful u (update_machine w change f).1
  unfolding update_machine load
  update_machine-IsWellFormed w change missing h k = h
  update_machine-IsWellFormed w change corrupt h k = h
  update_machine-IsWellFormed w change (holds m) h k = elim (Change-cases (change m)) [
    | inl (err, e) ↦ rw e h
    | inr (m', e) ↦ rw e (save_machine-IsWellFormed w m' (holds m) h (k m m' refl e h))
  ]
