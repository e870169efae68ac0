-- ===== src/Config/Atomic.antt =====
-- writeAtomic of internal/config/atomic.go: the target and the temporary file next to it.
use seawise_client.Prelude.{
  ◌≡◌, ◌⊎◌, inl, inr, Bool, true, false, not, ◌&&◌, Option, none, some, arith, if◌then◌else◌,
  Bool-cases,
}
use seawise_client.Config.{
  Error, File, missing, corrupt, holds, Write, written, refused, renamed, write_file,
}

pub record Slot (A : Type 0) : Type 0 where
  pub target : File A
  pub temp : File A

-- Which of its steps succeed; `removes` is about the removal after a failure.
pub record Steps : Type 0 where
  pub opens : Bool
  pub writes : Bool
  pub syncs : Bool
  pub closes : Bool
  pub renames : Bool
  pub syncs_dir : Bool
  pub removes : Bool

-- The deferred removal of the temporary file.
unfoldable pub remove_temp : {A : Type 0} → Steps → Slot A → Slot A
remove_temp st s = if st.removes then record s { temp = missing } else s

-- Whether it succeeds, and the two files. An unfinished temporary file is `corrupt`.
unfoldable pub write_atomic : {A : Type 0} → Steps → A → Slot A → Bool × Slot A
unfolding remove_temp
write_atomic st a s =
    if not st.opens
    then (false, s)
    else if not st.writes
    then (false, remove_temp st (record s { temp = corrupt }))
    else if not st.syncs
    then (false, remove_temp st (record s { temp = corrupt }))
    else if not st.closes
    then (false, remove_temp st (record s { temp = corrupt }))
    else if not st.renames
    then (false, remove_temp st (record s { temp = holds a }))
    else if not st.syncs_dir
    then (false, remove_temp st (record { target = holds a; temp = missing }))
    else (true, record { target = holds a; temp = missing })

-- How a write ends by its steps.
unfoldable pub outcome : Steps → Write
outcome st =
    if not (st.opens && st.writes && st.syncs && st.closes && st.renames)
    then refused
    else if st.syncs_dir
    then written
    else renamed

abbrev pub is_none : Option Error → Bool
is_none none = true
is_none (some e) = false

-- Whichever steps fail, an atomic write ends as its outcome says: the target is the old file or
-- holds the whole new content, a success says that it is the new one, and no temporary file stays
-- after a success or a removal that works, if there was none.
pub write_atomic-write_file :
    {A : Type 0} (st : Steps) (a : A) (s : Slot A)
    → ((write_atomic st a s).1.target ≡ (write_file (outcome st) a s.target).1)
      × ((write_atomic st a s).0 ≡ is_none (write_file (outcome st) a s.target).0)
      × (((write_atomic st a s).1.temp ≡ s.temp)
          ⊎ ((write_atomic st a s).1.temp ≡ missing)
          ⊎ (st.removes ≡ false))
unfolding write_atomic remove_temp outcome write_file
write_atomic-write_file st a s = (
  ground arith,
  ground arith,
  elim (Bool-cases st.removes) [
    | inr stays ↦ inr (inr stays)
    | inl gone ↦ elim (Bool-cases st.opens) [
      | inl opened ↦ inr (inl (ground arith))
      | inr shut ↦ inl (ground arith)
    ]
  ],
)
