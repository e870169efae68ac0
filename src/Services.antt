-- ===== src/Services.antt =====
-- cmd/seawise/server/service_sync.go: the local services, their registration on the server, and
-- the tunnels that follow from both. Each function takes how the write of machine.json ends.
pub mod Registration
pub mod Invariant
pub mod Preserved
pub mod History
pub mod Reconcile
pub mod Registering
pub mod Tunnels
pub mod RoundTrip
mod Tests
use seawise_client.Prelude.{
  Bool, true, false, Option, none, some, List, [], ◌∷◌, ◌++◌, map, if◌then◌else◌, any, ℤ,
}
use seawise_client.Prelude.Bytes.{Bytes, ◌==◌, Unicode, equal_fold}
use seawise_client.Config.{
  Error, generate_failed, duplicate_service_name, unknown_local_id, LocalService, Machine, File,
  Write, Change, changed, failed, update_machine,
}

add_change : Unicode → LocalService → Machine → Change
add_change u svc m =
    if any (λ existing. equal_fold u existing.name svc.name) m.services
    then failed duplicate_service_name
    else changed (record m { services = m.services ++ svc ∷ [] })

-- `local_id` is what GenerateLocalID returns.
unfoldable pub add_local_service :
    Unicode
    → Write
    → Option Bytes
    → Bytes
    → Bytes
    → ℤ
    → Bytes
    → File Machine
    → (Option LocalService × Option Error) × File Machine
unfolding add_change
add_local_service u w none name host port icon_url f = ((none, some generate_failed), f)
add_local_service u w (some local_id) name host port icon_url f =
    let svc : LocalService = record {
      local_id = local_id;
      name = name;
      host = host;
      port = port;
      icon_url = icon_url;
      server_service_id = [];
      subdomain = [];
      disabled = false;
    } in
    let (e, f') = update_machine w (add_change u svc) f in
    elim e [ some err ↦ ((none, some err), f') | none ↦ ((some svc, none), f') ]

-- The first service that passes a test is changed; `none` if none does.
unfoldable pub update_first :
    (LocalService → Bool)
    → (LocalService → LocalService)
    → List LocalService
    → Option (List LocalService)
update_first p g [] = none
update_first p g (s ∷ ss) =
    let later : Option (List LocalService) = elim (update_first p g ss) [
      | none ↦ none
      | some ss' ↦ some (s ∷ ss')
    ] in
    if p s then some (g s ∷ ss) else later

abbrev pub has_local_id : Bytes → LocalService → Bool
has_local_id id s = s.local_id == id

abbrev pub registered_as : Bytes → Bytes → LocalService → LocalService
registered_as id subdomain s = record s { server_service_id = id; subdomain = subdomain }

abbrev pub unregistered : LocalService → LocalService
unregistered s = record s { server_service_id = []; subdomain = [] }

unfoldable pub record_change : Bytes → Bytes → Bytes → Machine → Change
record_change local_id server_service_id subdomain m =
    elim (update_first (has_local_id local_id) (registered_as server_service_id subdomain)
      m.services) [
        | none ↦ failed unknown_local_id
        | some ss ↦ changed (record m { services = ss })
      ]

unfoldable pub record_server_registration :
    Write → Bytes → Bytes → Bytes → File Machine → Option Error × File Machine
unfolding record_change
record_server_registration w local_id server_service_id subdomain f =
    update_machine w (record_change local_id server_service_id subdomain) f

-- The first service that passes a test, and the list without it.
unfoldable pub find_first : (LocalService → Bool) → List LocalService → Option LocalService
find_first p [] = none
find_first p (s ∷ ss) = let later = find_first p ss in if p s then some s else later

unfoldable pub remove_first : (LocalService → Bool) → List LocalService → List LocalService
remove_first p [] = []
remove_first p (s ∷ ss) = let rest = s ∷ remove_first p ss in if p s then ss else rest

unfoldable pub remove_change : (LocalService → Bool) → Machine → Change
unfolding remove_first
remove_change p m = changed (record m { services = remove_first p m.services })

unfoldable pub found_in : (LocalService → Bool) → File Machine → Option LocalService
unfolding find_first
found_in p (File.holds m) = find_first p m.services
found_in p _ = none

-- (removed, err), and the file.
unfoldable pub remove_local_service :
    Write
    → (LocalService → Bool)
    → File Machine
    → (Option LocalService × Option Error) × File Machine
unfolding remove_change found_in
remove_local_service w p f =
    let (e, f') = update_machine w (remove_change p) f in
    elim e [ some err ↦ ((none, some err), f') | none ↦ ((found_in p f, none), f') ]

unfoldable pub disabled_as : Bool → LocalService → LocalService
disabled_as disabled s =
    if disabled then record (unregistered s) { disabled = true } else record s { disabled = false }

unfoldable pub disable_change : Bytes → Bool → Machine → Change
unfolding update_first disabled_as
disable_change local_id disabled m =
    elim (update_first (has_local_id local_id) (disabled_as disabled) m.services) [
      | none ↦ changed m
      | some ss ↦ changed (record m { services = ss })
    ]

-- (updated, err), and the file.
unfoldable pub set_local_service_disabled :
    Write → Bytes → Bool → File Machine → (Option LocalService × Option Error) × File Machine
unfolding disable_change found_in
set_local_service_disabled w local_id disabled f =
    let (e, f') = update_machine w (disable_change local_id disabled) f in
    (
      (
        elim (found_in (has_local_id local_id) f) [
          | none ↦ none
          | some s ↦ some (disabled_as disabled s)
        ],
        e,
      ),
      f',
    )

unfoldable pub clear_change : Machine → Change
clear_change m = changed (record m { services = map unregistered m.services })

unfoldable pub clear_server_registrations : Write → File Machine → Option Error × File Machine
unfolding clear_change
clear_server_registrations w f = update_machine w clear_change f
