-- ===== src/Services/RoundTrip.antt =====
-- Adding and removing, registering and clearing, in cmd/seawise/server/service_sync.go.
use seawise_client.Prelude.{
  ◌≡◌, refl, ap, Bool, true, false, not, none, some, List, [], ◌∷◌, ◌++◌, map, arith, any, keep, ℤ,
  ◌∙◌, is_empty,
}
use seawise_client.Prelude.Bytes.{Bytes, ==_refl, Unicode, equal_fold}
use seawise_client.Config.{
  LocalService, Machine, File, holds, load, written, update_machine, save_machine, write_file,
}
use seawise_client.Services.{
  unregistered, add_change, add_local_service, has_local_id, remove_first, remove_change,
  remove_local_service, found_in, find_first,
}
use seawise_client.Services.Registration.{is_waiting, to_register}

-- Clearing the registrations, as unpairing does, leaves exactly the enabled services waiting to be
-- registered again, and no service loses its own settings.
pub to_register-clear :
    (ss : List LocalService)
    → to_register (map unregistered ss) ≡ map unregistered (keep (λ s. not s.disabled) ss)
unfolding to_register is_waiting
to_register-clear [] = refl
to_register-clear (s ∷ ss) = ground (arith, to_register-clear ss)

remove_first-append :
    (p : LocalService → Bool) (ss : List LocalService) (s : LocalService)
    → any p ss ≡ false
    → p s ≡ true
    → (remove_first p (ss ++ s ∷ []) ≡ ss) × (find_first p (ss ++ s ∷ []) ≡ some s)
unfolding remove_first find_first
remove_first-append p [] s h k = (ground arith, ground arith)
remove_first-append p (t ∷ ss) s h k =
    let (removed, found) = remove_first-append p ss s (ground arith) k in
    (ground arith, ground arith)

-- The service with a fresh local id that an addition makes.
abbrev pub new_service : Bytes → Bytes → Bytes → ℤ → Bytes → LocalService
new_service id name host port icon_url = record {
  local_id = id;
  name = name;
  host = host;
  port = port;
  icon_url = icon_url;
  server_service_id = [];
  subdomain = [];
  disabled = false;
}

add_local_service_written :
    (u : Unicode) (id name host : Bytes) (port : ℤ) (icon_url : Bytes) (m : Machine)
    → is_empty m.machine_id ≡ false
    → any (λ s. equal_fold u s.name name) m.services ≡ false
    → add_local_service u written (some id) name host port icon_url (holds m) ≡ (
      (some (new_service id name host port icon_url), none),
      holds (record m { services = m.services ++ new_service id name host port icon_url ∷ [] }),
    )
unfolding add_local_service add_change update_machine load save_machine write_file
add_local_service_written u id name host port icon_url m named free = ground arith

remove_local_service_written :
    (p : LocalService → Bool) (m : Machine)
    → is_empty m.machine_id ≡ false
    → remove_local_service written p (holds m)
      ≡ ((find_first p m.services, none), holds (record m { services = remove_first p m.services }))
unfolding remove_local_service remove_change update_machine load save_machine write_file found_in
remove_local_service_written p m named = ground arith

-- A service whose name is free can be added, and removing it by its local id answers with it and
-- leaves the file as it was, if both writes succeed and the local id is fresh.
remove_local_service-add_local_service :
    (u : Unicode) (id name host : Bytes) (port : ℤ) (icon_url : Bytes) (m : Machine)
    → is_empty m.machine_id ≡ false
    → any (has_local_id id) m.services ≡ false
    → any (λ s. equal_fold u s.name name) m.services ≡ false
    → (svc : LocalService) × (f' : File Machine) × (add_local_service u written
          (some id)
          name
          host
          port
          icon_url
          (holds m)
        ≡ ((some svc, none), f'))
      × (remove_local_service written (has_local_id id) f' ≡ ((some svc, none), holds m))
remove_local_service-add_local_service u id name host port icon_url m named fresh free =
    let svc = new_service id name host port icon_url in
    let (removed, found) =
      remove_first-append (has_local_id id) m.services svc fresh (==_refl id) in
    (
      svc,
      holds (record m { services = m.services ++ svc ∷ [] }),
      add_local_service_written u id name host port icon_url m named free,
      remove_local_service_written (has_local_id id)
            (record m { services = m.services ++ svc ∷ [] }) named
          ∙ ap
              (λ x. (
                (x, none),
                holds (record m {
                  services = remove_first (has_local_id id) (m.services ++ svc ∷ []);
                }),
              ))
              found
          ∙ ap (λ x. ((some svc, none), holds (record m { services = x }))) removed,
    )
