-- ===== src/Services/History.antt =====
-- What holds of machine.json after any history of the functions of
-- cmd/seawise/server/service_sync.go, calls that overlap with others included.
use seawise_client.Prelude.{◌≡◌, Bool, true, Option, some, ℤ}
use seawise_client.Prelude.Bytes.{Bytes, Unicode}
use seawise_client.Config.{LocalService, Machine, File, Write}
use seawise_client.Services.{
  add_local_service, record_server_registration, remove_local_service, set_local_service_disabled,
  clear_server_registrations,
}
use seawise_client.Services.Registration.{
  Client, register_local_services, reconcile_machine_services_with_server,
}
use seawise_client.Services.Invariant.{IsWellFormed}
use seawise_client.Services.Preserved.{
  IsFresh, IsEnabled, add_local_service-IsWellFormed, record_server_registration-IsWellFormed,
  remove_local_service-IsWellFormed, set_local_service_disabled-IsWellFormed,
  clear_server_registrations-IsWellFormed, register_local_services-IsWellFormed,
  reconcile_machine_services_with_server-IsWellFormed,
}

-- Histories of the file. A registration or a reconciliation may have any history of other calls
-- between its read of the file and its update of it. In a careful history a registration is recorded
-- for a service that is not disabled at that time; the code does not look.
pub data Reaches (careful : Bool) (u : Unicode) : File Machine → File Machine → Type 0 where
  start : {f : File Machine} → Reaches careful u f f
  added :
      {f g : File Machine} (w : Write) (local_id : Option Bytes) (name host : Bytes) (port : ℤ)
      (icon_url : Bytes)
      → ((id : Bytes) → local_id ≡ some id → IsFresh id g)
      → Reaches careful u f g
      → Reaches careful u f (add_local_service u w local_id name host port icon_url g).1
  recorded :
      {f g : File Machine} (w : Write) (local_id server_service_id subdomain : Bytes)
      → (careful ≡ true → IsEnabled local_id g)
      → Reaches careful u f g
      → Reaches careful u f (record_server_registration w local_id server_service_id subdomain g).1
  removed :
      {f g : File Machine} (w : Write) (match : LocalService → Bool)
      → Reaches careful u f g
      → Reaches careful u f (remove_local_service w match g).1
  switched :
      {f g : File Machine} (w : Write) (local_id : Bytes) (disabled : Bool)
      → Reaches careful u f g
      → Reaches careful u f (set_local_service_disabled w local_id disabled g).1
  cleared :
      {f g : File Machine} (w : Write)
      → Reaches careful u f g
      → Reaches careful u f (clear_server_registrations w g).1
  registered :
      {f g g' : File Machine} (w : Write) (client : Option Client)
      → Reaches careful u f g
      → Reaches careful u g g'
      → Reaches careful u f (register_local_services w (λ h. g') client g).1
  reconciled :
      {f g g' h h' : File Machine} (w v : Write) (client : Option Client)
      → Reaches careful u f g
      → Reaches careful u g g'
      → h ≡ (register_local_services w (λ i. g') client g).1
      → Reaches careful u h h'
      → Reaches careful u f
          (reconcile_machine_services_with_server w v (λ i. g') (λ i. h') client g).1

-- Whatever the history of a well-formed file, calls that overlap included, the services have
-- different local ids and names that differ in more than case, as long as each new local id is
-- fresh; and no disabled one is registered if the history is careful.
pub history-IsWellFormed :
    (careful : Bool) (u : Unicode) {f g : File Machine}
    → Reaches careful u f g
    → IsWellFormed careful u f
    → IsWellFormed careful u g
history-IsWellFormed careful u start h = h
history-IsWellFormed careful u (added {g = g} w id name host port icon_url fresh r) h =
    add_local_service-IsWellFormed careful u w id name host port icon_url g fresh
      (history-IsWellFormed careful u r h)
history-IsWellFormed careful u (recorded {g = g} w id server_id subdomain enabled r) h =
    record_server_registration-IsWellFormed careful u w id server_id subdomain g enabled
      (history-IsWellFormed careful u r h)
history-IsWellFormed careful u (removed {g = g} w p r) h =
    remove_local_service-IsWellFormed careful u w p g (history-IsWellFormed careful u r h)
history-IsWellFormed careful u (switched {g = g} w id disabled r) h =
    set_local_service_disabled-IsWellFormed careful u w id disabled g
      (history-IsWellFormed careful u r h)
history-IsWellFormed careful u (cleared {g = g} w r) h =
    clear_server_registrations-IsWellFormed careful u w g (history-IsWellFormed careful u r h)
history-IsWellFormed careful u (registered {g = g} {g' = g'} w client r r') h =
    let k = history-IsWellFormed careful u r h in
    register_local_services-IsWellFormed careful u w client g g' k
      (history-IsWellFormed careful u r' k)
history-IsWellFormed careful u (reconciled {g = g} {g' = g'} {h' = i'} w v client r r' e q) h =
    let k = history-IsWellFormed careful u r h in
    let j =
      register_local_services-IsWellFormed careful u w client g g' k
        (history-IsWellFormed careful u r' k) in
    reconcile_machine_services_with_server-IsWellFormed careful u w v client g g' i' k
      (history-IsWellFormed careful u q (rw e j))
