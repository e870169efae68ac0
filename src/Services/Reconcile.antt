-- ===== src/Services/Reconcile.antt =====
-- What reconcileMachineServicesWithServer of cmd/seawise/server/service_sync.go does.
use seawise_client.Prelude.{◌≡◌, ◌⊎◌, Bool, true, ◌||◌, List, all, any, is_empty}
use seawise_client.Prelude.Bytes.{Bytes}
use seawise_client.Config.{LocalService, Machine, File, holds}
use seawise_client.Services.Registration.{on_server, has_vanished}

-- A service that is left registered after a successful reconciliation is one the server lists.
abbrev pub is_listed : List Bytes → LocalService → Bool
is_listed ids s = is_empty s.server_service_id || on_server ids s.server_service_id

-- The file g before and f' after the last step of a reconciliation that answers `dropped`: the
-- services left registered are ones the server lists, the answer is whether one was not, and if
-- none was, the services are the same.
abbrev pub IsReconciled : List Bytes → File Machine → Bool → File Machine → Type 0
IsReconciled ids g dropped f' =
    (m : Machine) × (m' : Machine) × (g ≡ holds m)
    × (f' ≡ holds m')
    × (all (is_listed ids) m'.services ≡ true)
    × (dropped ≡ any (has_vanished ids) m.services)
    × ((dropped ≡ true) ⊎ (m'.services ≡ m.services))
