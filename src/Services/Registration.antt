-- ===== src/Services/Registration.antt =====
-- registerLocalServices and reconcileMachineServicesWithServer of
-- cmd/seawise/server/service_sync.go. What the server answers is a parameter, and so is what
-- becomes of machine.json between the read before the call and the update after it.
use seawise_client.Prelude.{
  Bool, true, false, not, ◌&&◌, ◌||◌, Option, none, some, List, [], ◌∷◌, map, if◌then◌else◌, any,
  keep, ℤ, is_empty,
}
use seawise_client.Prelude.Bytes.{Bytes, ◌==◌}
use seawise_client.Config.{
  Error, read_failed, remote_failed, nil_client, LocalService, Machine, File, load, Write, Change,
  changed, update_machine,
}
use seawise_client.Services.{registered_as, unregistered}

pub record BatchServiceInput : Type 0 where
  pub input_name : Bytes
  pub input_host : Bytes
  pub input_port : ℤ
  pub input_icon_url : Bytes

pub record BatchRegisterResult : Type 0 where
  pub id : Bytes
  pub requested_name : Bytes
  pub result_name : Bytes
  pub result_host : Bytes
  pub result_port : ℤ
  pub result_subdomain : Bytes
  pub status : Bytes

-- The calls of api.Client: `none` is an error. ListServices is kept by the ids it lists.
pub record Client : Type 0 where
  pub batch_register_services : List BatchServiceInput → Option (List BatchRegisterResult)
  pub list_services : Option (List Bytes)

unfoldable pub is_waiting : LocalService → Bool
is_waiting s = is_empty s.server_service_id && not s.disabled

unfoldable pub to_register : List LocalService → List LocalService
unfolding is_waiting
to_register ss = keep is_waiting ss

unfoldable pub input_of : LocalService → BatchServiceInput
input_of s = record {
  input_name = s.name;
  input_host = s.host;
  input_port = s.port;
  input_icon_url = s.icon_url;
}

unfoldable pub result_key : BatchRegisterResult → Bytes
result_key r = if is_empty r.requested_name then r.result_name else r.requested_name

-- The map built from the results: the last one of a name stays.
unfoldable pub result_by_name : List BatchRegisterResult → Bytes → Option BatchRegisterResult
unfolding result_key
result_by_name [] name = none
result_by_name (r ∷ rs) name = elim (result_by_name rs name) [
  | some later ↦ some later
  | none ↦ if result_key r == name then some r else none
]

unfoldable pub was_sent : List LocalService → Bytes → Bool
was_sent sent id = any (λ s. s.local_id == id) sent

unfoldable pub record_result :
    List LocalService → List BatchRegisterResult → LocalService → LocalService
unfolding is_waiting result_by_name was_sent
record_result sent results s =
    if was_sent sent s.local_id && is_waiting s
    then elim (result_by_name results s.name) [
      | none ↦ s
      | some r ↦ registered_as r.id r.result_subdomain s
    ]
    else s

unfoldable pub record_results : List LocalService → List BatchRegisterResult → Machine → Change
unfolding record_result
record_results sent results m =
    changed (record m { services = map (record_result sent results) m.services })

-- `meanwhile` is the change of the file between the read and the update.
unfoldable pub register_local_services :
    Write
    → (File Machine → File Machine)
    → Option Client
    → File Machine
    → Option Error × File Machine
unfolding to_register input_of record_results load
register_local_services w meanwhile none f = (some nil_client, f)
register_local_services w meanwhile (some client) f = elim (load f) [
  | none ↦ (some read_failed, f)
  | some m ↦
      let sent = to_register m.services in
      if is_empty sent
      then (none, f)
      else elim (client.batch_register_services (map input_of sent)) [
        | none ↦ (some remote_failed, meanwhile f)
        | some results ↦ update_machine w (record_results sent results) (meanwhile f)
      ]
]

-- The map onServer.
unfoldable pub on_server : List Bytes → Bytes → Bool
on_server ids id = any (λ known. known == id) ids

unfoldable pub has_vanished : List Bytes → LocalService → Bool
unfolding on_server
has_vanished ids s = not (is_empty s.server_service_id || on_server ids s.server_service_id)

unfoldable pub drop_vanished : List Bytes → LocalService → LocalService
unfolding has_vanished
drop_vanished ids s = if has_vanished ids s then record (unregistered s) { disabled = true } else s

unfoldable pub vanished_change : List Bytes → Machine → Change
unfolding drop_vanished
vanished_change ids m = changed (record m { services = map (drop_vanished ids) m.services })

unfoldable pub any_vanished : List Bytes → File Machine → Bool
unfolding has_vanished
any_vanished ids (File.holds m) = any (has_vanished ids) m.services
any_vanished ids _ = false

-- The flag, the error and the file; an error of the registration is only logged. `while_listing`
-- is the change of the file while the services are listed.
unfoldable pub reconcile_machine_services_with_server :
    Write
    → Write
    → (File Machine → File Machine)
    → (File Machine → File Machine)
    → Option Client
    → File Machine
    → (Bool × Option Error) × File Machine
unfolding register_local_services vanished_change any_vanished
reconcile_machine_services_with_server w v meanwhile while_listing none f =
    ((false, some nil_client), f)
reconcile_machine_services_with_server w v meanwhile while_listing (some client) f =
    let f' = while_listing (register_local_services w meanwhile (some client) f).1 in
    elim client.list_services [
      | none ↦ ((false, some remote_failed), f')
      | some ids ↦
          let (e, f'') = update_machine v (vanished_change ids) f' in
          elim e [ some err ↦ ((false, some err), f'') | none ↦ ((any_vanished ids f', none), f'') ]
    ]
