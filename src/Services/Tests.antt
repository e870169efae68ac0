-- ===== src/Services/Tests.antt =====
-- Tests of the services, and the theorems on them at concrete inputs.
use seawise_client.Prelude.{all, ◌≡◌, refl, true, false, not, some, [], ◌∷◌, map, keep, pos, ◌↔◌}
use mathlib.Core.List.Memᴰ.{Memᴰ}
use seawise_client.Prelude.Bytes.{lit, ◌==◌, Unicode, equal_fold}
use seawise_client.Config.{
  File, LocalService, Machine, holds, written, write_file, load, save_machine, update_machine,
}
use seawise_client.Services.{
  add_change, add_local_service, registered_as, unregistered, set_local_service_disabled,
  update_first, disable_change, disabled_as, record_server_registration, record_change,
}
use seawise_client.Services.Registration.{
  Client, BatchRegisterResult, is_waiting, to_register, input_of, result_by_name, result_key,
  was_sent, record_result, record_results, register_local_services,
}
use seawise_client.Services.Tunnels.{
  tunnel_of, build_tunnel_services, IsTunnelled, build_tunnel_services_iff,
}
use seawise_client.Services.Invariant.{IsWellFormed, is_settled}
use seawise_client.Services.History.{start, switched, registered, history-IsWellFormed}
use seawise_client.Services.Registering.{IsRegistered, register_local_services-IsRegistered}
use seawise_client.Services.RoundTrip.{to_register-clear}

abbrev ascii : Unicode
ascii = record { lower = λ s. s; trim = λ s. s; fold = λ s t. s == t }

abbrev plex : LocalService
plex = record {
  local_id = lit "01";
  name = lit "plex";
  host = lit "localhost";
  port = pos 32400;
  icon_url = [];
  server_service_id = [];
  subdomain = [];
  disabled = false;
}

-- A service that the server knows.
abbrev wiki : LocalService
wiki = record plex {
  local_id = lit "02";
  name = lit "wiki";
  server_service_id = lit "s2";
  subdomain = lit "wiki-a1";
}

-- A service that the server has dropped.
abbrev blog : LocalService
blog = record plex {
  local_id = lit "03";
  name = lit "blog";
  server_service_id = lit "s3";
  subdomain = lit "blog-a1";
}

abbrev nas : Machine
nas = record { machine_id = lit "1f"; machine_name = lit "nas"; services = plex ∷ wiki ∷ blog ∷ [] }

abbrev result : BatchRegisterResult
result = record {
  id = lit "s1";
  requested_name = lit "plex";
  result_name = lit "plex-2";
  result_host = lit "localhost";
  result_port = pos 32400;
  result_subdomain = lit "plex-a1";
  status = lit "active";
}

abbrev client : Client
client = record {
  batch_register_services = λ inputs. some (result ∷ []);
  list_services = some (lit "s1" ∷ lit "s2" ∷ []);
}

-- After the registration of plex.
abbrev registered_nas : Machine
registered_nas = record nas {
  services = registered_as (lit "s1") (lit "plex-a1") plex ∷ wiki ∷ blog ∷ [];
}

-- After the reconciliation.
abbrev reconciled_nas : Machine
reconciled_nas = record nas {
  services =
      registered_as (lit "s1") (lit "plex-a1") plex
      ∷ wiki
      ∷ record (unregistered blog) { disabled = true }
      ∷ [];
}

duplicate_name :
    (add_local_service ascii written
      (some (lit "04"))
      (lit "wiki")
      (lit "10.0.0.2")
      (pos 80)
      []
      (holds nas)).1
    ≡ holds nas
unfolding add_local_service add_change update_machine load equal_fold ◌==◌ lit
duplicate_name = refl

disabled_wiki :
    (set_local_service_disabled written (lit "02") true (holds nas)).1
    ≡ holds (record nas {
      services = plex ∷ record (unregistered wiki) { disabled = true } ∷ blog ∷ [];
    })
unfolding set_local_service_disabled disable_change update_first disabled_as update_machine load
    save_machine write_file ◌==◌ lit
disabled_wiki = refl

register_local_services-IsRegistered_example :
    IsRegistered (plex ∷ []) (result ∷ []) (holds nas) (holds registered_nas)
unfolding register_local_services to_register is_waiting input_of record_results record_result
    result_by_name result_key was_sent update_machine load save_machine write_file ◌==◌ lit
register_local_services-IsRegistered_example =
    register_local_services-IsRegistered written (λ f. f) client nas (result ∷ [])
      (holds registered_nas) refl refl refl

build_tunnel_services_iff_example :
    Memᴰ (tunnel_of wiki) (build_tunnel_services nas.services (lit "s2" ∷ [])) ↔ (
      (s : LocalService) × Memᴰ s nas.services
      × IsTunnelled (lit "s2" ∷ []) s
      × (tunnel_of wiki ≡ tunnel_of s))
build_tunnel_services_iff_example =
    build_tunnel_services_iff (tunnel_of wiki) nas.services (lit "s2" ∷ [])

waiting_after_clear :
    to_register (map unregistered nas.services)
    ≡ map unregistered (keep (λ s. not s.disabled) nas.services)
waiting_after_clear = to_register-clear nas.services

-- wiki is switched off and cleared of its registration while plex is being registered.
history-IsWellFormed_example :
    IsWellFormed true ascii
      (register_local_services written
        (λ f. (set_local_service_disabled written (lit "02") true (holds nas)).1)
        (some client)
        (holds nas)).1
unfolding equal_fold ◌==◌ lit
history-IsWellFormed_example =
    history-IsWellFormed true ascii
      (registered written (some client) (start {f = holds nas})
        (switched written (lit "02") true (start {f = holds nas})))
      refl

-- A registration that is recorded after its service was switched off leaves a disabled service
-- registered.
abbrev late_record : File Machine
late_record =
    (record_server_registration written (lit "02") (lit "s2") (lit "wiki-a1")
      (set_local_service_disabled written (lit "02") true (holds nas)).1).1

late_record_unsettled :
    (m : Machine) × (late_record ≡ holds m) × (all (is_settled true) m.services ≡ false)
unfolding record_server_registration record_change set_local_service_disabled disable_change
    update_first disabled_as update_machine load save_machine write_file registered_as ◌==◌ lit
late_record_unsettled = (_, refl, refl)
