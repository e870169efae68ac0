-- ===== src/Server/Ending.antt =====
-- What unpairing leaves behind, cmd/seawise/server/handlers_services.go and service_lifecycle.go.
use seawise_client.Server.Frames.{set_connection-Keeps}
use seawise_client.Prelude.{
  ◌≡◌, refl, sym, ap, true, false, not, none, some, arith, subst, ◌∙◌, case_if,
}
use seawise_client.Config.{exists, missing, corrupt, holds, Account, File, delete_account}
use seawise_client.Server.{
  spawn, on_state_change, run_callbacks, managed, handle_unpair_internal, set_connection, World,
  Server, no_pairing,
}
use seawise_client.Server.Starting.{start_paired}
use seawise_client.Connection.{set_state, unpaired, State}
use seawise_client.Server.Apps.{handle_unpair}
use seawise_client.Server.Looping.{start_program, after_migration}
use seawise_client.Config.Migrate.{Outcomes}
use seawise_client.Config.Recovery.{migrate_legacy_stuck}
use seawise_client.Prelude.Bytes.{lit, ◌==◌}

set_state_stays :
    (w : World) (new : State) (s : Server) → (set_connection w new s).manager.state ≡ new
unfolding set_connection managed set_state run_callbacks on_state_change spawn
set_state_stays w new s = ground arith

delete_account_goes : (f : File Account) → (delete_account true f).1 ≡ missing
unfolding delete_account
delete_account_goes missing = refl
delete_account_goes corrupt = refl
delete_account_goes (holds a) = refl

-- An unpairing by the user, if the account file can be removed, leaves no binding in memory and
-- none on the disk, no frp client, no pairing under way and the connection unpaired, whatever the
-- server answers; and a program that starts on that disk, if it has machine.json, does start, whatever
-- its migration could do, is unpaired and starts no client.
pub handle_unpair-start_program :
    (w w' : World) (m : Outcomes) (s fresh : Server)
    → w.account_goes ≡ true
    → fresh.disk ≡ (handle_unpair w (lit "POST") s).1.disk
    → exists fresh.disk.machine ≡ true
    → ((handle_unpair w (lit "POST") s).1.cfg ≡ none)
      × ((handle_unpair w (lit "POST") s).1.frp ≡ none)
      × ((handle_unpair w (lit "POST") s).1.pairing_state ≡ no_pairing)
      × ((handle_unpair w (lit "POST") s).1.manager.state ≡ unpaired)
      × ((handle_unpair w (lit "POST") s).1.disk.account ≡ missing)
      × ((t : Server) × (start_program m w' fresh ≡ some t)
          × (t.manager.state ≡ unpaired)
          × (t.frp ≡ fresh.frp))
unfolding handle_unpair handle_unpair_internal start_paired start_program after_migration ◌==◌ lit
    exists
handle_unpair-start_program w w' m s fresh goes same split =
    let gone : (delete_account w.account_goes (set_connection w unpaired s).disk.account).1
        ≡ missing =
      subst (λ b. (delete_account b (set_connection w unpaired s).disk.account).1 ≡ missing)
        (sym goes) (delete_account_goes (set_connection w unpaired s).disk.account) in
    let bare : fresh.disk.account ≡ missing = ap (λ d. d.account) same ∙ gone in
    let none_there : exists fresh.disk.account ≡ false = ap exists bare in
    let idle : Server = record fresh { pairing_state = no_pairing } in
    (
      refl,
      refl,
      refl,
      set_state_stays w unpaired s,
      gone,
      (
        start_paired w' fresh,
        ap (after_migration w' fresh) (migrate_legacy_stuck m fresh.disk split none_there),
        case_if {B = Server} (λ t. t.manager.state ≡ unpaired) (not (exists fresh.disk.account))
            (λ e. set_state_stays w' unpaired idle) (λ e. absurd (ground (arith, none_there))),
        case_if {B = Server} (λ t. t.frp ≡ fresh.frp) (not (exists fresh.disk.account))
            (λ e. (set_connection-Keeps w' unpaired idle).same_frp)
            (λ e. absurd (ground (arith, none_there))),
      ),
    )
