-- ===== src/Server/Lost.antt =====
-- A crash that the recovery of cmd/seawise/server/service_lifecycle.go meets itself.
use seawise_client.Frp.Methods.{reset_crash_count, reset_connection_id}
use seawise_client.Frp.{
  StartError, Launch, spawn_failed, launch, FrpClient, start, stop, begin_start, ready,
}
use seawise_client.Prelude.{
  ℕ, ◌≡◌, refl, sym, ap, true, false, Option, none, some, List, arith, subst, ◌∙◌, case_if,
}
use seawise_client.Server.{after_start, World, Server}
use seawise_client.Server.Recovering.{recovered, recover_client, begin_recovery}
use seawise_client.Server.Frames.{after_start-Keeps}
use seawise_client.Server.Starting.{load_tunnels}
use seawise_client.Services.Tunnels.{TunnelService}

recovered_failed :
    (w : World) (e : Option StartError) (client : FrpClient) (s : Server)
    → e ≡ some spawn_failed
    → recovered w e client s ≡ s
unfolding recovered
recovered_failed w e client s h = subst (λ x. recovered w x client s ≡ s) (sym h) refl

begin_recovery_busy :
    (w : World) (spread : ℕ → ℕ → ℕ) (word : ℕ) (s : Server)
    → s.restart_in_progress ≡ true
    → begin_recovery w spread word s ≡ (none, s)
unfolding begin_recovery
begin_recovery_busy w spread word s h =
    case_if {B = Option ℕ × Server} (λ x. x ≡ (none, s)) s.restart_in_progress (λ e. refl)
      (λ e. absurd (ground arith))

start_unspawned :
    (l : Launch) (c : FrpClient)
    → (begin_start l c).0 ≡ ready
    → l.spawned ≡ false
    → ((start l c).0 ≡ some spawn_failed) × ((start l c).1.launched ≡ false)
unfolding start launch
start_unspawned l c begun unspawned = (ground arith, ground arith)

-- If a recovery restarts the client and the process cannot be spawned, the client is left without a
-- process, and the recovery that this crash starts gives up at once if it begins before the first
-- one has released its flag: it waits for nothing and changes nothing.
begin_recovery-recover_client :
    (w w' : World) (spread : ℕ → ℕ → ℕ) (word : ℕ) (tunnels : Option (List TunnelService))
    (client : FrpClient) (s : Server)
    → (begin_start w.launch (reset_connection_id (stop (load_tunnels w tunnels client)))).0 ≡ ready
    → w.launch.spawned ≡ false
    → s.restart_in_progress ≡ true
    → ((c : FrpClient) × ((recover_client w tunnels client s).frp ≡ some c) × (c.launched ≡ false))
      × (begin_recovery w' spread word (recover_client w tunnels client s)
          ≡ (none, recover_client w tunnels client s))
unfolding recover_client
begin_recovery-recover_client w w' spread word tunnels client s begun unspawned busy =
    let again = reset_connection_id (stop (load_tunnels w tunnels client)) in
    let done = start w.launch again in
    let s' : Server = record s { frp = some done.1 } in
    let (failure, down) = start_unspawned w.launch again begun unspawned in
    let k = after_start-Keeps w done.0 s' in
    let stays : recover_client w tunnels client s ≡ after_start w done.0 s' =
      recovered_failed w done.0 (reset_crash_count done.1) (after_start w done.0 s') failure in
    (
      (done.1, ap (λ x. x.frp) stays ∙ k.same_frp, down),
      subst (λ x. begin_recovery w' spread word x ≡ (none, x)) (sym stays)
          (begin_recovery_busy w' spread word (after_start w done.0 s') (k.same_restart ∙ busy)),
    )
