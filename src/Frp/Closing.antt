-- ===== src/Frp/Closing.antt =====
-- Close of internal/frp/frp.go against the calls that come after it or overlap with it.
use seawise_client.Prelude.{
  ◌≡◌, Bool, true, false, List, [], ◌∷◌, arith, all, inl, inr, subst, Option-cases,
}
use seawise_client.Prelude.Bytes.{Bytes}
use seawise_client.Services.Tunnels.{TunnelService}
use seawise_client.Frp.{
  next_connection_id, FrpClient, stopped, running, Launch, ready, begin_start, launch, start, stop,
  close, restart, sync_services, set_services, add_service_without_restart,
  remove_service_without_restart,
}

-- The calls of the holders of a client.
pub data Call : Type 0 where
  starts restarts : Launch → Call
  stops closes : Call
  syncs : (Bytes → Bool) → Launch → List TunnelService → Call
  sets : (Bytes → Bool) → List TunnelService → Call
  adds : (Bytes → Bool) → TunnelService → Call
  removes : Bytes → Call

unfoldable pub run_call : Call → FrpClient → FrpClient
run_call (starts l) c = (start l c).1
run_call (restarts l) c = (restart l c).1
run_call stops c = stop c
run_call closes c = close c
run_call (syncs vetted l ss) c = (sync_services vetted l ss c).1
run_call (sets vetted ss) c = set_services vetted ss c
run_call (adds vetted s) c = add_service_without_restart vetted s c
run_call (removes name) c = remove_service_without_restart name c

unfoldable pub run_calls : List Call → FrpClient → FrpClient
unfolding run_call
run_calls [] c = c
run_calls (x ∷ xs) c = run_calls xs (run_call x c)

-- A closed client without a process.
abbrev pub IsDown : FrpClient → Type 0
IsDown c = (c.closed ≡ true) × (c.launched ≡ false) × (c.state ≡ stopped)

run_call-IsDown : (x : Call) (c : FrpClient) → IsDown c → IsDown (run_call x c)
unfolding run_call start begin_start restart stop close sync_services set_services
    add_service_without_restart remove_service_without_restart
run_call-IsDown (starts l) c (a, b, d) = ground arith
run_call-IsDown (restarts l) c (a, b, d) = ground arith
run_call-IsDown stops c (a, b, d) = ground arith
run_call-IsDown closes c (a, b, d) = ground arith
run_call-IsDown (syncs vetted l ss) c (a, b, d) = ground arith
run_call-IsDown (sets vetted ss) c (a, b, d) = ground arith
run_call-IsDown (adds vetted s) c (a, b, d) = ground arith
run_call-IsDown (removes name) c (a, b, d) = ground arith

run_calls-IsDown : (xs : List Call) (c : FrpClient) → IsDown c → IsDown (run_calls xs c)
unfolding run_calls
run_calls-IsDown [] c h = h
run_calls-IsDown (x ∷ xs) c h = run_calls-IsDown xs (run_call x c) (run_call-IsDown x c h)

-- After the first Close of a client no sequence of whole calls brings a process back: the client
-- stays closed, without a process and in the state stopped.
pub run_calls-close :
    (xs : List Call) (c : FrpClient) → c.closed ≡ false → IsDown (run_calls xs (close c))
unfolding close stop
run_calls-close xs c h = run_calls-IsDown xs (close c) (ground arith, ground arith, ground arith)

-- The calls other than Stop and those that call it, but with Close.
abbrev pub leaves_running : Call → Bool
leaves_running closes = true
leaves_running (starts l) = true
leaves_running (sets vetted ss) = true
leaves_running (adds vetted s) = true
leaves_running (removes name) = true
leaves_running stops = false
leaves_running (restarts l) = false
leaves_running (syncs vetted l ss) = false

-- A closed client whose process runs; the flag is whether its config file is there.
abbrev pub IsOrphaned : Bool → FrpClient → Type 0
IsOrphaned file c =
    (c.closed ≡ true) × (c.launched ≡ true) × (c.state ≡ running) × (c.config_file ≡ file)

run_call-IsOrphaned :
    (file : Bool) (x : Call) (c : FrpClient)
    → leaves_running x ≡ true
    → IsOrphaned file c
    → IsOrphaned file (run_call x c)
unfolding run_call start begin_start close set_services add_service_without_restart
    remove_service_without_restart
run_call-IsOrphaned file (starts l) c e (a, b, d, f) = ground arith
run_call-IsOrphaned file closes c e (a, b, d, f) = ground arith
run_call-IsOrphaned file (sets vetted ss) c e (a, b, d, f) = ground arith
run_call-IsOrphaned file (adds vetted s) c e (a, b, d, f) = ground arith
run_call-IsOrphaned file (removes name) c e (a, b, d, f) = ground arith
run_call-IsOrphaned file stops c e h = absurd (ground arith)
run_call-IsOrphaned file (restarts l) c e h = absurd (ground arith)
run_call-IsOrphaned file (syncs vetted l ss) c e h = absurd (ground arith)

run_calls-IsOrphaned :
    (file : Bool) (xs : List Call) (c : FrpClient)
    → all leaves_running xs ≡ true
    → IsOrphaned file c
    → IsOrphaned file (run_calls xs c)
unfolding run_calls
run_calls-IsOrphaned file [] c e h = h
run_calls-IsOrphaned file (x ∷ xs) c e h =
    run_calls-IsOrphaned file xs (run_call x c) (ground arith)
      (run_call-IsOrphaned file x c (ground arith) h)

-- The first part of a Start that goes on.
begin_start-ready :
    (l : Launch) (c : FrpClient)
    → (begin_start l c).0 ≡ ready
    → ((begin_start l c).1.closed ≡ false)
      × ((begin_start l c).1.config_file ≡ true)
      × ((begin_start l c).1.config_stays ≡ c.config_stays)
unfolding begin_start next_connection_id
begin_start-ready l c h = elim (Option-cases (next_connection_id l c)) [
  | inl e ↦ absurd (ground arith)
  | inr (id, e) ↦ elim (Option-cases l.resolved_path) [
    | inl f ↦ (ground arith, ground arith, ground arith)
    | inr (path, f) ↦ (ground arith, ground arith, ground arith)
  ]
]

launch-close :
    (l : Launch) (c : FrpClient)
    → c.closed ≡ false
    → c.config_file ≡ true
    → l.spawned ≡ true
    → IsOrphaned c.config_stays (launch l (close c)).1
unfolding launch close stop
launch-close l c h e k = (ground arith, ground arith, ground arith, ground arith)

-- If a Close comes between the two locked parts of a Start that can spawn, the closed client has a
-- process, and frpc.toml is gone unless it cannot be removed; and no later sequence of calls of
-- Close, Start, SetServices, AddServiceWithoutRestart and RemoveServiceWithoutRestart ends that
-- process, since Close does nothing on a closed client.
pub run_calls-launch :
    (l : Launch) (c : FrpClient) (xs : List Call)
    → (begin_start l c).0 ≡ ready
    → l.spawned ≡ true
    → all leaves_running xs ≡ true
    → IsOrphaned c.config_stays (run_calls xs (launch l (close (begin_start l c).1)).1)
run_calls-launch l c xs h k e =
    let begun = (begin_start l c).1 in
    let (unclosed, there, same) = begin_start-ready l c h in
    run_calls-IsOrphaned c.config_stays xs (launch l (close begun)).1 e (
      subst (λ b. IsOrphaned b (launch l (close begun)).1) same
        (launch-close l begun unclosed there k))
