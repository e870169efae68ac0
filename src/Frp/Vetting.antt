-- ===== src/Frp/Vetting.antt =====
-- The hosts that reach frpc: the calls of internal/frp/frp.go check each service they take.
use seawise_client.Prelude.{
  ◌≡◌, refl, inl, inr, Bool, true, List, [], ◌∷◌, arith, Bool-cases, All, all, keep, all-append,
}
use seawise_client.Prelude.Bytes.{Bytes}
use seawise_client.Services.Tunnels.{TunnelService}
use seawise_client.Frp.{
  FrpClient, stop, close, allowed_services, set_services, add_service_without_restart,
  remove_service_without_restart,
}
use seawise_client.Frp.Closing.{
  Call, starts, restarts, stops, closes, syncs, sets, adds, removes, run_call, run_calls,
}
use seawise_client.Frp.Restart.{restart-launched, start-keeps, sync_services-restart}

-- What the check of a call promises of a host.
abbrev pub Checks : (Bytes → Bool) → Call → Type 0
Checks p (syncs vetted l ss) = (h : Bytes) → vetted h ≡ true → p h ≡ true
Checks p (sets vetted ss) = (h : Bytes) → vetted h ≡ true → p h ≡ true
Checks p (adds vetted s) = (h : Bytes) → vetted h ≡ true → p h ≡ true
Checks p (starts l) = Unit
Checks p (restarts l) = Unit
Checks p stops = Unit
Checks p closes = Unit
Checks p (removes name) = Unit

abbrev pub all_hosts : (Bytes → Bool) → List TunnelService → Bool
all_hosts p ss = all (λ s. p s.local_ip) ss

module _ (p : Bytes → Bool) where
  pub all_hosts-allowed_services :
      (vetted : Bytes → Bool) (sound : (h : Bytes) → vetted h ≡ true → p h ≡ true)
      (ss : List TunnelService)
      → all_hosts p (allowed_services vetted ss) ≡ true
  unfolding allowed_services
  all_hosts-allowed_services vetted sound [] = refl
  all_hosts-allowed_services vetted sound (s ∷ ss) = elim (Bool-cases (vetted s.local_ip)) [
    | inl good ↦ ground (arith, sound s.local_ip good, all_hosts-allowed_services vetted sound ss)
    | inr bad ↦ ground (arith, all_hosts-allowed_services vetted sound ss)
  ]

  pub all_hosts-keep :
      (q : TunnelService → Bool) (ss : List TunnelService)
      → all_hosts p ss ≡ true
      → all_hosts p (keep q ss) ≡ true
  all_hosts-keep q [] h = refl
  all_hosts-keep q (s ∷ ss) h = ground (arith, all_hosts-keep q ss (ground arith))

  run_call-hosts :
      (x : Call) (c : FrpClient)
      → Checks p x
      → all_hosts p c.services ≡ true
      → all_hosts p (run_call x c).services ≡ true
  unfolding run_call stop close set_services add_service_without_restart
      remove_service_without_restart allowed_services
  run_call-hosts (starts l) c k h = ground (arith, (start-keeps l c).0)
  run_call-hosts (restarts l) c k h = ground (arith, (restart-launched l c).1)
  run_call-hosts stops c k h = h
  run_call-hosts closes c k h = ground arith
  run_call-hosts (syncs vetted l ss) c k h =
      ground
        (arith, (sync_services-restart vetted l ss c).0, all_hosts-allowed_services vetted k ss)
  run_call-hosts (sets vetted ss) c k h = all_hosts-allowed_services vetted k ss
  run_call-hosts (adds vetted s) c k h = elim (Bool-cases (vetted s.local_ip)) [
    | inl good ↦
        ground (arith, k s.local_ip good, all-append (λ t. p t.local_ip) c.services (s ∷ []))
    | inr bad ↦ ground arith
  ]
  run_call-hosts (removes name) c k h = all_hosts-keep _ c.services h

-- If each call checks hosts so that the accepted ones meet p, then whatever the sequence of calls,
-- every service of the client has a host that meets p, provided those it started with do.
run_calls-hosts :
    (p : Bytes → Bool) (xs : List Call) (c : FrpClient)
    → All (Checks p) xs
    → all_hosts p c.services ≡ true
    → all_hosts p (run_calls xs c).services ≡ true
unfolding run_calls
run_calls-hosts p [] c k h = h
run_calls-hosts p (x ∷ xs) c (k, ks) h =
    run_calls-hosts p xs (run_call x c) ks (run_call-hosts p x c k h)
