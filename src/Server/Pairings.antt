-- ===== src/Server/Pairings.antt =====
-- How a pairing of cmd/seawise/server/handlers_pairing.go ends.
use seawise_client.Server.Polling.{
  cancelled, timed_out, ticked, meanwhile, PollEvent, poll_for_approval, poll_event, is_pending,
  poll_tick, register_again, reset_pairing, finish_pairing, binding_of,
}
use seawise_client.Api.Pairing.{complete_pairing, poll_pairing_status, PairCompleteResponse}
use seawise_client.Api.{case_result, set_frp_token}
use seawise_client.Server.Frames.{set_connection-Keeps}
use seawise_client.Server.Restarts.{start_services-rest}
use seawise_client.Server.{set_connection, save_cfg, World, Server, paired, no_pairing, connecting}
use seawise_client.Prelude.{
  ◌≡◌, refl, sym, ap, ◌⊎◌, inl, inr, Bool, true, false, not, ◌||◌, some, List, [], ◌∷◌, arith, any,
  subst, ◌∙◌, Option-cases, case_if,
}
use seawise_client.Config.Unpair.{save_config_stores}
use seawise_client.Config.{save_config, Account, holds}
use seawise_client.Server.Starting.{is_foreign}
use seawise_client.Prelude.Bytes.{Bytes, lit, ◌==◌}
use seawise_client.Connection.{connecting}

-- The machine is paired by this response: the binding is in use and on the disk, its token is that
-- of the API client, and its frp server is trusted if it is given.
abbrev pub IsPairedBy : World → PairCompleteResponse → Server → Server → Type 0
IsPairedBy w r s t =
    (t.pairing_state ≡ paired)
    × (t.cfg ≡ some (binding_of w r s))
    × (t.disk.account ≡ holds (binding_of w r s))
    × (t.api.frp_token ≡ r.frp_token)
    × (is_foreign w r.frp_server_addr ≡ false)

-- The pairing was given up: the binding and the disk are as before, or the saving failed, and the
-- new binding is nevertheless the one in memory.
abbrev pub IsGivenUp : World → PairCompleteResponse → Server → Server → Type 0
IsGivenUp w r s t =
    (t.pairing_state ≡ no_pairing)
    × (t.frp ≡ s.frp)
    × (t.api ≡ s.api)
    × ((t.cfg ≡ s.cfg) × (t.disk ≡ s.disk) × (is_foreign w r.frp_server_addr ≡ true)
        ⊎ (t.cfg ≡ some (binding_of w r s)) × ((save_cfg w (binding_of w r s) s).0 ≡ false))

save_cfg_stores :
    (w : World) (c : Account) (s : Server)
    → (save_cfg w c s).0 ≡ true
    → (save_cfg w c s).1.disk.account ≡ holds c
unfolding save_cfg
save_cfg_stores w c s h = elim (Option-cases (save_config w.saving c s.disk).0) [
  | inl fine ↦
      (save_config_stores w.saving c s.disk (save_config w.saving c s.disk).1 (ground arith)).1
  | inr (e, bad) ↦ absurd (ground arith)
]

-- Once a pairing is approved and completed, either the machine is paired, with the binding on the
-- disk and its token in use, which needs a frp server address that is trusted or empty, or the
-- pairing is given up with the frp client and the API client as before, because the address is not
-- trusted, and then the binding and the disk are as before too, or because the binding could not
-- be saved, and then it stays in memory all the same.
pub finish_pairing-outcome :
    (w : World) (r : PairCompleteResponse) (s : Server)
    → IsPairedBy w r s (finish_pairing w r s) ⊎ IsGivenUp w r s (finish_pairing w r s)
unfolding finish_pairing reset_pairing register_again save_cfg set_frp_token
finish_pairing-outcome w r s =
    case_if (λ t. IsPairedBy w r s t ⊎ IsGivenUp w r s t) (is_foreign w r.frp_server_addr)
      (λ foreign. inr (refl, refl, refl, inl (refl, refl, foreign)))
      (λ fine.
        case_if (λ t. IsPairedBy w r s t ⊎ IsGivenUp w r s t)
          (not (save_cfg w (binding_of w r s) s).0)
          (λ unsaved. inr (refl, refl, refl, inr (refl, ground arith)))
          (λ saved.
            let s' = (save_cfg w (binding_of w r s) s).1 in
            let bound : Server = record s' {
              api = set_frp_token r.frp_token s'.api;
              pairing_state = paired;
              pairing_code = [];
              pairing_device_code = [];
            } in
            let s1 = register_again w r.server_id bound in
            let s2 = set_connection w connecting s1 in
            let same = start_services-rest w s2 in
            let k = set_connection-Keeps w connecting s1 in
            inl (
              ap (λ x. x.3) same ∙ k.same_pairing,
              ap (λ x. x.0) same ∙ k.same_cfg,
              ap (λ x. x.1.account) same
                  ∙ ap (λ d. d.account) k.same_disk
                  ∙ save_cfg_stores w (binding_of w r s) s (ground arith),
              ap (λ x. x.2.frp_token) same ∙ ap (λ c. c.frp_token) k.same_api,
              fine,
            )))

-- What the end of the polling leaves behind.
abbrev Settles : Bool × Server → Type 0
Settles x = x.0 ≡ true → is_pending x.1.pairing_state ≡ false

finish_pairing_settled :
    (w : World) (r : PairCompleteResponse) (s : Server)
    → is_pending (finish_pairing w r s).pairing_state ≡ false
finish_pairing_settled w r s = elim (finish_pairing-outcome w r s) [
  | inl h ↦ subst (λ x. is_pending x ≡ false) (sym h.0) refl
  | inr h ↦ subst (λ x. is_pending x ≡ false) (sym h.0) refl
]

poll_tick-Settles :
    (w : World) (device_code : Bytes) (s : Server) → Settles (poll_tick w device_code s)
unfolding poll_tick reset_pairing
poll_tick-Settles w device_code s =
    case_if Settles (not (is_pending s.pairing_state)) (λ over h. ground arith)
      (λ on.
        case_result Settles (poll_pairing_status w.http w.decoders.pairing device_code s.api).0
          (λ status e.
            case_if Settles (status == lit "approved")
              (λ approved.
                case_result Settles (complete_pairing w.http w.decoders.pairing device_code s.api).0
                  (λ r done h. finish_pairing_settled w r s) (λ why bad h. refl))
              (λ e'.
                case_if Settles (status == lit "expired" || status == lit "used") (λ over h. refl)
                  (λ again h. absurd cc)))
          (λ why e h. absurd cc))

abbrev pub is_cancelled : PollEvent → Bool
is_cancelled cancelled = true
is_cancelled timed_out = false
is_cancelled (ticked w) = false
is_cancelled (meanwhile f) = false

poll_event-Settles :
    (device_code : Bytes) (e : PollEvent) (s : Server)
    → is_cancelled e ≡ false
    → Settles (poll_event device_code e s)
unfolding poll_event reset_pairing
poll_event-Settles device_code cancelled s h k = absurd cc
poll_event-Settles device_code timed_out s h k = refl
poll_event-Settles device_code (ticked w) s h k = poll_tick-Settles w device_code s k
poll_event-Settles device_code (meanwhile f) s h k = absurd cc

-- When the polling goroutine returns without its context having ended, the pairing is no longer
-- pending: a pairing that is never approved ends with the timeout.
pub poll_for_approval-settles :
    (device_code : Bytes) (es : List PollEvent) (s : Server)
    → any is_cancelled es ≡ false
    → (poll_for_approval device_code es s).0 ≡ true
    → is_pending (poll_for_approval device_code es s).1.pairing_state ≡ false
unfolding poll_for_approval
poll_for_approval-settles device_code [] s h = λ k. absurd cc
poll_for_approval-settles device_code (e ∷ es) s h =
    let step = poll_event device_code e s in
    case_if Settles step.0 (λ over k. poll_event-Settles device_code e s (ground arith) over)
      (λ on. poll_for_approval-settles device_code es step.1 (ground arith))
