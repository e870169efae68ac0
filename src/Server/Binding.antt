-- ===== src/Server/Binding.antt =====
-- What a heartbeat of cmd/seawise/server/heartbeat.go does to the binding of the machine.
use seawise_client.Server.Restarts.{start_services-cfg}
use seawise_client.Server.Frames.{
  reset_ticker-Keeps, clear_after_gap-Keeps, after_start-Keeps, heartbeat_ok-Keeps,
  clear_if_started-Keeps, heartbeat_failed-Keeps, start_reconcile-Keeps, set_connection-Keeps,
  Keeps,
}
use seawise_client.Frp.{restart, is_allowed_server_addr, update_server, FrpClient}
use seawise_client.Server.Beating.{
  clear_after_gap, reset_ticker, start_reconcile, same_port, vitals, adopt_shard, supersede,
  migrate, move_client, adopt_frp_server_addr, connect_to_received_addr, follow_server,
  after_success, after_heartbeat, send_heartbeat,
}
use seawise_client.Server.{
  after_start, spawn, managed, set_connection, save_cfg, World, Server, connecting,
}
use seawise_client.Frp.Methods.{reset_connection_id}
use seawise_client.Api.Outcomes.{heartbeat-Reports, Answered}
use seawise_client.Api.Heartbeat.{heartbeat, HeartbeatResult, HeartbeatResponse}
use seawise_client.Prelude.{
  ◌≡◌, refl, ap, ◌⊎◌, inl, inr, Bool, false, not, ◌&&◌, Option, none, some, arith, Bool-cases, ℤ,
  subst, ◌∙◌, is_empty, case_some, case_if,
}
use seawise_client.Prelude.Bytes.{Bytes, lit, ◌==◌}
use seawise_client.Config.{Account}
use seawise_client.Connection.{heartbeat_ok, connecting}

-- The server holds the binding of the account, apart from the address and port of the frp server.
abbrev pub IsBoundTo : Account → Server → Type 0
IsBoundTo a s =
    (c : Account) × (s.cfg ≡ some c)
    × (c ≡ record a { frp_server_addr = c.frp_server_addr; frp_server_port = c.frp_server_port })

module _ (a : Account) (w : World) where
  Keeps-IsBoundTo : {s t : Server} → Keeps s t → IsBoundTo a s → IsBoundTo a t
  Keeps-IsBoundTo k (c, e, same) = (c, k.same_cfg ∙ e, same)

  save_cfg-IsBoundTo :
      (addr : Bytes) (port : ℤ) (c : Account) (s : Server)
      → s.cfg ≡ some c
      → IsBoundTo a s
      → IsBoundTo a (save_cfg w (record c { frp_server_addr = addr; frp_server_port = port }) s).1
  unfolding save_cfg
  save_cfg-IsBoundTo addr port c s e (c', e', same) =
      let eq : c ≡ c' = ground (arith, e, e') in
      (
        record c { frp_server_addr = addr; frp_server_port = port },
        refl,
        ap {A = Account} {B = Account}
            (λ x. record x { frp_server_addr = addr; frp_server_port = port }) (eq ∙ same),
      )

  adopt_frp_server_addr-IsBoundTo :
      (addr : Bytes) (port : ℤ) (s : Server)
      → IsBoundTo a s
      → IsBoundTo a (adopt_frp_server_addr w addr port s).1
  unfolding adopt_frp_server_addr
  adopt_frp_server_addr-IsBoundTo addr port s h =
      case_if {B = Bool × Server} (λ x. IsBoundTo a x.1)
        (not (is_allowed_server_addr w.http.unicode w.domains addr)) (λ foreign. h)
        (λ fine.
          case_some {B = Bool × Server} (λ x. IsBoundTo a x.1) s.cfg h
            (λ c set.
              case_some {B = Bool × Server} (λ x. IsBoundTo a x.1) s.frp
                (save_cfg-IsBoundTo addr port c s set h) (λ client there. h)))

  connect_to_received_addr-IsBoundTo :
      (addr : Bytes) (port : ℤ) (s : Server)
      → IsBoundTo a s
      → IsBoundTo a (connect_to_received_addr w addr port s)
  unfolding connect_to_received_addr
  connect_to_received_addr-IsBoundTo addr port s h =
      let s' = (adopt_frp_server_addr w addr port s).1 in
      let (c, e, same) = adopt_frp_server_addr-IsBoundTo addr port s h in
      case_if (IsBoundTo a) (not (adopt_frp_server_addr w addr port s).0) (λ refusal. (c, e, same))
        (λ adoption. (
          c,
          start_services-cfg w (set_connection w connecting s')
              ∙ (set_connection-Keeps w connecting s').same_cfg
              ∙ e,
          same,
        ))

  move_client-IsBoundTo :
      (addr : Bytes) (port : ℤ) (client : FrpClient) (s : Server)
      → IsBoundTo a s
      → IsBoundTo a (move_client w addr port client s)
  unfolding move_client
  move_client-IsBoundTo addr port client s h =
      let moved = (update_server w.domains addr port client).1 in
      case_if (IsBoundTo a) (not (update_server w.domains addr port client).0) (λ foreign. h)
        (λ fine. case_some (IsBoundTo a) s.cfg h (λ c set.
          let done = restart w.launch (reset_connection_id moved) in
          let saved =
            (save_cfg w (record c { frp_server_addr = addr; frp_server_port = port }) s).1 in
          let s' : Server = record saved { frp = some done.1 } in
          Keeps-IsBoundTo (clear_if_started-Keeps w done.0 (after_start w done.0 s')) (
            Keeps-IsBoundTo (after_start-Keeps w done.0 s')
              (save_cfg-IsBoundTo addr port c s set h))))

  follow_server-IsBoundTo :
      (r : HeartbeatResponse) (s : Server) → IsBoundTo a s → IsBoundTo a (follow_server w r s)
  unfolding follow_server migrate adopt_shard
  follow_server-IsBoundTo r s h =
      let here : IsBoundTo a (elim r.shard [ none ↦ s | some shard ↦ adopt_shard w shard s ]) =
        case_some (IsBoundTo a) r.shard h (λ shard e.
          case_if (IsBoundTo a) (is_empty shard.frp_server_addr) (λ e'. h)
            (λ e'.
              case_some (IsBoundTo a) s.frp
                (connect_to_received_addr-IsBoundTo shard.frp_server_addr shard.frp_server_port s h)
                (λ client there. case_some (IsBoundTo a) s.cfg h (λ c set.
                  case_if (IsBoundTo a)
                    (shard.frp_server_addr == c.frp_server_addr
                      && same_port w shard.frp_server_port c.frp_server_port)
                    (λ same. h)
                    (λ other.
                      move_client-IsBoundTo shard.frp_server_addr shard.frp_server_port client s
                        h))))) in
      case_if (IsBoundTo a) (r.status == lit "migrate")
        (λ e. case_some (IsBoundTo a) r.migrate_to here (λ m e'.
          case_some (IsBoundTo a) s.cfg h (λ c set.
            case_some (IsBoundTo a) s.frp
              (connect_to_received_addr-IsBoundTo m.frp_server_addr m.frp_server_port s h)
              (λ client there.
                move_client-IsBoundTo m.frp_server_addr m.frp_server_port client s h))))
        (λ e. here)

  after_success-IsBoundTo :
      (response : Option HeartbeatResponse) (s : Server)
      → IsBoundTo a s
      → IsBoundTo a (after_success w response s)
  unfolding after_success
  after_success-IsBoundTo response s h =
      let s1 = managed w (heartbeat_ok w.now) s in
      let s2 = start_reconcile w s1 in
      let alive : IsBoundTo a s2 =
        Keeps-IsBoundTo (start_reconcile-Keeps w s1)
          (Keeps-IsBoundTo (heartbeat_ok-Keeps w w.now s) h) in
      case_some (IsBoundTo a) response alive (λ r e.
        let s3 = reset_ticker w r.next_heartbeat_ms s2 in
        follow_server-IsBoundTo r (clear_after_gap w r.gap_seconds s3) (
          Keeps-IsBoundTo (clear_after_gap-Keeps w r.gap_seconds s3)
            (Keeps-IsBoundTo (reset_ticker-Keeps w r.next_heartbeat_ms s2) alive)))

  after_heartbeat-IsBoundTo :
      (result : HeartbeatResult) (s : Server)
      → result.should_unpair ≡ false
      → IsBoundTo a s
      → IsBoundTo a (after_heartbeat w result s)
  unfolding after_heartbeat supersede spawn
  after_heartbeat-IsBoundTo result s stays h =
      case_if (IsBoundTo a) result.should_unpair (λ e. absurd (ground arith))
        (λ e.
          case_if (IsBoundTo a) result.superseded
            (λ e'. case_some (IsBoundTo a) s.frp h (λ client there. h))
            (λ e'.
              case_some (IsBoundTo a) result.error (after_success-IsBoundTo result.response s h)
                (λ why e''. Keeps-IsBoundTo (heartbeat_failed-Keeps w s) h)))

-- Whatever the server answers to a heartbeat, be it an error, a superseded connection, a migration
-- or a move to an untrusted address, the machine keeps its binding, apart from the address and the
-- port of the frp server, unless the answer has the status 410.
pub send_heartbeat-IsBoundTo :
    (w : World) (s : Server) (c : Account)
    → s.cfg ≡ some c
    → IsBoundTo c (send_heartbeat w s) ⊎ Answered w.http c.server_id (vitals w s) s.api 410
unfolding send_heartbeat
send_heartbeat-IsBoundTo w s c set =
    let result = (heartbeat w.decoders.heartbeats w.http c.server_id (vitals w s) s.api).0 in
    let reports = heartbeat-Reports w.decoders.heartbeats w.http c.server_id (vitals w s) s.api in
    elim (Bool-cases result.should_unpair) [
      | inl gone ↦ elim reports [
        | inl (a, b, d, answered) ↦ inr answered
        | inr (inl (a, b, d, answered)) ↦ absurd (ground arith)
        | inr (inr (inl (a, b, d, e, answered))) ↦ absurd (ground arith)
        | inr (inr (inr (a, b, d, why))) ↦ absurd (ground arith)
      ]
      | inr stays ↦ inl (
          case_some (IsBoundTo c) s.cfg (c, set, refl)
            (λ c' set'.
              let same : c ≡ c' = ground (arith, set, set') in
              subst
                (λ x. IsBoundTo c (
                  after_heartbeat w
                    (heartbeat w.decoders.heartbeats w.http x.server_id (vitals w s) s.api).0 s))
                same (after_heartbeat-IsBoundTo c w result s stays (c, set, refl))))
    ]
