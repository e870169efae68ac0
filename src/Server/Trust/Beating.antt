-- ===== src/Server/Trust/Beating.antt =====
-- The addresses and hosts of the frp client over a heartbeat of cmd/seawise/server/heartbeat.go.
use seawise_client.Prelude.{
  ◌≡◌, inl, inr, Bool, false, not, ◌&&◌, Option, some, List, [], ◌∷◌, arith, Bool-cases, ℤ, subst,
  is_empty, case_some, case_if,
}
use seawise_client.Server.Beating.{
  same_port, vitals, clear_after_gap, reset_ticker, start_reconcile, follow_server, after_success,
  move_client, migrate, adopt_shard, after_heartbeat, adopt_frp_server_addr, send_heartbeat,
  connect_to_received_addr, supersede,
}
use seawise_client.Prelude.Bytes.{lit, ◌==◌, Bytes}
use seawise_client.Server.{
  after_start, set_connection, on_state_change, spawn, handle_unpair_internal, save_cfg, Server,
  managed, run_callbacks, World,
}
use seawise_client.Frp.{
  restart, is_allowed_server_addr, is_allowed_frp_domain, FrpClient, update_server, stop,
}
use seawise_client.Connection.{
  unpair_called, state_changed, Call, Manager, connecting, unpair_requested, heartbeat_failed,
  heartbeat_ok,
}
use seawise_client.Server.Frames.{
  on_state_change-Keeps, after_start-Keeps, set_connection-Keeps, reset_ticker-Keeps,
  clear_after_gap-Keeps, clear_if_started-Keeps, start_reconcile-Keeps,
}
use seawise_client.Server.Trust.{
  restart-IsSafe, start_services-IsSafe, IsSafeServer, IsSafeAfter, SafeClient, Keeps-IsSafe,
  IsSafe, Sound,
}
use seawise_client.Frp.Methods.{reset_connection_id}
use seawise_client.Api.Heartbeat.{
  ShardInfo, MigrateInfo, HeartbeatResponse, HeartbeatResult, heartbeat,
}

module _ (p q : Bytes → Bool) (w : World) (sound : Sound p q w) where
  run_callbacks-IsSafe :
      (calls : List Call) (s : Server) → IsSafe p q s.frp → IsSafe p q (run_callbacks w calls s).frp
  unfolding run_callbacks handle_unpair_internal
  run_callbacks-IsSafe [] s h = h
  run_callbacks-IsSafe (state_changed old new ∷ calls) s h =
      run_callbacks-IsSafe calls (on_state_change w old new s)
        (Keeps-IsSafe p q w sound (on_state_change-Keeps w old new s) h)
  run_callbacks-IsSafe (unpair_called ∷ calls) s h =
      run_callbacks-IsSafe calls (handle_unpair_internal w s) tt

  pub managed-IsSafe :
      (f : Manager → Manager × List Call) (s : Server)
      → IsSafe p q s.frp
      → IsSafe p q (managed w f s).frp
  unfolding managed
  managed-IsSafe f s h =
      run_callbacks-IsSafe (f s.manager).1 (record s { manager = (f s.manager).0 }) h

  adopt_frp_server_addr-IsSafe :
      (addr : Bytes) (port : ℤ) (s : Server)
      → IsSafe p q s.frp
      → IsSafe p q (adopt_frp_server_addr w addr port s).1.frp
  unfolding adopt_frp_server_addr save_cfg
  adopt_frp_server_addr-IsSafe addr port s h =
      case_if (IsSafeAfter p q) (not (is_allowed_server_addr w.http.unicode w.domains addr))
        (λ foreign. h)
        (λ fine.
          case_some (IsSafeAfter p q) s.cfg h
            (λ c set. case_some (IsSafeAfter p q) s.frp h (λ client there. h)))

  connect_to_received_addr-IsSafe :
      (addr : Bytes) (port : ℤ) (s : Server)
      → IsSafe p q s.frp
      → IsSafe p q (connect_to_received_addr w addr port s).frp
  unfolding connect_to_received_addr
  connect_to_received_addr-IsSafe addr port s h =
      let s' = (adopt_frp_server_addr w addr port s).1 in
      let h' = adopt_frp_server_addr-IsSafe addr port s h in
      case_if (IsSafeServer p q) (not (adopt_frp_server_addr w addr port s).0) (λ refusal. h')
        (λ adoption.
          start_services-IsSafe p q w sound (set_connection w connecting s')
            (Keeps-IsSafe p q w sound (set_connection-Keeps w connecting s') h'))

  update_server-IsSafe :
      (addr : Bytes) (port : ℤ) (c : FrpClient)
      → not (update_server w.domains addr port c).0 ≡ false
      → SafeClient p q c
      → SafeClient p q (update_server w.domains addr port c).1
  unfolding update_server
  update_server-IsSafe addr port c e (a, b) =
      elim (Bool-cases (is_allowed_frp_domain w.domains addr)) [
        | inl known ↦ (ground (arith, sound.exact addr known), ground arith)
        | inr unknown ↦ absurd (ground arith)
      ]

  move_client-IsSafe :
      (addr : Bytes) (port : ℤ) (client : FrpClient) (s : Server)
      → SafeClient p q client
      → IsSafe p q s.frp
      → IsSafe p q (move_client w addr port client s).frp
  unfolding move_client reset_connection_id save_cfg
  move_client-IsSafe addr port client s safe h =
      case_if (IsSafeServer p q) (not (update_server w.domains addr port client).0) (λ foreign. h)
        (λ fine.
          let moved = (update_server w.domains addr port client).1 in
          let good = update_server-IsSafe addr port client fine safe in
          case_some (IsSafeServer p q) s.cfg good (λ c set.
            let done = restart w.launch (reset_connection_id moved) in
            let saved =
              (save_cfg w (record c { frp_server_addr = addr; frp_server_port = port }) s).1 in
            let s' : Server = record saved { frp = some done.1 } in
            Keeps-IsSafe p q w sound (clear_if_started-Keeps w done.0 (after_start w done.0 s')) (
              Keeps-IsSafe p q w sound (after_start-Keeps w done.0 s')
                (restart-IsSafe p q w.launch (reset_connection_id moved) good))))

  pub the_client :
      (s : Server) (client : FrpClient)
      → s.frp ≡ some client
      → IsSafe p q s.frp
      → SafeClient p q client
  the_client s client e h = subst (IsSafe p q) e h

  migrate-IsSafe :
      (m : MigrateInfo) (s : Server) → IsSafe p q s.frp → IsSafe p q (migrate w m s).frp
  unfolding migrate
  migrate-IsSafe m s h = case_some (IsSafeServer p q) s.cfg h (λ c set.
      case_some (IsSafeServer p q) s.frp
        (connect_to_received_addr-IsSafe m.frp_server_addr m.frp_server_port s h)
        (λ client e.
          move_client-IsSafe m.frp_server_addr m.frp_server_port client s (the_client s client e h)
            h))

  adopt_shard-IsSafe :
      (shard : ShardInfo) (s : Server) → IsSafe p q s.frp → IsSafe p q (adopt_shard w shard s).frp
  unfolding adopt_shard
  adopt_shard-IsSafe shard s h =
      case_if (IsSafeServer p q) (is_empty shard.frp_server_addr) (λ e. h)
        (λ e.
          case_some (IsSafeServer p q) s.frp
            (connect_to_received_addr-IsSafe shard.frp_server_addr shard.frp_server_port s h)
            (λ client e. case_some (IsSafeServer p q) s.cfg h (λ c set.
              case_if (IsSafeServer p q)
                (shard.frp_server_addr == c.frp_server_addr
                  && same_port w shard.frp_server_port c.frp_server_port)
                (λ same. h)
                (λ other.
                  move_client-IsSafe shard.frp_server_addr shard.frp_server_port client s
                    (the_client s client e h) h))))

  follow_server-IsSafe :
      (r : HeartbeatResponse) (s : Server) → IsSafe p q s.frp → IsSafe p q (follow_server w r s).frp
  unfolding follow_server
  follow_server-IsSafe r s h =
      let here =
        case_some (IsSafeServer p q) r.shard {s = s} {f = λ shard. adopt_shard w shard s} h
          (λ shard e. adopt_shard-IsSafe shard s h) in
      case_if (IsSafeServer p q) (r.status == lit "migrate")
        (λ e. case_some (IsSafeServer p q) r.migrate_to here (λ m e'. migrate-IsSafe m s h))
        (λ e. here)

  after_success-IsSafe :
      (response : Option HeartbeatResponse) (s : Server)
      → IsSafe p q s.frp
      → IsSafe p q (after_success w response s).frp
  unfolding after_success
  after_success-IsSafe response s h =
      let s1 = managed w (heartbeat_ok w.now) s in
      let s2 = start_reconcile w s1 in
      let alive : IsSafe p q s2.frp =
        Keeps-IsSafe p q w sound (start_reconcile-Keeps w s1)
          (managed-IsSafe (heartbeat_ok w.now) s h) in
      case_some (IsSafeServer p q) response alive (λ r e.
        let s3 = reset_ticker w r.next_heartbeat_ms s2 in
        follow_server-IsSafe r (clear_after_gap w r.gap_seconds s3) (
          Keeps-IsSafe p q w sound (clear_after_gap-Keeps w r.gap_seconds s3)
            (Keeps-IsSafe p q w sound (reset_ticker-Keeps w r.next_heartbeat_ms s2) alive)))

  supersede-IsSafe : (s : Server) → IsSafe p q s.frp → IsSafe p q (supersede w s).frp
  unfolding supersede stop reset_connection_id spawn
  supersede-IsSafe s h = case_some (IsSafeServer p q) s.frp h (λ client e. the_client s client e h)

  after_heartbeat-IsSafe :
      (result : HeartbeatResult) (s : Server)
      → IsSafe p q s.frp
      → IsSafe p q (after_heartbeat w result s).frp
  unfolding after_heartbeat
  after_heartbeat-IsSafe result s h =
      case_if (IsSafeServer p q) result.should_unpair (λ e. managed-IsSafe unpair_requested s h)
        (λ e.
          case_if (IsSafeServer p q) result.superseded (λ e'. supersede-IsSafe s h)
            (λ e'.
              case_some (IsSafeServer p q) result.error (after_success-IsSafe result.response s h)
                (λ why e''. managed-IsSafe heartbeat_failed s h)))

  pub send_heartbeat-IsSafe : (s : Server) → IsSafe p q s.frp → IsSafe p q (send_heartbeat w s).frp
  unfolding send_heartbeat
  send_heartbeat-IsSafe s h = case_some (IsSafeServer p q) s.cfg h (λ c e.
      after_heartbeat-IsSafe
        (heartbeat w.decoders.heartbeats w.http c.server_id (vitals w s) s.api).0 s h)
