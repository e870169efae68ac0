-- ===== src/Server/Beating.antt =====
-- sendHeartbeat of cmd/seawise/server/heartbeat.go and what it does with each answer. The client
-- it captured at its start is the server's own, since a step is not interrupted.
use seawise_client.Frp.{StartError, FrpClient, is_allowed_server_addr, update_server, stop, restart}
use seawise_client.Prelude.{
  ℕ, zero, suc, ◌*◌, ◌^◌, Bool, true, false, not, ◌&&◌, ◌||◌, Option, none, some, [], ltb, leb, eqb,
  if◌then◌else◌, length, ℤ, pos, negsuc, is_empty, ◌%◌,
}
use seawise_client.Prelude.Bytes.{Bytes, lit, ◌==◌}
use seawise_client.Prelude.Dict.{empty}
use seawise_client.Connection.{connecting, heartbeat_ok, heartbeat_failed, unpair_requested}
use seawise_client.Frp.Methods.{is_running, reset_connection_id}
use seawise_client.Api.Heartbeat.{
  MigrateInfo, ShardInfo, HeartbeatResponse, HeartbeatResult, Vitals, heartbeat,
}
use seawise_client.Server.{
  Server, World, spawn, managed, set_connection, after_start, save_cfg, restarts_superseded,
  reconciles, checks_health,
}
use seawise_client.Server.Starting.{start_services}

module _ (w : World) where
  unfoldable pub adopt_frp_server_addr : Bytes → ℤ → Server → Bool × Server
  unfolding save_cfg
  adopt_frp_server_addr addr port s =
      if not (is_allowed_server_addr w.http.unicode w.domains addr)
      then (false, s)
      else elim s.cfg [
        | none ↦ (false, s)
        | some c ↦ elim s.frp [
          | some client ↦ (false, s)
          | none ↦ save_cfg w (record c { frp_server_addr = addr; frp_server_port = port }) s
        ]
      ]

  unfoldable pub connect_to_received_addr : Bytes → ℤ → Server → Server
  unfolding adopt_frp_server_addr set_connection start_services
  connect_to_received_addr addr port s =
      let (adopted, s') = adopt_frp_server_addr addr port s in
      if not adopted then s' else start_services w (set_connection w connecting s')

  unfoldable pub clear_if_started : Option StartError → Server → Server
  clear_if_started none s = record s { last_health_status = empty }
  clear_if_started (some why) s = s

  -- A trusted address for a running client: it is saved, and the client restarts.
  unfoldable pub move_client : Bytes → ℤ → FrpClient → Server → Server
  unfolding save_cfg after_start restart reset_connection_id clear_if_started
  move_client addr port client s =
      let (trusted, client') = update_server w.domains addr port client in
      if not trusted then s else elim s.cfg [
        | none ↦ record s { frp = some client' }
        | some c ↦
            let s' =
              (save_cfg w (record c { frp_server_addr = addr; frp_server_port = port }) s).1 in
            let (e, client'') = restart w.launch (reset_connection_id client') in
            clear_if_started e (after_start w e (record s' { frp = some client'' }))
      ]

  -- The duration in nanoseconds, as an int64 wraps, within ten seconds and five minutes.
  unfoldable pub next_period : ℕ → ℕ
  next_period ms =
      let interval = (ms * 1000000) % 2 ^ 64 in
      if leb (2 ^ 63) interval || ltb interval 10000000000
      then 10000000000
      else if ltb 300000000000 interval
      then 300000000000
      else interval

  unfoldable pub reset_ticker : ℤ → Server → Server
  unfolding next_period
  reset_ticker (pos zero) s = s
  reset_ticker (pos (suc ms)) s = record s { heartbeat_period = next_period (suc ms) }
  reset_ticker (negsuc n) s = s

  unfoldable pub is_gap : ℤ → Bool
  is_gap (pos n) = ltb 30 n
  is_gap (negsuc n) = false

  unfoldable pub clear_after_gap : ℤ → Server → Server
  unfolding is_gap spawn
  clear_after_gap gap s =
      if is_gap gap then spawn checks_health (record s { last_health_status = empty }) else s

  unfoldable pub start_reconcile : Server → Server
  unfolding spawn
  start_reconcile s =
      if s.reconcile_in_progress
      then s
      else spawn reconciles (record s { reconcile_in_progress = true })

  unfoldable pub migrate : MigrateInfo → Server → Server
  unfolding connect_to_received_addr move_client
  migrate m s = elim s.cfg [
    | none ↦ s
    | some c ↦ elim s.frp [
      | none ↦ connect_to_received_addr m.frp_server_addr m.frp_server_port s
      | some client ↦ move_client m.frp_server_addr m.frp_server_port client s
    ]
  ]

  abbrev pub same_port : ℤ → ℤ → Bool
  same_port (pos m) (pos n) = eqb m n
  same_port (negsuc m) (negsuc n) = eqb m n
  same_port (pos m) (negsuc n) = false
  same_port (negsuc m) (pos n) = false

  unfoldable pub adopt_shard : ShardInfo → Server → Server
  unfolding connect_to_received_addr move_client
  adopt_shard shard s = if is_empty shard.frp_server_addr then s else elim s.frp [
    | none ↦ connect_to_received_addr shard.frp_server_addr shard.frp_server_port s
    | some client ↦ elim s.cfg [
      | none ↦ s
      | some c ↦
          if shard.frp_server_addr == c.frp_server_addr
            && same_port shard.frp_server_port c.frp_server_port
          then s
          else move_client shard.frp_server_addr shard.frp_server_port client s
    ]
  ]

  -- The migration comes first, and leaves the shard for a later answer.
  unfoldable pub follow_server : HeartbeatResponse → Server → Server
  unfolding migrate adopt_shard
  follow_server r s =
      let here : Server = elim r.shard [ none ↦ s | some shard ↦ adopt_shard shard s ] in
      if r.status == lit "migrate"
      then elim r.migrate_to [ none ↦ here | some m ↦ migrate m s ]
      else here

  unfoldable pub after_success : Option HeartbeatResponse → Server → Server
  unfolding managed heartbeat_ok start_reconcile reset_ticker clear_after_gap follow_server
  after_success response s =
      let alive = start_reconcile (managed w (heartbeat_ok w.now) s) in
      elim response [
        | none ↦ alive
        | some r ↦
            follow_server r (clear_after_gap r.gap_seconds (reset_ticker r.next_heartbeat_ms alive))
      ]

  unfoldable pub supersede : Server → Server
  unfolding spawn stop reset_connection_id
  supersede s = elim s.frp [
    | none ↦ s
    | some client ↦
        spawn restarts_superseded (record s { frp = some (stop (reset_connection_id client)) })
  ]

  -- The tests on a result, in their order.
  unfoldable pub after_heartbeat : HeartbeatResult → Server → Server
  unfolding managed unpair_requested supersede heartbeat_failed after_success
  after_heartbeat result s =
      if result.should_unpair
      then managed w unpair_requested s
      else if result.superseded
      then supersede s
      else elim result.error [
        | some e ↦ managed w heartbeat_failed s
        | none ↦ after_success result.response s
      ]

  unfoldable pub vitals : Server → Vitals
  unfolding is_running
  vitals s = elim s.frp [
    | none ↦ record {
      frp_connected = false;
      service_count = 0;
      client_version = w.version;
      connection_id = [];
    }
    | some client ↦ record {
      frp_connected = is_running client || not (is_empty client.connection_id);
      service_count = length client.services;
      client_version = w.version;
      connection_id = client.connection_id;
    }
  ]

  unfoldable pub send_heartbeat : Server → Server
  unfolding vitals after_heartbeat
  send_heartbeat s = elim s.cfg [
    | none ↦ s
    | some c ↦
        after_heartbeat (heartbeat w.decoders.heartbeats w.http c.server_id (vitals s) s.api).0 s
  ]
