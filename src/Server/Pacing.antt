-- ===== src/Server/Pacing.antt =====
-- How fast cmd/seawise/server/heartbeat.go lets the server ask for heartbeats.
use seawise_client.Server.{World}
use seawise_client.Prelude.{ℕ, ◌*◌, ◌≤◌, ◌<◌, ◌≡◌, ◌⊎◌, arith}
use seawise_client.Server.Beating.{next_period}

-- Whatever number of milliseconds the server asks for, also one whose duration overflows an int64,
-- the period lies between ten seconds and five minutes; a number within these bounds is granted
-- exactly.
pub next_period-bounds :
    (w : World) (ms : ℕ)
    → (10000000000 ≤ next_period w ms)
      × (next_period w ms ≤ 300000000000)
      × ((next_period w ms ≡ ms * 1000000) ⊎ (ms < 10000) ⊎ (300000 < ms))
unfolding next_period
next_period-bounds w ms = (ground arith, ground arith, ground arith)
