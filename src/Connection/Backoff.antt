-- ===== src/Connection/Backoff.antt =====
-- The retry delays that a series of calls of `CalculateBackoff` returns.
use seawise_client.Prelude.{ℕ, ◌+◌, ◌≤◌, List, [], ◌∷◌, arith}
use seawise_client.Connection.{Manager, capped_delay, calculate_backoff}

-- The delays of a series of calls, one for each random word.
module _ (spread : ℕ → ℕ → ℕ) where
  unfoldable pub delays : List ℕ → Manager → List ℕ
  delays [] m = []
  delays (w ∷ ws) m = let (m', delay) = calculate_backoff spread w m in delay ∷ delays ws m'

-- From attempt `k` on, each delay lies between the exponential delay of its attempt and the cap.
abbrev pub OnSchedule : ℕ → ℕ → ℕ → List ℕ → Type 0
OnSchedule base cap k [] = Unit
OnSchedule base cap k (d ∷ ds) =
    (capped_delay base cap k ≤ d) × (d ≤ cap) × OnSchedule base cap (k + 1) ds

pub capped_delay-le : (base cap attempt : ℕ) → capped_delay base cap attempt ≤ cap
unfolding capped_delay
capped_delay-le base cap attempt = ground arith

module _ (spread : ℕ → ℕ → ℕ) (grows : (d w : ℕ) → d ≤ spread d w) where
  -- When the jitter adds to a delay, every delay of a series lies between the exponential delay of
  -- its attempt, base * 2^k up to the cap, and the cap, and each call moves on to the next attempt;
  -- the series starts at the manager's attempt counter.
  delays-OnSchedule :
      (ws : List ℕ) (m : Manager)
      → OnSchedule m.base_retry_delay m.max_retry_delay m.reconnect_attempt (delays spread ws m)
  unfolding delays calculate_backoff
  delays-OnSchedule [] m = tt
  delays-OnSchedule (w ∷ ws) m = (
    ground (
      arith,
      capped_delay-le m.base_retry_delay m.max_retry_delay m.reconnect_attempt,
      grows (capped_delay m.base_retry_delay m.max_retry_delay m.reconnect_attempt) w,
    ),
    ground arith,
    delays-OnSchedule ws (record m { reconnect_attempt = m.reconnect_attempt + 1 }),
  )
