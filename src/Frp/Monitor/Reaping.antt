-- ===== src/Frp/Monitor/Reaping.antt =====
-- A Stop of internal/frp/frp.go that is under way can end, if no monitor reads the fields late.
use seawise_client.Frp.Monitor.{
  more, Life, Step, Steps, Stopping, idle, released, captured, waiting,
}
use seawise_client.Prelude.{ℕ, zero, ◌≡◌, true, false}

abbrev process_of : Stopping → ℕ
process_of idle = zero
process_of released = zero
process_of (captured p) = p
process_of (waiting p) = p

-- A run to a state where the Stop is over.
abbrev pub Stops : Life → Type 0
Stops s = (t : Life) × Steps true s t × (t.stop_closed ≡ false) × (t.stopping ≡ idle)

after : {s t : Life} → Step true s t → Stops t → Stops s
after x (t, run, a, b) = (t, more x run, a, b)
