-- ===== src/Connection/Transient.antt =====
-- Which method calls can reach the state `unpaired`, and how often the unpair callback fires.
use seawise_client.Prelude.{
  ℕ, zero, suc, ◌+◌, ◌≤◌, ◌≡◌, ◌≢◌, true, List, [], ◌∷◌, ◌++◌, arith, leb, if◌then◌else◌, All,
}
use seawise_client.Connection.{
  reconnecting, unpaired, Manager, Call, state_changed, unpair_called, Op, set_state_op,
  heartbeat_ok_op, heartbeat_failed_op, unpair_requested_op, reset_backoff_op, calculate_backoff_op,
  step, run,
}

-- Any call but a request to unpair and a write of the state `unpaired`.
abbrev pub IsTransient : Op → Type 0
IsTransient unpair_requested_op = ⊥
IsTransient (set_state_op s) = s ≢ unpaired
IsTransient _ = Unit

abbrev pub NoUnpair : List Call → Type 0
NoUnpair calls = All (λ c. c ≢ unpair_called) calls

NoUnpair-append : (xs ys : List Call) → NoUnpair xs → NoUnpair ys → NoUnpair (xs ++ ys)
NoUnpair-append [] ys h k = k
NoUnpair-append (x ∷ xs) ys (p, h) k = (p, NoUnpair-append xs ys h k)

abbrev pub failures : ℕ → List Op
failures zero = []
failures (suc n) = heartbeat_failed_op ∷ failures n

module _ (spread : ℕ → ℕ → ℕ) where
  step_transient :
      (op : Op) (m : Manager)
      → IsTransient op
      → m.state ≢ unpaired
      → ((step spread op m).0.state ≢ unpaired) × NoUnpair (step spread op m).1
  unfolding step
  step_transient (set_state_op s) m t h = grind arith
  step_transient (heartbeat_ok_op n) m t h = grind arith
  step_transient heartbeat_failed_op m t h = grind arith
  step_transient unpair_requested_op m t h = absurd t
  step_transient reset_backoff_op m t h = grind arith
  step_transient (calculate_backoff_op w) m t h = grind arith

  -- From a manager that is not unpaired, calls that neither request an unpair nor write that
  -- state, such as failed heartbeats, never reach it and never fire the unpair callback.
  run_transient :
      (ops : List Op) (m : Manager)
      → All IsTransient ops
      → m.state ≢ unpaired
      → ((run spread ops m).0.state ≢ unpaired) × NoUnpair (run spread ops m).1
  unfolding run
  run_transient [] m t h = (h, tt)
  run_transient (op ∷ ops) m (t, ts) h =
      let (h', quiet) = step_transient op m t h in
      let (h'', later) = run_transient ops (step spread op m).0 ts h' in
      (
        h'',
        NoUnpair-append (step spread op m).1 (run spread ops (step spread op m).0).1 quiet later,
      )

  -- A streak of failed heartbeats is counted exactly, and the manager is reconnecting after it if
  -- the count has reached three, and in its old state otherwise.
  run-failures :
      (n : ℕ) (m : Manager)
      → ((run spread (failures (suc n)) m).0.consecutive_fails ≡ m.consecutive_fails + suc n)
        × ((run spread (failures (suc n)) m).0.state
            ≡ (if leb 3 (m.consecutive_fails + suc n) then reconnecting else m.state))
  unfolding run step
  run-failures zero m = (ground arith, ground arith)
  run-failures (suc n) m = (
    ground (arith, run-failures n (step spread heartbeat_failed_op m).0),
    ground (arith, run-failures n (step spread heartbeat_failed_op m).0),
  )

  -- A manager that was unpaired with two failures on its count, and misses one more heartbeat,
  -- leaves the state `unpaired`; the next request fires the unpair callback once more.
  unpair_fires_again :
      (m : Manager)
      → m.state ≡ unpaired
      → 2 ≤ m.consecutive_fails
      → m.has_on_state_change ≡ true
      → m.has_on_unpair ≡ true
      → (run spread (heartbeat_failed_op ∷ unpair_requested_op ∷ []) m).1
        ≡ state_changed unpaired reconnecting
          ∷ state_changed reconnecting unpaired
          ∷ unpair_called
          ∷ []
  unfolding run step
  unpair_fires_again m u f s c = ground arith
