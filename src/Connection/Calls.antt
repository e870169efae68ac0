-- ===== src/Connection/Calls.antt =====
-- What an observer of the callbacks learns of the manager's state.
use seawise_client.Prelude.{ℕ, ◌≡◌, ◌≢◌, true, List, [], ◌∷◌, ◌++◌, arith}
use seawise_client.Connection.{
  State, Manager, Call, state_changed, unpair_called, Op, set_state_op, step, run,
}

-- `Follows calls a b`: the notified changes lead from `a` to `b`, each from the state that the
-- one before has left, and none is void.
pub data Follows : List Call → State → State → Type 0 where
  done : {a : State} → Follows [] a a
  change :
      {a b c : State} {calls : List Call}
      → a ≢ b
      → Follows calls b c
      → Follows (state_changed a b ∷ calls) a c
  other :
      {a b : State} {calls : List Call} → Follows calls a b → Follows (unpair_called ∷ calls) a b

Follows-append :
    {a b c : State} {xs ys : List Call} → Follows xs a b → Follows ys b c → Follows (xs ++ ys) a c
Follows-append done g = g
Follows-append (change n f) g = change n (Follows-append f g)
Follows-append (other f) g = other (Follows-append f g)

module _ (spread : ℕ → ℕ → ℕ) where
  step-has_on_state_change :
      (op : Op) (m : Manager)
      → m.has_on_state_change ≡ true
      → (step spread op m).0.has_on_state_change ≡ true
  unfolding step
  step-has_on_state_change (set_state_op s) m h = ground arith
  step-has_on_state_change _ m h = ground arith

  step-Follows :
      (op : Op) (m : Manager)
      → m.has_on_state_change ≡ true
      → Follows (step spread op m).1 m.state (step spread op m).0.state
  unfolding step
  step-Follows (set_state_op s) m h = grind (arith, done, change, other)
  step-Follows _ m h = grind (arith, done, change, other)

  -- With the state callback set, the state changes that a run of any method calls notifies are
  -- each a real change, each starts in the state where the one before ended, and together they
  -- lead from the manager's state before the run to its state after it.
  pub run-Follows :
      (ops : List Op) (m : Manager)
      → m.has_on_state_change ≡ true
      → Follows (run spread ops m).1 m.state (run spread ops m).0.state
  unfolding run
  run-Follows [] m h = done
  run-Follows (op ∷ ops) m h =
      Follows-append (step-Follows op m h)
        (run-Follows ops (step spread op m).0 (step-has_on_state_change op m h))
