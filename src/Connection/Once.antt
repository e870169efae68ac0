-- ===== src/Connection/Once.antt =====
-- How often the unpair callback fires.
use seawise_client.Prelude.{
  ℕ, suc, ◌+◌, ◌≡◌, Bool, true, false, not, ◌&&◌, ◌||◌, List, [], ◌∷◌, ◌++◌, arith, if◌then◌else◌,
  All, any,
}
use seawise_client.Connection.{
  unpaired, Manager, Call, state_changed, same, unpair_called, Op, set_state_op,
  heartbeat_failed_op, unpair_requested_op, step, run,
}

-- Calls among which a manager that is unpaired stays so: heartbeats that succeed, requests, and
-- the backoff counter.
abbrev pub IsQuiet : Op → Type 0
IsQuiet (set_state_op s) = ⊥
IsQuiet heartbeat_failed_op = ⊥
IsQuiet _ = Unit

abbrev pub is_request : Op → Bool
is_request unpair_requested_op = true
is_request _ = false

-- How often the unpair callback fires.
abbrev pub fired : List Call → ℕ
fired [] = 0
fired (unpair_called ∷ calls) = suc (fired calls)
fired (state_changed a b ∷ calls) = fired calls

fired-append : (xs ys : List Call) → fired (xs ++ ys) ≡ fired xs + fired ys
fired-append [] ys = omega arith
fired-append (unpair_called ∷ xs) ys = omega (arith, fired-append xs ys)
fired-append (state_changed a b ∷ xs) ys = fired-append xs ys

module _ (spread : ℕ → ℕ → ℕ) where
  fired-step :
      (op : Op) (m : Manager)
      → IsQuiet op
      → fired (step spread op m).1
        ≡ (if not (same m.state unpaired) && m.has_on_unpair && is_request op then 1 else 0)
  unfolding step
  fired-step unpair_requested_op m q = ground arith
  fired-step (set_state_op s) m q = absurd q
  fired-step _ m q = ground arith

  step-has_on_unpair :
      (op : Op) (m : Manager) → (step spread op m).0.has_on_unpair ≡ m.has_on_unpair
  unfolding step
  step-has_on_unpair (set_state_op s) m = ground arith
  step-has_on_unpair _ m = ground arith

  step-unpaired :
      (op : Op) (m : Manager)
      → IsQuiet op
      → same (step spread op m).0.state unpaired ≡ (same m.state unpaired || is_request op)
  unfolding step
  step-unpaired unpair_requested_op m q = ground arith
  step-unpaired (set_state_op s) m q = absurd q
  step-unpaired _ m q = ground arith

  -- In a run of quiet calls the unpair callback fires once if it is set, the manager was not yet
  -- unpaired and a request is among the calls, and not at all otherwise.
  fired-run :
      (ops : List Op) (m : Manager)
      → All IsQuiet ops
      → fired (run spread ops m).1
        ≡ (if not (same m.state unpaired) && m.has_on_unpair && any is_request ops then 1 else 0)
  unfolding run
  fired-run [] m q = ground arith
  fired-run (op ∷ ops) m (q, qs) = ground (
    arith,
    fired-append (step spread op m).1 (run spread ops (step spread op m).0).1,
    fired-run ops (step spread op m).0 qs,
    fired-step op m q,
    step-has_on_unpair op m,
    step-unpaired op m q,
  )
