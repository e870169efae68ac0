-- ===== src/Prelude/Dict.antt =====
-- Go's maps with string keys, as functions. The program iterates over a map only to drop entries
-- by a test, so the order of the entries plays no part; `prune` is that loop.
use mathlib.Core.Bool.{Bool}
use mathlib.Core.Option.{Option, none, some}
use seawise_client.Prelude.Tests.{if◌then◌else◌}
use seawise_client.Prelude.Bytes.{Bytes, ◌==◌}

abbrev pub Dict {ℓ} : Type ℓ → Type ℓ
Dict V = Bytes → Option V

module _ {ℓ} {V : Type ℓ} where
  abbrev pub empty : Dict V
  empty k = none

  -- m[k] = v
  abbrev pub put : Bytes → V → Dict V → Dict V
  put k v m j = if k == j then some v else m j

  -- delete(m, k)
  abbrev pub delete : Bytes → Dict V → Dict V
  delete k m j = if k == j then none else m j

  abbrev pub drop_if : (V → Bool) → Option V → Option V
  drop_if stale none = none
  drop_if stale (some v) = if stale v then none else some v

  -- for k, v := range m { if stale(v) { delete(m, k) } }
  abbrev pub prune : (V → Bool) → Dict V → Dict V
  prune stale m j = drop_if stale (m j)
