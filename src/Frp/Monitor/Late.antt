-- ===== src/Frp/Monitor/Late.antt =====
-- A monitor of internal/frp/frp.go that is late.
use seawise_client.Frp.Monitor.{
  records, ends_stop, begins_stop, signals, more, Steps, Life, begin_stop, signal, end_stop, update,
  captured, released, waiting, Stopping, may_end, start_process, Monitor, record_crash, here,
  starts, begun, decided,
}
use seawise_client.Frp.{crashed}
use seawise_client.Prelude.{
  ℕ, ◌<◌, ◌≡◌, refl, Bool, true, false, Option, none, some, arith, ◌∙◌, eqb_refl, if◌then◌else◌,
}

off_update : (q p : ℕ) (a : Monitor) (f : ℕ → Monitor) → p < q → update q a f p ≡ f p
off_update q p a f lt = ground arith

captured_of :
    (c : Option ℕ) (p : ℕ)
    → c ≡ some p
    → (elim c as (λ x. Stopping) [ none ↦ released | some q ↦ captured q ]) ≡ captured p
captured_of c p h = rw h refl

released_of :
    (b : Bool) (p : ℕ) (reaped : ℕ → Bool)
    → b ≡ true
    → may_end (if b then released else waiting p) reaped ≡ true
released_of b p reaped h = rw h refl

-- What follows a Stop and a Start when the monitor p of the process p records its crash late.
abbrev pub late_crash : ℕ → Life → Life
late_crash p s = record_crash p p (start_process (end_stop (signal p (begin_stop s))))

-- A monitor that has found the stop channel open, and records the crash only after a Stop and a
-- further Start, declares the client crashed while its new process runs.
pub record_crash-start_process :
    (s : Life) (p : ℕ)
    → s.monitors p ≡ decided p
    → s.waited p ≡ true
    → s.cmd ≡ some p
    → s.stop_closed ≡ false
    → (p < s.started)
    → Steps false s (late_crash p s)
      × ((late_crash p s).state ≡ crashed)
      × ((late_crash p s).cmd ≡ some s.started)
      × ((late_crash p s).alive s.started ≡ true)
unfolding record_crash start_process end_stop signal begin_stop
record_crash-start_process s p m w h o lt = (
  more (begins_stop o) (
      more (signals p (captured_of s.cmd p h)) (
        more (ends_stop (released_of (s.waited p) p s.reaped w)) (
          more (starts (λ e. cc))
            (more (records p p (off_update s.started p begun s.monitors lt ∙ m)) here)))),
  refl,
  refl,
  rw (eqb_refl s.started) refl,
)
