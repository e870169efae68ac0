-- ===== src/Frp/Monitor.antt =====
-- monitorProcess of internal/frp/frp.go and the calls it overlaps with, at the points where they
-- hold the lock or wait. Processes and stop channels are numbered in the order they are made, and
-- the channel cmdDone of a process has its number; a stop channel is closed before the next one is
-- made.
use seawise_client.Frp.{stopped, crashed, running, ProcessState}
use seawise_client.Prelude.{
  ℕ, suc, ◌+◌, ◌≡◌, ◌≢◌, Bool, true, false, ◌&&◌, ◌||◌, Option, none, some, ltb, eqb, if◌then◌else◌,
}
pub mod Fates
pub mod Reaping
pub mod Late

-- Where a monitor is: it has not read the fields of the client; it waits for the process it has
-- read, whose cmdDone it will close, with the stop channel it has read; it has found that channel
-- open, and will close a cmdDone; or it is over.
pub data Monitor : Type 0 where
  absent begun ended : Monitor
  watching : ℕ → ℕ → Monitor
  decided : ℕ → Monitor

-- Where a Stop is: none is under way; it has captured a process and its cmdDone; it has signalled the
-- process and waits for that cmdDone; or it need not wait. One Stop runs at a time.
pub data Stopping : Type 0 where
  idle released : Stopping
  captured waiting : ℕ → Stopping

-- `cmd_done` is the process of the field cmdDone, `waited` tells the processes that Wait has returned
-- for, and `reaped` those whose cmdDone is closed.
pub record Life : Type 0 where
  pub cmd : Option ℕ
  pub cmd_done : Option ℕ
  pub state : ProcessState
  pub crash_count : ℕ
  pub stop_chan : ℕ
  pub stop_closed : Bool
  pub stopping : Stopping
  pub started : ℕ
  pub alive : ℕ → Bool
  pub waited : ℕ → Bool
  pub reaped : ℕ → Bool
  pub monitors : ℕ → Monitor

abbrev pub update {ℓ} : {A : Type ℓ} → ℕ → A → (ℕ → A) → ℕ → A
update p a f q = if eqb p q then a else f q

abbrev pub close_done : Option ℕ → (ℕ → Bool) → ℕ → Bool
close_done none reaped = reaped
close_done (some q) reaped = update q true reaped

-- Start, once the process is spawned.
unfoldable pub start_process : Life → Life
start_process s = record s {
  cmd = some s.started;
  cmd_done = some s.started;
  state = running;
  started = suc s.started;
  alive = update s.started true s.alive;
  monitors = update s.started begun s.monitors;
}

-- The monitor reads cmd, stopChan and cmdDone, which may be those of a later process; without a cmd
-- it closes the cmdDone it has read, if any, and returns.
unfoldable pub read_with : ℕ → Option ℕ → Life → Life
read_with p none s = record s {
  monitors = update p ended s.monitors;
  reaped = close_done s.cmd_done s.reaped;
}
read_with p (some q) s = record s { monitors = update p (watching q s.stop_chan) s.monitors }

unfoldable pub read_fields : ℕ → Life → Life
unfolding read_with
read_fields p s = read_with p s.cmd s

unfoldable pub exit_process : ℕ → Life → Life
exit_process p s = record s { alive = update p false s.alive }

-- Whether a stop channel is closed.
unfoldable pub is_closed : ℕ → Life → Bool
is_closed ch s = ltb ch s.stop_chan || (eqb ch s.stop_chan && s.stop_closed)

-- Wait has returned to the monitor p of the process q.
unfoldable pub wake : ℕ → ℕ → ℕ → Life → Life
unfolding is_closed
wake p q ch s =
    if is_closed ch s
    then record s {
      monitors = update p ended s.monitors;
      waited = update q true s.waited;
      reaped = update q true s.reaped;
    }
    else record s { monitors = update p (decided q) s.monitors; waited = update q true s.waited }

unfoldable pub record_crash : ℕ → ℕ → Life → Life
record_crash p q s = record s {
  state = crashed;
  crash_count = s.crash_count + 1;
  monitors = update p ended s.monitors;
  reaped = update q true s.reaped;
}

-- Stop up to its first unlock.
unfoldable pub begin_stop : Life → Life
begin_stop s = record s {
  cmd = none;
  state = stopped;
  stop_closed = true;
  stopping = elim s.cmd [ none ↦ released | some p ↦ captured p ];
}

-- Neither signal reaches a process that has been waited for, and then Stop does not wait.
unfoldable pub signal : ℕ → Life → Life
signal p s = record s { stopping = if s.waited p then released else waiting p }

-- The rest of Stop.
unfoldable pub end_stop : Life → Life
end_stop s = record s { stop_chan = suc s.stop_chan; stop_closed = false; stopping = idle }

abbrev pub may_end : Stopping → (ℕ → Bool) → Bool
may_end released reaped = true
may_end (waiting p) reaped = reaped p
may_end idle reaped = false
may_end (captured p) reaped = false

-- Every monitor has read the fields.
abbrev pub AllRead : Life → Type 0
AllRead s = (p : ℕ) → s.monitors p ≢ begun

-- If the flag is set, a Start spawns its process only after the monitors of all earlier ones have
-- read the fields; the code does not wait for that.
pub data Step (prompt : Bool) : Life → Life → Type 0 where
  starts : {s : Life} → (prompt ≡ true → AllRead s) → Step prompt s (start_process s)
  reads : {s : Life} (p : ℕ) → s.monitors p ≡ begun → Step prompt s (read_fields p s)
  exits : {s : Life} (p : ℕ) → Step prompt s (exit_process p s)
  wakes :
      {s : Life} (p q ch : ℕ)
      → s.monitors p ≡ watching q ch
      → s.alive q ≡ false
      → Step prompt s (wake p q ch s)
  records : {s : Life} (p q : ℕ) → s.monitors p ≡ decided q → Step prompt s (record_crash p q s)
  begins_stop : {s : Life} → s.stop_closed ≡ false → Step prompt s (begin_stop s)
  signals : {s : Life} (p : ℕ) → s.stopping ≡ captured p → Step prompt s (signal p s)
  ends_stop : {s : Life} → may_end s.stopping s.reaped ≡ true → Step prompt s (end_stop s)

pub data Steps (prompt : Bool) : Life → Life → Type 0 where
  here : {s : Life} → Steps prompt s s
  more : {s t r : Life} → Step prompt s t → Steps prompt t r → Steps prompt s r

unfoldable pub fresh : Life
fresh = record {
  cmd = none;
  cmd_done = none;
  state = stopped;
  crash_count = 0;
  stop_chan = 0;
  stop_closed = false;
  stopping = idle;
  started = 0;
  alive = λ p. false;
  waited = λ p. false;
  reaped = λ p. false;
  monitors = λ p. absent;
}
