-- ===== src/Frp/Monitor/Fates.antt =====
-- What becomes of the cmdDone of each process of internal/frp/frp.go, if no monitor reads the fields
-- of the client late.
use seawise_client.Frp.Monitor.{
  absent, begun, decided, ended, read_with, update, watching, start_process, Monitor, Life,
  close_done, AllRead, captured, waiting,
}
use mathlib.Core.Option.{some_inj}
use seawise_client.Prelude.{
  ℕ, zero, ◌<◌, ◌≡◌, ◌≢◌, refl, sym, ap, ◌⊎◌, inl, inr, Bool, true, false, Option, none, some,
  arith, eqb, ◌∙◌, Bool-cases, eqb_refl, eqb→eq, subst,
}

-- What becomes of the cmdDone of a process: its monitor has still to read it, with the cmd of that
-- process or none; the monitor waits for that process, or has found the stop channel open; or it is
-- closed.
pub data Fate (s : Life) (p : ℕ) : Type 0 where
  unread :
      s.monitors p ≡ begun → s.cmd_done ≡ some p → ((q : ℕ) → s.cmd ≡ some q → q ≡ p) → Fate s p
  waits : (ch : ℕ) → s.monitors p ≡ watching p ch → Fate s p
  decides : s.monitors p ≡ decided p → Fate s p
  done : s.reaped p ≡ true → Fate s p

pub record Sane (s : Life) : Type 0 where
  pub fate : (p : ℕ) → p < s.started → Fate s p
  pub cmd_started : (p : ℕ) → s.cmd ≡ some p → p < s.started
  pub captured_started : (p : ℕ) → s.stopping ≡ captured p → p < s.started
  pub waiting_started : (p : ℕ) → s.stopping ≡ waiting p → p < s.started

abbrev pub target : Monitor → ℕ
target absent = zero
target begun = zero
target ended = zero
target (watching q ch) = q
target (decided q) = q

pub update-at {ℓ} : {A : Type ℓ} (p : ℕ) (a : A) (f : ℕ → A) → update p a f p ≡ a
update-at p a f = rw (eqb_refl p) refl

pub update-same {ℓ} :
    {A : Type ℓ} (q p : ℕ) (a : A) (f : ℕ → A) → eqb q p ≡ true → update q a f p ≡ a
update-same q p a f e = rw e refl

pub update-other {ℓ} :
    {A : Type ℓ} (q p : ℕ) (a : A) (f : ℕ → A) → eqb q p ≡ false → update q a f p ≡ f p
update-other q p a f e = rw e refl

pub still_closed : (q p : ℕ) (f : ℕ → Bool) → f p ≡ true → update q true f p ≡ true
still_closed q p f h = ground arith

close_done_stays : (c : Option ℕ) (p : ℕ) (f : ℕ → Bool) → f p ≡ true → close_done c f p ≡ true
close_done_stays none p f h = h
close_done_stays (some q) p f h = still_closed q p f h

-- A process that a step does not touch keeps its fate.
pub keeps :
    (s t : Life) (p : ℕ)
    → t.monitors p ≡ s.monitors p
    → t.cmd_done ≡ s.cmd_done
    → ((q : ℕ) → t.cmd ≡ some q → s.cmd ≡ some q)
    → (s.reaped p ≡ true → t.reaped p ≡ true)
    → Fate s p
    → Fate t p
keeps s t p m d c r (unread a b e) = unread (m ∙ a) (d ∙ b) (λ q h. e q (c q h))
keeps s t p m d c r (waits ch a) = waits ch (m ∙ a)
keeps s t p m d c r (decides a) = decides (m ∙ a)
keeps s t p m d c r (done a) = done (r a)

start-Fate :
    (s : Life) (p : ℕ) → AllRead s → eqb s.started p ≡ false → Fate s p → Fate (start_process s) p
unfolding start_process
start-Fate s p all e (unread m d c) = absurd (all p m)
start-Fate s p all e (waits ch m) = waits ch (update-other s.started p begun s.monitors e ∙ m)
start-Fate s p all e (decides m) = decides (update-other s.started p begun s.monitors e ∙ m)
start-Fate s p all e (done r) = done r

pub start_process-Sane : (s : Life) → AllRead s → Sane s → Sane (start_process s)
unfolding start_process
start_process-Sane s all k = record {
  fate = λ p lt. elim (Bool-cases (eqb s.started p)) [
    | inl e ↦
        let same = eqb→eq s.started p e in
        unread (update-same s.started p begun s.monitors e) (ap some same)
          (λ q h. sym (some_inj.0 h) ∙ same)
    | inr e ↦ start-Fate s p all e (k.fate p (ground arith))
  ];
  cmd_started = λ p e. omega (arith, some_inj.0 e);
  captured_started = λ p e. omega (arith, k.captured_started p e);
  waiting_started = λ p e. omega (arith, k.waiting_started p e);
}

-- The monitor of p finds no cmd, and closes the cmdDone that it finds.
pub own_read_none :
    (s : Life) (p : ℕ) → s.monitors p ≡ begun → Fate s p → close_done s.cmd_done s.reaped p ≡ true
own_read_none s p m (unread a d c) = rw d (update-at p true s.reaped)
own_read_none s p m (waits ch a) = absurd cc
own_read_none s p m (decides a) = absurd cc
own_read_none s p m (done r) = close_done_stays s.cmd_done p s.reaped r

-- The monitor of p finds a cmd, which is that of p.
own_read_some :
    (s : Life) (p r : ℕ)
    → s.monitors p ≡ begun
    → s.cmd ≡ some r
    → Fate s p
    → Fate (read_with p (some r) s) p
unfolding read_with
own_read_some s p r m e (unread a d c) =
    waits s.stop_chan
      (update-at p (watching r s.stop_chan) s.monitors ∙ ap (λ q. watching q s.stop_chan) (c r e))
own_read_some s p r m e (waits ch a) = absurd cc
own_read_some s p r m e (decides a) = absurd cc
own_read_some s p r m e (done b) = done b

read-Fate :
    (s : Life) (q p : ℕ) (c : Option ℕ)
    → s.cmd ≡ c
    → s.monitors q ≡ begun
    → Fate s p
    → Fate (read_with q c s) p
unfolding read_with
read-Fate s q p none e m f = elim (Bool-cases (eqb q p)) [
  | inl same ↦ done (own_read_none s p (ap s.monitors (sym (eqb→eq q p same)) ∙ m) f)
  | inr other ↦
      keeps s (read_with q none s) p (update-other q p ended s.monitors other) refl (λ r h. h)
        (close_done_stays s.cmd_done p s.reaped) f
]
read-Fate s q p (some r) e m f = elim (Bool-cases (eqb q p)) [
  | inl same ↦
      let there = eqb→eq q p same in
      subst (λ x. Fate (read_with x (some r) s) p) (sym there)
        (own_read_some s p r (ap s.monitors (sym there) ∙ m) e f)
  | inr other ↦
      keeps s (read_with q (some r) s) p
        (update-other q p (watching r s.stop_chan) s.monitors other) refl (λ x h. h) (λ h. h) f
]

pub read_with-Sane :
    (s : Life) (q : ℕ) (c : Option ℕ)
    → s.cmd ≡ c
    → s.monitors q ≡ begun
    → Sane s
    → Sane (read_with q c s)
unfolding read_with
read_with-Sane s q none e m k = record {
  fate = λ p lt. read-Fate s q p none e m (k.fate p lt);
  cmd_started = k.cmd_started;
  captured_started = k.captured_started;
  waiting_started = k.waiting_started;
}
read_with-Sane s q (some r) e m k = record {
  fate = λ p lt. read-Fate s q p (some r) e m (k.fate p lt);
  cmd_started = k.cmd_started;
  captured_started = k.captured_started;
  waiting_started = k.waiting_started;
}

-- A monitor that waits for r, or will close the cmdDone of r, and is the one of p, has r for p.
pub own_target :
    (s : Life) (p r : ℕ) (m : Monitor)
    → s.monitors p ≡ m
    → target m ≡ r
    → m ≢ begun
    → Fate s p
    → (r ≡ p) ⊎ (s.reaped p ≡ true)
own_target s p r m e h b (unread a d c) = absurd (b (sym e ∙ a))
own_target s p r m e h b (waits ch a) = inl (sym h ∙ ap target (sym e ∙ a))
own_target s p r m e h b (decides a) = inl (sym h ∙ ap target (sym e ∙ a))
own_target s p r m e h b (done c) = inr c

-- After a step of the monitor q that closes the cmdDone of r.
pub closing-Fate :
    (s t : Life) (q r p : ℕ) (m : Monitor)
    → s.monitors q ≡ m
    → target m ≡ r
    → m ≢ begun
    → t.monitors ≡ update q ended s.monitors
    → t.reaped ≡ update r true s.reaped
    → t.cmd_done ≡ s.cmd_done
    → t.cmd ≡ s.cmd
    → Fate s p
    → Fate t p
closing-Fate s t q r p m e h b tm tr td tc f = elim (Bool-cases (eqb q p)) [
  | inl same ↦ elim (own_target s p r m (ap s.monitors (sym (eqb→eq q p same)) ∙ e) h b f) [
    | inl there ↦
        done
          (ap (λ g. g p) tr ∙ ap (λ x. update x true s.reaped p) there ∙ update-at p true s.reaped)
    | inr closed ↦ done (ap (λ g. g p) tr ∙ still_closed r p s.reaped closed)
  ]
  | inr other ↦
      keeps s t p (ap (λ g. g p) tm ∙ update-other q p ended s.monitors other) td
        (λ x c. sym tc ∙ c) (λ c. ap (λ g. g p) tr ∙ still_closed r p s.reaped c) f
]

-- After the monitor q, which waited for r, has found the stop channel open.
pub deciding-Fate :
    (s t : Life) (q r p ch : ℕ)
    → s.monitors q ≡ watching r ch
    → t.monitors ≡ update q (decided r) s.monitors
    → t.reaped ≡ s.reaped
    → t.cmd_done ≡ s.cmd_done
    → t.cmd ≡ s.cmd
    → Fate s p
    → Fate t p
deciding-Fate s t q r p ch e tm tr td tc f = elim (Bool-cases (eqb q p)) [
  | inl same ↦
      elim (own_target s p r (watching r ch) (ap s.monitors (sym (eqb→eq q p same)) ∙ e) refl
        (λ x. cc) f) [
          | inl there ↦
              decides
                (ap (λ g. g p) tm ∙ update-same q p (decided r) s.monitors same ∙ ap decided there)
          | inr closed ↦ done (ap (λ g. g p) tr ∙ closed)
        ]
  | inr other ↦
      keeps s t p (ap (λ g. g p) tm ∙ update-other q p (decided r) s.monitors other) td
        (λ x c. sym tc ∙ c) (λ c. ap (λ g. g p) tr ∙ c) f
]
