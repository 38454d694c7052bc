-- ===== src/Sched/Sleep/Ticks.antt =====
-- How long a sleep takes.
use ikaros.Base.{
  ℕ, zero, suc, ◌+◌, ◌-◌, ◌*◌, ◌/◌, ◌%◌, ◌^◌, ◌<◌, ◌≡◌, ◌≢◌, refl, ◌∙◌, ap, List, [], ◌∷◌, All,
  true, false, some, arith, leb, length, ◌==◌, Bool-cases, inl, inr, Option,
}
use ikaros.Sched.Task.{running, task_set_state}
use ikaros.Sched.Wait.{Queue, wait_init}
use ikaros.Sched.Wait.Wake.{Entries, wait_wake_up_interruptible-Woken}
use ikaros.Sched.Wait.Rounds.{prepared, Entries-set, prepare_lem, finished, finish_lem}
use ikaros.Interrupts.Timer.{timer_range_to_ms}
use ikaros.Interrupts.Timer.Calibration.{timer_range_to_ms_lem}
use ikaros.Sched.Sleep.{Clock, scheduler_timer, tick, sleep_loop, scheduler_sleep, slept}

-- The lock is free, and the entries `xs` wait, none of them at `wq`.
pub record Waiting (wq : ℕ) (xs : List ℕ) (c : Clock) : Type 0 where
  pub lock : c.timer_queue.lock ≡ 0
  pub queued : Entries c.timer_queue.entries c.timer_queue.head xs
  pub apart : All (λ x. x ≢ wq) xs

-- The ticks of 5 ms that make up `ms`.
abbrev pub ticks_for : ℕ → ℕ
ticks_for ms = (ms + 4) / 5

-- A sleep that returns at a time, with the lock free and the task ready to run.
pub record Slept (jiffies : ℕ) (r : Option Clock) : Type 0 where
  pub clock : Clock
  pub returns : r ≡ some clock
  pub at : clock.jiffies ≡ jiffies
  pub lock : clock.timer_queue.lock ≡ 0
  pub awake : (clock.timer_queue.store clock.timer_queue.running_task).state ≡ running

tick_lem :
    (fuel wq jiffies : ℕ) (q : Queue) (xs : List ℕ)
    → wq ≢ 0
    → q.lock ≡ 0
    → Entries q.entries q.head xs
    → All (λ x. x ≢ wq) xs
    → length xs + 1 < fuel
    → jiffies + 1 < 2 ^ 32
    → (c : Clock) × (tick fuel (record { jiffies = jiffies; timer_queue = prepared wq q }) ≡ some c)
      × (c.jiffies ≡ jiffies + 1)
      × Waiting wq [] c
unfolding tick scheduler_timer
tick_lem fuel wq jiffies q xs ne free queued apart enough low =
    let here : (wq == wq) ≡ true = ground arith in
    let waiting : Entries (prepared wq q).entries wq (wq ∷ xs) =
      (refl, ne, rw here (Entries-set q.entries q.head wq _ xs apart queued)) in
    let (r, run, w) =
      wait_wake_up_interruptible-Woken fuel (prepared wq q) (wq ∷ xs) (omega arith) refl waiting in
    (
      record { jiffies = (jiffies + 1) % 2 ^ 32; timer_queue = r },
      rw run refl,
      omega arith,
      record { lock = w.lock; queued = w.empty; apart = tt },
    )

module _ (rounds fuel wq start ms : ℕ) (c : Clock) (free : c.timer_queue.lock ≡ 0) where
  round-over :
      wq ≢ 0
      → leb ms (timer_range_to_ms start c.jiffies) ≡ true
      → sleep_loop (suc rounds) (suc fuel) wq start ms c
        ≡ some (record { jiffies = c.jiffies; timer_queue = finished wq c.timer_queue })
  unfolding sleep_loop
  round-over ne over =
      rw (prepare_lem wq c.timer_queue free)
        (rw over (rw (finish_lem fuel wq c.timer_queue ne) refl))

  round-under :
      leb ms (timer_range_to_ms start c.jiffies) ≡ false
      → sleep_loop (suc rounds) (suc fuel) wq start ms c
        ≡ slept
            (tick
              (suc fuel)
              (record { jiffies = c.jiffies; timer_queue = prepared wq c.timer_queue }))
            (sleep_loop rounds (suc fuel) wq start ms)
  unfolding sleep_loop
  round-under under = rw (prepare_lem wq c.timer_queue free) (rw under refl)

-- `d` ticks have passed, and `k` are left.
sleep_loop-Slept :
    (rounds fuel wq start ms d k : ℕ) (c : Clock) (xs : List ℕ)
    → wq ≢ 0
    → Waiting wq xs c
    → length xs + 1 < fuel
    → c.jiffies ≡ start + d
    → d + k ≡ ticks_for ms
    → k < rounds
    → start + ticks_for ms < 2 ^ 32
    → Slept (start + ticks_for ms) (sleep_loop rounds fuel wq start ms c)
sleep_loop-Slept zero fuel wq start ms d k c xs ne w enough now left some_round low =
    absurd (omega arith)
sleep_loop-Slept (suc rounds) zero wq start ms d k c xs ne w enough now left some_round low =
    absurd (omega arith)
sleep_loop-Slept (suc rounds) (suc fuel) wq start ms d k c xs ne w enough now left some_round low =
    let range : timer_range_to_ms start c.jiffies ≡ 5 * d =
      rw now (timer_range_to_ms_lem start d (omega arith) (omega arith)) in
    let q = c.timer_queue in
    elim (Bool-cases (leb ms (5 * d))) [
      | inl over ↦ record {
        clock = record { jiffies = c.jiffies; timer_queue = finished wq q };
        returns = round-over rounds fuel wq start ms c w.lock ne (ap (leb ms) range ∙ over);
        at = rw now (ground (arith, over));
        lock = refl;
        awake = unfold task_set_state in ground arith;
      }
      | inr under ↦
          let more : d < ticks_for ms = ground (arith, under) in
          let (c2, run, next, w2) =
            tick_lem (suc fuel) wq c.jiffies q xs ne w.lock w.queued w.apart enough (omega arith) in
          let rest =
            sleep_loop-Slept rounds (suc fuel) wq start ms (d + 1) (k - 1) c2 [] ne w2 (omega arith)
              (omega (arith, next, now)) (omega arith) (omega arith) low in
          record {
            clock = rest.clock;
            returns =
                round-under rounds fuel wq start ms c w.lock (ap (leb ms) range ∙ under)
                ∙ ap (λ o. slept o (sleep_loop rounds (suc fuel) wq start ms)) run
                ∙ rest.returns;
            at = rest.at;
            lock = rest.lock;
            awake = rest.awake;
          }
    ]

-- A sleep with the lock free, where only ticks come while the task is away and the counter does not
-- wrap, returns after the fewest ticks that make up the milliseconds that were asked for, at once where
-- they are 0, with the task running and the lock free, whoever else sleeps.
pub scheduler_sleep-Slept :
    (rounds fuel wq ms : ℕ) (c : Clock) (xs : List ℕ)
    → wq ≢ 0
    → Waiting wq xs c
    → length xs + 1 < fuel
    → (c.timer_queue.store c.timer_queue.running_task).state ≡ running
    → ticks_for ms < rounds
    → c.jiffies + ticks_for ms < 2 ^ 32
    → Slept (c.jiffies + ticks_for ms) (scheduler_sleep rounds fuel wq ms c)
unfolding scheduler_sleep wait_init
scheduler_sleep-Slept rounds fuel wq ms c xs ne w enough awake some_round low =
    let range : timer_range_to_ms c.jiffies c.jiffies ≡ 0 =
      let same : c.jiffies + 0 ≡ c.jiffies = omega arith in
      rw same at (timer_range_to_ms_lem c.jiffies 0 (omega arith) (omega arith)) in
    elim (Bool-cases (leb ms 0)) [
      | inl none_asked ↦
          rw (range, none_asked)
            (record {
              clock = c;
              returns = refl;
              at = ground (arith, none_asked);
              lock = w.lock;
              awake = awake;
            })
      | inr some_asked ↦
          let c0 = record c { timer_queue = wait_init wq c.timer_queue } in
          let w0 : Waiting wq xs c0 = record {
            lock = w.lock;
            queued = Entries-set c.timer_queue.entries c.timer_queue.head wq _ xs w.apart w.queued;
            apart = w.apart;
          } in
          rw (range, some_asked)
            (sleep_loop-Slept rounds fuel wq c.jiffies ms 0 (ticks_for ms) c0 xs ne w0 enough
              (omega arith) (omega arith) some_round low)
    ]
