-- ===== src/Sched/Sleep.antt =====
-- `scheduler_sleep` and `scheduler_timer` of kernel/kernel/scheduler/scheduler.c, with the ticks of
-- kernel/arch/i386/kernel/irq/timer.c. While the task is away one tick comes; `none` is a call that
-- does not return.
pub mod Ticks
use ikaros.Base.{ℕ, zero, suc, ◌+◌, ◌%◌, ◌^◌, Option, none, some, leb, if◌then◌else◌}
use ikaros.Sched.Task.{interruptible}
use ikaros.Sched.Wait.{
  Queue, Run, done, spins, endless, wait_init, wait_prepare_to_wait, wait_finish,
  wait_wake_up_interruptible,
}
use ikaros.Interrupts.Timer.{timer_range_to_ms}

-- `jiffies` and `timer_queue`.
pub record Clock : Type 0 where
  pub jiffies : ℕ
  pub timer_queue : Queue

abbrev pub clock_of : ℕ → Run → Option Clock
clock_of jiffies (done q) = some (record { jiffies = jiffies; timer_queue = q })
clock_of jiffies spins = none
clock_of jiffies endless = none

unfoldable pub scheduler_timer : ℕ → Clock → Option Clock
scheduler_timer fuel c = clock_of c.jiffies (wait_wake_up_interruptible fuel c.timer_queue)

-- What the handler of the timer does to the clock.
unfoldable pub tick : ℕ → Clock → Option Clock
tick fuel c = scheduler_timer fuel (record c { jiffies = (c.jiffies + 1) % 2 ^ 32 })

abbrev pub sleep_round : ℕ → ℕ → ℕ → ℕ → (Clock → Option Clock) → ℕ → Run → Option Clock
sleep_round fuel wq start ms yield jiffies (done q) =
    if leb ms (timer_range_to_ms start jiffies)
    then clock_of jiffies (wait_finish fuel wq q)
    else yield (record { jiffies = jiffies; timer_queue = q })
sleep_round fuel wq start ms yield jiffies spins = none
sleep_round fuel wq start ms yield jiffies endless = none

abbrev pub slept : Option Clock → (Clock → Option Clock) → Option Clock
slept none again = none
slept (some c) again = again c

unfoldable pub sleep_loop : ℕ → ℕ → ℕ → ℕ → ℕ → Clock → Option Clock
sleep_loop zero fuel wq start ms c = none
sleep_loop (suc rounds) fuel wq start ms c =
    sleep_round fuel wq start ms
      (λ c1. slept (tick fuel c1) (λ c2. sleep_loop rounds fuel wq start ms c2)) c.jiffies
      (wait_prepare_to_wait wq interruptible c.timer_queue)

unfoldable pub scheduler_sleep : ℕ → ℕ → ℕ → ℕ → Clock → Option Clock
scheduler_sleep rounds fuel wq ms c =
    if leb ms (timer_range_to_ms c.jiffies c.jiffies)
    then some c
    else sleep_loop rounds fuel wq c.jiffies ms
        (record c { timer_queue = wait_init wq c.timer_queue })
