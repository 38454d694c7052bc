-- ===== src/Sched/Tests.antt =====
-- The scheduler on two tasks, and a queue with one waiting task.
use ikaros.Base.{
  ℕ, ◌+◌, ◌/◌, ◌≤◌, ◌≡◌, ◌≢◌, refl, true, List, [], ◌∷◌, ◌++◌, some, arith, ◌==◌, if◌then◌else◌,
}
use ikaros.Sched.Task.{Registers, running, Task, Store}
use ikaros.Sched.Ring.{Sched, scheduler_yield, scheduler_exit, switched, scheduler_create_thread}
use ikaros.Sched.Ring.Segment.{IsRing, Lacks}
use ikaros.Sched.Ring.Insert.{scheduler_create_thread-IsRing}
use ikaros.Sched.Ring.Unlink.{erase}
use ikaros.Sched.Ring.Remove.{Removed, tasks_remove-IsRing}
use ikaros.Sched.Ring.Leave.{scheduler_exit-IsRing}
use ikaros.Sched.Ring.Next.{first_running, Yielded, scheduler_yield-Yielded}
use ikaros.Sched.Ring.Fair.{yields, scheduler_yield-fair}
use ikaros.Sched.Wait.{Queue, done, wait_wake_up_interruptible}
use ikaros.Sched.Wait.Wake.{Woken, wait_wake_up_interruptible-Woken}
use ikaros.Sched.Sleep.{Clock, scheduler_sleep}
use ikaros.Sched.Sleep.Ticks.{Slept, scheduler_sleep-Slept}

abbrev registers : ℕ → Registers
registers n = record {
  eax = n;
  ebx = 0;
  ecx = 0;
  edx = 0;
  esi = 0;
  edi = 0;
  esp = n + 4096;
  ebp = n;
  eip = n + 16;
  eflags = 2;
  cr3 = 1;
}

abbrev a_task : ℕ → ℕ → Task
a_task n next = record { regs = registers n; next = next; name = n; state = running }

-- Tasks 100 and 200 in a ring.
abbrev store : Store
store p = if p == 100 then a_task 100 200 else a_task 200 100

abbrev two : Sched
two = record { tasks = 100; tail = 200; running_task = 100; store = store; cpu = registers 7 }

abbrev members : List ℕ
members = 100 ∷ 200 ∷ []

two-IsRing : IsRing two members
two-IsRing = record {
  before = 100 ∷ [];
  ends = refl;
  seg = (refl, refl);
  closes = refl;
  distinct = ((λ e. omega arith, tt), (tt, tt));
  nonnull = (λ e. omega arith, (λ e. omega arith, tt));
}

other : Lacks 300 members
other = (λ e. omega arith, (λ e. omega arith, tt))

scheduler_create_thread-IsRing_example :
    let s' = scheduler_create_thread 300 8192 5 64 two in
    IsRing s' (members ++ 300 ∷ [])
    × ((s'.store 300).state ≡ running)
    × ((s'.store 300).regs.eip ≡ 64)
    × ((s'.store 300).regs.esp ≡ 8192 + 4096)
    × ((p : ℕ) → p ≢ 300 → (s'.store p).state ≡ (two.store p).state)
scheduler_create_thread-IsRing_example =
    scheduler_create_thread-IsRing 300 8192 5 64 two members two-IsRing other (λ e. omega arith)
      (omega arith)

tasks_remove-IsRing_example : (t : Sched) × Removed 2 200 two members t
tasks_remove-IsRing_example =
    tasks_remove-IsRing 2 200 two members two-IsRing (omega arith) (omega arith)

scheduler_exit-IsRing_example :
    (t : Sched) × (scheduler_exit 2 two ≡ some (switched t))
    × IsRing t (erase two.running_task members)
    × (t.running_task ≡ (two.store two.running_task).next)
    × (t.cpu ≡ (two.store (two.store two.running_task).next).regs)
    × ((t.store two.running_task).regs ≡ two.cpu)
    × ((p : ℕ) → (t.store p).state ≡ (two.store p).state)
scheduler_exit-IsRing_example =
    scheduler_exit-IsRing 2 two members two-IsRing (omega arith) (omega arith) (λ e. omega arith)
      (λ e. omega arith)

scheduler_yield-Yielded_example :
    (t : Sched) × (scheduler_yield 2 two ≡ some t)
    × Yielded two (first_running two.store two.running_task (200 ∷ [])) members t
scheduler_yield-Yielded_example =
    scheduler_yield-Yielded 2 two [] (200 ∷ []) two-IsRing (omega arith)

scheduler_yield-fair_example :
    (n : ℕ) × (n ≤ 1)
    × (t : Sched) × (yields 2 n two ≡ some t)
    × (t.running_task ≡ 200)
    × ((p : ℕ) → (t.store p).state ≡ (two.store p).state)
scheduler_yield-fair_example =
    scheduler_yield-fair 2 200 two [] (200 ∷ []) [] [] two-IsRing refl (omega arith) refl

-- Entry 50 in the queue, for task 200.
abbrev queue : Queue
queue = record {
  head = 50;
  lock = 0;
  entries = λ p. record { next = 0; task = 200 };
  store = store;
  running_task = 100;
  irq = true;
}

wait_wake_up_interruptible-Woken_example :
    (r : Queue) × (wait_wake_up_interruptible 2 queue ≡ done r) × Woken queue (50 ∷ []) r
wait_wake_up_interruptible-Woken_example =
    wait_wake_up_interruptible-Woken 2 queue (50 ∷ []) (omega arith) refl
      (refl, (λ e. omega arith), refl)

-- Nobody sleeps yet at 7 ticks.
abbrev clock : Clock
clock = record { jiffies = 7; timer_queue = record queue { head = 0 } }

scheduler_sleep-Slept_example :
    Slept (clock.jiffies + (12 + 4) / 5) (scheduler_sleep 5 2 60 12 clock)
scheduler_sleep-Slept_example =
    scheduler_sleep-Slept 5 2 60 12 clock [] (λ e. omega arith)
      (record { lock = refl; queued = refl; apart = tt }) (omega arith) refl (omega arith)
      (omega arith)
