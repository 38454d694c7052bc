-- ===== src/Sched/Wait.antt =====
-- Wait queues: kernel/kernel/scheduler/wait.c, the macro WAIT_EVENT_INTERRUPTIBLE of
-- kernel/include/kernel/scheduler/wait.h, and the spinlocks that they take with interrupts off. There
-- is one processor, so a lock that is held when it is taken with interrupts off is never free again.
pub mod Wake
pub mod Unhook
pub mod Rounds
use ikaros.Base.{
  ℕ, zero, suc, ◌+◌, Bool, true, false, not, ◌&&◌, Option, none, some, ◌==◌, if◌then◌else◌,
}
use ikaros.Sched.Task.{
  null, TaskState, running, interruptible, Store, task_set_state, task_signal_pending,
}

pub record WaitEntry : Type 0 where
  pub next : ℕ
  pub task : ℕ

-- One queue head with its lock, the entries in memory, the tasks, and the interrupt flag.
pub record Queue : Type 0 where
  pub head : ℕ
  pub lock : ℕ
  pub entries : ℕ → WaitEntry
  pub store : Store
  pub running_task : ℕ
  pub irq : Bool

-- A call returns, or spins on a lock, or goes round a list without end.
pub data Run : Type 0 where
  done : Queue → Run
  spins : Run
  endless : Run

infixl 5 ◌>>=◌
abbrev pub ◌>>=◌ : Run → (Queue → Run) → Run
done q >>= f = f q
spins >>= f = spins
endless >>= f = endless

abbrev pub set_entry : (ℕ → WaitEntry) → ℕ → WaitEntry → ℕ → WaitEntry
set_entry entries p e a = if a == p then e else entries a

unfoldable pub wait_queue_init : Queue → Queue
wait_queue_init q = record q { head = null; lock = 0 }

unfoldable pub wait_init : ℕ → Queue → Queue
wait_init wq q = record q {
  entries = set_entry q.entries wq (record { next = null; task = q.running_task });
}

-- The flags are saved and interrupts are off before the lock is tried.
unfoldable pub spinlock_acquire_irqsave : Queue → Run
spinlock_acquire_irqsave q =
    if q.lock == 0 then done (record q { lock = 1; irq = false }) else spins

unfoldable pub spinlock_release_irqload : Bool → Queue → Queue
spinlock_release_irqload flags q = record q { lock = 0; irq = flags }

unfoldable pub wait_add_to_queue : ℕ → Queue → Queue
wait_add_to_queue wq q = record q {
  entries = set_entry q.entries wq (record (q.entries wq) { next = q.head });
  head = wq;
}

unfoldable pub wait_prepare_to_wait : ℕ → TaskState → Queue → Run
unfolding spinlock_acquire_irqsave spinlock_release_irqload task_set_state wait_add_to_queue
wait_prepare_to_wait wq state q = spinlock_acquire_irqsave q >>= λ q1.
    let q2 = record q1 { store = task_set_state q1.running_task state q1.store } in
    done (spinlock_release_irqload q.irq (wait_add_to_queue wq q2))

-- The loop moves neither `prev` nor `curr`: a round that does not return is repeated as it is.
remove_loop : ℕ → ℕ → ℕ → ℕ → Queue → Run
remove_loop zero wq prev curr q = endless
remove_loop (suc fuel) wq prev curr q =
    let again = remove_loop fuel wq prev curr q in
    if curr == null
    then done q
    else if curr == wq
    then (if prev == null
        then done (record q { head = (q.entries curr).next })
        else done (record q {
          entries =
              set_entry q.entries prev (record (q.entries prev) { next = (q.entries curr).next });
        }))
    else again

unfoldable pub wait_remove_from_queue : ℕ → ℕ → Queue → Run
unfolding remove_loop
wait_remove_from_queue fuel wq q = remove_loop fuel wq null q.head q

unfoldable pub wait_finish : ℕ → ℕ → Queue → Run
unfolding spinlock_acquire_irqsave spinlock_release_irqload task_set_state
wait_finish fuel wq q = spinlock_acquire_irqsave q >>= λ q1.
    let q2 = record q1 { store = task_set_state q1.running_task running q1.store } in
    wait_remove_from_queue fuel wq q2 >>= λ q3. done (spinlock_release_irqload q.irq q3)

wake_loop : ℕ → ℕ → Queue → Run
wake_loop zero wq q = endless
wake_loop (suc fuel) wq q =
    let next = (q.entries wq).next in
    let rest =
      wake_loop fuel next
        (record q { store = task_set_state (q.entries wq).task running q.store; head = next }) in
    if wq == null then done q else rest

unfoldable pub wait_wake_up_interruptible : ℕ → Queue → Run
unfolding wake_loop spinlock_acquire_irqsave spinlock_release_irqload
wait_wake_up_interruptible fuel q = spinlock_acquire_irqsave q >>= λ q1.
    wake_loop fuel q1.head q1 >>= λ q2. done (spinlock_release_irqload q.irq q2)

-- The loop of __WAIT_EVENT_INTERRUPTIBLE. `condition` is evaluated at the queue as it is then, and
-- `others` is what happens from `scheduler_yield` until the task runs again. The branch behind
-- `task_signal_pending` is never taken: that function returns 0.
event_loop : (Queue → Bool) → (Queue → Queue) → ℕ → ℕ → ℕ → Queue → Run
event_loop condition others zero fuel wq q = endless
event_loop condition others (suc rounds) fuel wq q =
    wait_prepare_to_wait wq interruptible q >>= λ q1. elim (condition q1) [
      | true ↦ wait_finish fuel wq q1
      | false ↦ elim (task_signal_pending q1.running_task) [
        | false ↦ event_loop condition others rounds fuel wq (others q1)
        | true ↦ event_loop condition others rounds fuel wq q1
      ]
    ]

unfoldable pub wait_event_interruptible : (Queue → Bool) → (Queue → Queue) → ℕ → ℕ → ℕ → Queue → Run
unfolding event_loop wait_init task_signal_pending
wait_event_interruptible condition others rounds fuel wq q =
    if condition q then done q else event_loop condition others rounds fuel wq (wait_init wq q)
