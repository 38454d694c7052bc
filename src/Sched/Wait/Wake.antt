-- ===== src/Sched/Wait/Wake.antt =====
-- `wait_wake_up_interruptible`.
use ikaros.Base.{
  ℕ, zero, suc, ◌<◌, ◌≡◌, ◌≢◌, ◌∙◌, refl, sym, Bool, false, ◌||◌, List, [], ◌∷◌, arith, ◌==◌,
  if◌then◌else◌, length,
}
use ikaros.Sched.Task.{TaskState, running, Store, task_set_state}
use ikaros.Sched.Wait.{
  WaitEntry, Queue, done, endless, wake_loop, wait_wake_up_interruptible, spinlock_release_irqload,
  wait_add_to_queue,
}

-- From `p` the entries `xs` lead to `NULL`.
abbrev pub Entries : (ℕ → WaitEntry) → ℕ → List ℕ → Type 0
Entries entries p [] = p ≡ 0
Entries entries p (x ∷ xs) = (p ≡ x) × (x ≢ 0) × Entries entries (entries x).next xs

-- Some entry of the list belongs to task `t`.
abbrev pub waits : (ℕ → WaitEntry) → List ℕ → ℕ → Bool
waits entries [] t = false
waits entries (x ∷ xs) t = t == (entries x).task || waits entries xs t

-- All tasks that wait are ready to run, and all others are as they were.
abbrev pub woken : (ℕ → WaitEntry) → List ℕ → Store → ℕ → TaskState
woken entries xs store t = if waits entries xs t then running else (store t).state

-- The queue after all its entries were taken off.
pub record Woken (q : Queue) (xs : List ℕ) (r : Queue) : Type 0 where
  pub empty : r.head ≡ 0
  pub states : (t : ℕ) → (r.store t).state ≡ woken q.entries xs q.store t
  pub entries : r.entries ≡ q.entries
  pub lock : r.lock ≡ q.lock
  pub irq : r.irq ≡ q.irq

wake_loop-Woken :
    (fuel wq : ℕ) (q : Queue) (xs : List ℕ)
    → length xs < fuel
    → q.head ≡ wq
    → Entries q.entries wq xs
    → (r : Queue) × (wake_loop fuel wq q ≡ done r) × Woken q xs r
unfolding wake_loop
wake_loop-Woken zero wq q xs enough h s = absurd (omega arith)
wake_loop-Woken (suc fuel) wq q [] enough h e = (
  q,
  ground arith,
  record { empty = h ∙ e; states = λ t. refl; entries = refl; lock = refl; irq = refl },
)
wake_loop-Woken (suc fuel) wq q (x ∷ xs) enough h (e, ne, s) =
    let q1 : Queue = record q {
      store = task_set_state (q.entries x).task running q.store;
      head = (q.entries x).next;
    } in
    let (r, run, w) = wake_loop-Woken fuel (q.entries x).next q1 xs (omega arith) refl s in
    (
      r,
      rw e (ground (arith, run)),
      record {
        empty = w.empty;
        states = λ t. w.states t ∙ unfold task_set_state in ground arith;
        entries = w.entries;
        lock = w.lock;
        irq = w.irq;
      },
    )

-- Waking a queue of any length ends: every task that waits in it is ready to run, no other task
-- changes its state, the queue is empty, and the lock and the interrupt flag are as before.
pub wait_wake_up_interruptible-Woken :
    (fuel : ℕ) (q : Queue) (xs : List ℕ)
    → length xs < fuel
    → q.lock ≡ 0
    → Entries q.entries q.head xs
    → (r : Queue) × (wait_wake_up_interruptible fuel q ≡ done r) × Woken q xs r
unfolding wait_wake_up_interruptible
wait_wake_up_interruptible-Woken fuel q xs enough free s =
    let q1 : Queue = record q { lock = 1; irq = false } in
    let (r, run, w) = wake_loop-Woken fuel q.head q1 xs enough refl s in
    (
      spinlock_release_irqload q.irq r,
      rw free (rw run),
      record {
        empty = w.empty;
        states = w.states;
        entries = w.entries;
        lock = sym free;
        irq = refl;
      },
    )

wake_loop_self :
    (fuel wq : ℕ) (q : Queue) → wq ≢ 0 → (q.entries wq).next ≡ wq → wake_loop fuel wq q ≡ endless
unfolding wake_loop
wake_loop_self zero wq q ne self = refl
wake_loop_self (suc fuel) wq q ne self =
    let q1 : Queue = record q {
      store = task_set_state (q.entries wq).task running q.store;
      head = wq;
    } in
    rw (self, wake_loop) (ground (arith, wake_loop_self fuel wq q1 ne self))

-- An entry that is added a second time while it is first in the queue points to itself, and waking
-- that queue never ends.
pub wait_wake_up_interruptible-twice :
    (fuel wq : ℕ) (q : Queue)
    → wq ≢ 0
    → q.lock ≡ 0
    → wait_wake_up_interruptible fuel (wait_add_to_queue wq (wait_add_to_queue wq q)) ≡ endless
unfolding wait_wake_up_interruptible wait_add_to_queue
wait_wake_up_interruptible-twice fuel wq q ne free =
    let q1 : Queue = record (wait_add_to_queue wq (wait_add_to_queue wq q)) {
      lock = 1;
      irq = false;
    } in
    rw free (rw (wake_loop_self fuel wq q1 ne (ground arith)))
