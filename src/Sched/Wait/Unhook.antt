-- ===== src/Sched/Wait/Unhook.antt =====
-- `wait_remove_from_queue`, and `wait_finish`, which calls it.
use ikaros.Base.{ℕ, zero, suc, ◌≡◌, ◌≢◌, refl, arith}
use ikaros.Sched.Task.{TaskState, running, task_set_state}
use ikaros.Sched.Wait.{
  Queue, done, endless, ◌>>=◌, set_entry, remove_loop, wait_remove_from_queue, wait_finish,
  wait_prepare_to_wait,
}

remove_loop-endless :
    (fuel wq prev curr : ℕ) (q : Queue)
    → curr ≢ 0
    → curr ≢ wq
    → remove_loop fuel wq prev curr q ≡ endless
unfolding remove_loop
remove_loop-endless zero wq prev curr q ne other = refl
remove_loop-endless (suc fuel) wq prev curr q ne other =
    ground (arith, remove_loop-endless fuel wq prev curr q ne other)

-- All the outcomes of taking an entry off a queue. An empty queue is left as it is; an entry that
-- is first in the queue is taken off; and with any other entry first the loop never ends, whatever
-- the fuel, since it does not advance.
pub wait_remove_from_queue_lem :
    (fuel wq : ℕ) (q : Queue)
    → (q.head ≡ 0 → wait_remove_from_queue (suc fuel) wq q ≡ done q)
      × (q.head ≢ 0
          → q.head ≡ wq
          → wait_remove_from_queue (suc fuel) wq q ≡ done (record q { head = (q.entries wq).next }))
      × (q.head ≢ 0 → q.head ≢ wq → wait_remove_from_queue fuel wq q ≡ endless)
unfolding wait_remove_from_queue
wait_remove_from_queue_lem fuel wq q = (
  λ e. ground arith,
  λ ne e. ground arith,
  λ ne other. remove_loop-endless fuel wq 0 q.head q ne other,
)

-- Preparing to wait and then finishing, with nothing in between, puts the queue back and leaves the
-- current task ready to run, with the lock free and the interrupt flag as before.
pub wait_finish-wait_prepare_to_wait :
    (fuel wq : ℕ) (state : TaskState) (q : Queue)
    → wq ≢ 0
    → q.lock ≡ 0
    → (r : Queue) × ((wait_prepare_to_wait wq state q >>= wait_finish (suc fuel) wq) ≡ done r)
      × (r.head ≡ q.head)
      × (r.lock ≡ 0)
      × (r.irq ≡ q.irq)
      × ((r.store q.running_task).state ≡ running)
      × ((t : ℕ) → t ≢ q.running_task → r.store t ≡ q.store t)
      × ((p : ℕ) → p ≢ wq → r.entries p ≡ q.entries p)
unfolding wait_prepare_to_wait wait_finish wait_remove_from_queue
wait_finish-wait_prepare_to_wait fuel wq state q ne free =
    let store' =
      task_set_state q.running_task running (task_set_state q.running_task state q.store) in
    let entries' = set_entry q.entries wq (record (q.entries wq) { next = q.head }) in
    (
      record q { lock = 0; store = store'; entries = entries' },
      rw free (ground arith),
      refl,
      refl,
      refl,
      ground arith,
      λ t h. ground arith,
      λ p h. ground arith,
    )
