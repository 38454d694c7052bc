-- ===== src/Sched/Wait/Rounds.antt =====
-- One round of a wait: the entry is put in the queue, and taken off at the end.
use ikaros.Base.{ℕ, suc, ◌≡◌, ◌≢◌, refl, List, [], ◌∷◌, All, false, arith, ◌==◌}
use ikaros.Sched.Task.{running, interruptible, task_set_state}
use ikaros.Sched.Wait.{
  WaitEntry, Queue, done, set_entry, wait_prepare_to_wait, wait_finish, wait_remove_from_queue,
}
use ikaros.Sched.Wait.Wake.{Entries}

-- The queue behind `wait_prepare_to_wait`, with the lock free before it.
abbrev pub prepared : ℕ → Queue → Queue
prepared wq q = record q {
  head = wq;
  lock = 0;
  entries = set_entry q.entries wq (record (q.entries wq) { next = q.head });
  store = task_set_state q.running_task interruptible q.store;
}

pub Entries-set :
    (entries : ℕ → WaitEntry) (p wq : ℕ) (e : WaitEntry) (xs : List ℕ)
    → All (λ x. x ≢ wq) xs
    → Entries entries p xs
    → Entries (set_entry entries wq e) p xs
Entries-set entries p wq e [] others queued = queued
Entries-set entries p wq e (x ∷ xs) (ne, others) (at, some_entry, queued) =
    let away : (x == wq) ≡ false = ground arith in
    (at, some_entry, rw away (Entries-set entries (entries x).next wq e xs others queued))

pub prepare_lem :
    (wq : ℕ) (q : Queue)
    → q.lock ≡ 0
    → wait_prepare_to_wait wq interruptible q ≡ done (prepared wq q)
unfolding wait_prepare_to_wait
prepare_lem wq q free = rw free refl

-- The queue behind the end of a wait.
abbrev pub finished : ℕ → Queue → Queue
finished wq q = record (prepared wq q) {
  head = q.head;
  store = task_set_state q.running_task running (prepared wq q).store;
}

pub finish_lem :
    (fuel wq : ℕ) (q : Queue)
    → wq ≢ 0
    → wait_finish (suc fuel) wq (prepared wq q) ≡ done (finished wq q)
unfolding wait_finish wait_remove_from_queue
finish_lem fuel wq q some_entry = ground arith
