-- ===== src/Sched/Ring/Leave.antt =====
-- `scheduler_exit`.
use ikaros.Base.{ℕ, ◌≤◌, ◌<◌, ◌≡◌, ◌≢◌, false, List, [], ◌∷◌, arith, ◌==◌, length, some}
use ikaros.Sched.Task.{Store, update}
use ikaros.Sched.Ring.{Sched, scheduler_exit, switched, task_switch}
use ikaros.Sched.Ring.Segment.{Seg, IsRing}
use ikaros.Sched.Ring.Unlink.{erase}
use ikaros.Sched.Ring.Remove.{tasks_remove-IsRing}

pub Seg-same_next :
    (store store' : Store) (p q : ℕ) (xs : List ℕ)
    → ((a : ℕ) → (store' a).next ≡ (store a).next)
    → Seg store p xs q
    → Seg store' p xs q
Seg-same_next store store' p q [] same s = s
Seg-same_next store store' p q (x ∷ xs) same (e, s) =
    (e, rw (same x) (Seg-same_next store store' (store x).next q xs same s))

pub task_switch-IsRing :
    (from to : ℕ) (s : Sched) (members : List ℕ)
    → IsRing s members
    → IsRing (task_switch from to s) members
unfolding task_switch
task_switch-IsRing from to s members ring =
    let store' = update s.store from (record (s.store from) { regs = s.cpu }) in
    record {
      before = ring.before;
      ends = ring.ends;
      seg = Seg-same_next s.store store' s.tasks s.tail ring.before (λ a. ground arith) ring.seg;
      closes = ground (arith, ring.closes);
      distinct = ring.distinct;
      nonnull = ring.nonnull;
    }

-- A running task that exits in a ring of two or more leaves the ring of the others. The task behind
-- it runs, with the registers that were saved for it, and those of the processor are saved in the
-- task that exits; no task changes its state.
pub scheduler_exit-IsRing :
    (fuel : ℕ) (s : Sched) (members : List ℕ)
    → IsRing s members
    → 1 < length members
    → length members ≤ fuel
    → (s.store s.running_task).next ≢ 0
    → (s.store s.running_task).next ≢ s.running_task
    → (t : Sched) × (scheduler_exit fuel s ≡ some (switched t))
      × IsRing t (erase s.running_task members)
      × (t.running_task ≡ (s.store s.running_task).next)
      × (t.cpu ≡ (s.store (s.store s.running_task).next).regs)
      × ((t.store s.running_task).regs ≡ s.cpu)
      × ((p : ℕ) → (t.store p).state ≡ (s.store p).state)
unfolding scheduler_exit
scheduler_exit-IsRing fuel s members ring two enough some_next other =
    let from = s.running_task in
    let next = (s.store from).next in
    let s0 : Sched = record s { running_task = next } in
    let ring0 : IsRing s0 members = record {
      before = ring.before;
      ends = ring.ends;
      seg = ring.seg;
      closes = ring.closes;
      distinct = ring.distinct;
      nonnull = ring.nonnull;
    } in
    let (u, r) = tasks_remove-IsRing fuel from s0 members ring0 two enough in
    let e : (next == 0) ≡ false = ground arith in
    let e' : (next == from) ≡ false = ground arith in
    (
      task_switch from next u,
      rw (e, e', r.done),
      task_switch-IsRing from next u (erase from members) r.ring,
      unfold task_switch in r.same_running,
      unfold task_switch in ground (arith, r.registers next),
      unfold task_switch in ground (arith, r.same_cpu),
      λ p. unfold task_switch in ground (arith, r.states p),
    )
