-- ===== src/Sched/Ring/Insert.antt =====
-- `tasks_insert`.
use ikaros.Base.{ℕ, ◌+◌, ◌%◌, ◌^◌, ◌<◌, ◌≡◌, ◌≢◌, refl, subst, List, [], ◌∷◌, ◌++◌, arith}
use ikaros.Sched.Task.{Store, set_next, task_inherit, running}
use ikaros.Sched.Ring.{Sched, tasks_insert, scheduler_create_thread}
use ikaros.Sched.Ring.Segment.{
  Seg, Lacks, IsRing, Seg-frame, Seg-update, Seg-snoc, Lacks-append, Lacks-left, Lacks-right,
  AreDistinct, distinct-snoc, distinct-Lacks,
}

-- A new task becomes the last of the ring, and no task changes but in its `next`.
pub tasks_insert-IsRing :
    (task : ℕ) (s : Sched) (members : List ℕ)
    → IsRing s members
    → Lacks task members
    → task ≢ 0
    → IsRing (tasks_insert task s) (members ++ task ∷ [])
      × ((p : ℕ) → ((tasks_insert task s).store p).state ≡ (s.store p).state)
unfolding tasks_insert
tasks_insert-IsRing task s members ring out ne =
    let before = ring.before in
    let split = subst (Lacks task) ring.ends out in
    let other : s.tail ≢ task = (Lacks-right task before (s.tail ∷ []) split).0 in
    let alone = distinct-Lacks before s.tail [] (subst AreDistinct ring.ends ring.distinct) in
    let one = set_next s.store task s.tasks in
    let first =
      Seg-frame s.store task s.tasks s.tasks s.tail before
        (Lacks-left task before (s.tail ∷ []) split) ring.seg in
    let second = Seg-frame one s.tail task s.tasks s.tail before alone first in
    let two = set_next one s.tail task in
    (
      record {
        before = members;
        ends = refl;
        seg = rw ring.ends (Seg-snoc two s.tasks s.tail task before second (ground arith));
        closes = ground arith;
        distinct = distinct-snoc members task ring.distinct out;
        nonnull = Lacks-append 0 members (task ∷ []) ring.nonnull (ne, tt);
      },
      λ p. ground arith,
    )

Seg-task_inherit :
    (task name entry_point stack cr3 eflags : ℕ) (store : Store) (p q : ℕ) (xs : List ℕ)
    → Lacks task xs
    → Seg store p xs q
    → Seg (task_inherit task name entry_point stack cr3 eflags store) p xs q
unfolding task_inherit
Seg-task_inherit task name entry_point stack cr3 eflags store p q xs out s =
    Seg-update store task _ p q xs out s

-- A thread that is created joins the ring as its last member, ready to run, with the entry point
-- as its instruction pointer and the end of its block of 4096 bytes as its stack pointer; the
-- members keep their states.
pub scheduler_create_thread-IsRing :
    (task stack name entry_point : ℕ) (s : Sched) (members : List ℕ)
    → IsRing s members
    → Lacks task members
    → task ≢ 0
    → stack + 4096 < 2 ^ 32
    → let s' = scheduler_create_thread task stack name entry_point s in
      IsRing s' (members ++ task ∷ [])
      × ((s'.store task).state ≡ running)
      × ((s'.store task).regs.eip ≡ entry_point)
      × ((s'.store task).regs.esp ≡ stack + 4096)
      × ((p : ℕ) → p ≢ task → (s'.store p).state ≡ (s.store p).state)
unfolding scheduler_create_thread task_inherit tasks_insert
scheduler_create_thread-IsRing task stack name entry_point s members ring out ne fits =
    let before = ring.before in
    let split = subst (Lacks task) ring.ends out in
    let other : s.tail ≢ task = (Lacks-right task before (s.tail ∷ []) split).0 in
    let esp = (stack + 4096) % 2 ^ 32 in
    let born = task_inherit task name entry_point esp s.cpu.cr3 s.cpu.eflags s.store in
    let seg =
      Seg-task_inherit task name entry_point esp s.cpu.cr3 s.cpu.eflags s.store s.tasks s.tail
        before (Lacks-left task before (s.tail ∷ []) split) ring.seg in
    let (ring', keeps) =
      tasks_insert-IsRing task (record s { store = born }) members
        (record {
          before = before;
          ends = ring.ends;
          seg = seg;
          closes = ground arith;
          distinct = ring.distinct;
          nonnull = ring.nonnull;
        })
        out ne in
    (ring', ground (arith, keeps task), ground arith, ground arith, λ p h. ground (arith, keeps p))
