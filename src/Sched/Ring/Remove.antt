-- ===== src/Sched/Ring/Remove.antt =====
-- `tasks_remove`.
use ikaros.Base.{
  ℕ, ◌≤◌, ◌<◌, ◌≡◌, ◌≢◌, refl, sym, subst, ap, ◌∙◌, false, List, [], ◌∷◌, ◌++◌, arith, ◌==◌, length,
  length-append, Bool-cases, inl, inr, some,
}
use ikaros.Sched.Task.{set_next}
use ikaros.Sched.Ring.{Sched, remove_loop, tasks_remove}
use ikaros.Sched.Ring.Segment.{
  Seg, Lacks, AreDistinct, IsRing, Seg-frame, Lacks-left, Lacks-right, distinct-Lacks,
  distinct-append,
}
use ikaros.Sched.Ring.Unlink.{erase, walk, remove_loop-walk, after, after-Unlinked}

Lacks-erase : (a task : ℕ) (xs : List ℕ) → Lacks a xs → Lacks a (erase task xs)
unfolding erase
Lacks-erase a task [] h = tt
Lacks-erase a task (x ∷ xs) (ne, h) = ground (arith, Lacks-erase a task xs h)

distinct-erase : (task : ℕ) (xs : List ℕ) → AreDistinct xs → AreDistinct (erase task xs)
unfolding erase
distinct-erase task [] d = tt
distinct-erase task (x ∷ xs) (h, d) = elim (Bool-cases (x == task)) [
  | inl hit ↦ rw hit d
  | inr miss ↦ rw miss (Lacks-erase x task xs h, distinct-erase task xs d)
]

-- What `tasks_remove` makes of a ring.
pub record Removed (fuel task : ℕ) (s : Sched) (members : List ℕ) (t : Sched) : Type 0 where
  pub done : tasks_remove fuel task s ≡ some t
  pub ring : IsRing t (erase task members)
  pub states : (p : ℕ) → (t.store p).state ≡ (s.store p).state
  pub registers : (p : ℕ) → (t.store p).regs ≡ (s.store p).regs
  pub same_cpu : t.cpu ≡ s.cpu
  pub same_running : t.running_task ≡ s.running_task

unlink-tasks :
    (task : ℕ) (s : Sched) (w : ℕ × ℕ)
    → ((after task s w).tasks ≡ s.tasks)
      × ((after task s w).cpu ≡ s.cpu)
      × ((after task s w).running_task ≡ s.running_task)
unfolding after
unlink-tasks task s (prev, curr) = (ground arith, ground arith, ground arith)

remove_run :
    (fuel task : ℕ) (s : Sched) (w : ℕ × ℕ)
    → task ≢ s.tasks
    → remove_loop fuel s.store s.tail task s.tasks (s.store s.tasks).next ≡ some w
    → tasks_remove fuel task s ≡ some (after task s w)
unfolding tasks_remove after
remove_run fuel task s w ne run =
    let off : (task == s.tasks) ≡ false = ground arith in rw (off, run)

module _ (fuel task : ℕ) (s : Sched) (b : ℕ) (bs : List ℕ)
    (seg : Seg s.store s.tasks (b ∷ bs) s.tail) (closes : (s.store s.tail).next ≡ s.tasks)
    (distinct : AreDistinct (b ∷ bs ++ s.tail ∷ []))
    (nonnull : Lacks 0 (b ∷ bs ++ s.tail ∷ [])) where
  members' : List ℕ
  members' = b ∷ bs ++ s.tail ∷ []

  remove_first : task ≡ s.tasks → (t : Sched) × Removed fuel task s members' t
  unfolding tasks_remove erase members'
  remove_first e =
      let out = distinct-Lacks bs s.tail [] distinct.1 in
      let t : Sched = record s {
        store = set_next s.store s.tail (s.store task).next;
        tasks = (s.store task).next;
      } in
      (
        t,
        record {
          done = ground arith;
          ring = record {
            before = bs;
            ends = ground arith;
            seg =
                subst (λ a. Seg t.store (s.store a).next bs s.tail) (sym (e ∙ seg.0))
                  (Seg-frame s.store s.tail (s.store task).next (s.store b).next s.tail bs out
                    seg.1);
            closes = ground arith;
            distinct = distinct-erase task members' distinct;
            nonnull = Lacks-erase 0 task members' nonnull;
          };
          states = λ p. ground arith;
          registers = λ p. ground arith;
          same_cpu = refl;
          same_running = refl;
        },
      )

  remove_later : task ≢ s.tasks → length bs < fuel → (t : Sched) × Removed fuel task s members' t
  unfolding tasks_remove erase members'
  remove_later ne enough =
      let w = walk task s.tail s.tasks bs in
      let t = after task s w in
      let out = distinct-Lacks bs s.tail [] distinct.1 in
      let (tasks', cpu', running') = unlink-tasks task s w in
      let from_b = Lacks-left b bs (s.tail ∷ []) distinct.0 in
      let end : s.tail ≢ b = (Lacks-right b bs (s.tail ∷ []) distinct.0).0 in
      let rest = subst (λ a. Seg s.store (s.store a).next bs s.tail) (sym seg.0) seg.1 in
      let other : (b == task) ≡ false = ground (arith, seg.0) in
      let u =
        after-Unlinked task s s.tasks bs rest (distinct-append bs (s.tail ∷ []) distinct.1).0 out
          (subst (λ a. Lacks a bs) (sym seg.0) from_b) (λ q. end (sym q ∙ seg.0)) in
      let run =
        remove_loop-walk fuel s.store s.tail task s.tasks (s.store s.tasks).next bs enough rest
          out in
      (
        t,
        record {
          done = remove_run fuel task s w ne run;
          ring = record {
            before = u.before;
            ends = rw (other, u.ends, seg.0);
            seg = rw tasks' u.seg;
            closes = rw (u.closes, tasks') closes;
            distinct = distinct-erase task members' distinct;
            nonnull = Lacks-erase 0 task members' nonnull;
          };
          states = u.states;
          registers = u.registers;
          same_cpu = cpu';
          same_running = running';
        },
      )

-- Any task is removed from a ring of two or more: the ring is that of the others in their order, no
-- task changes its state, and the loop ends. A task that is no member changes nothing in the ring.
pub tasks_remove-IsRing :
    (fuel task : ℕ) (s : Sched) (members : List ℕ)
    → IsRing s members
    → 1 < length members
    → length members ≤ fuel
    → (t : Sched) × Removed fuel task s members t
unfolding members'
tasks_remove-IsRing fuel task s members ring two enough = split ring.before ring.ends ring.seg
  where
    split :
        (before : List ℕ)
        → members ≡ before ++ s.tail ∷ []
        → Seg s.store s.tasks before s.tail
        → (t : Sched) × Removed fuel task s members t
    split [] e seg = absurd (omega (arith, ap length e))
    split (b ∷ bs) e seg = elim (Bool-cases (task == s.tasks)) [
      | inl hit ↦ rw e (
          remove_first fuel task s b bs seg ring.closes (subst AreDistinct e ring.distinct)
            (subst (Lacks 0) e ring.nonnull) (ground arith))
      | inr miss ↦ rw e (
          remove_later fuel task s b bs seg ring.closes (subst AreDistinct e ring.distinct)
            (subst (Lacks 0) e ring.nonnull) (ground arith)
            (omega (arith, ap length e, length-append bs (s.tail ∷ []))))
    ]
