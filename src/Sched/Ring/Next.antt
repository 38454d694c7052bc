-- ===== src/Sched/Ring/Next.antt =====
-- The choice of the next task, and `scheduler_yield`.
use ikaros.Base.{
  ℕ, zero, suc, ◌<◌, ◌≡◌, ◌≢◌, refl, sym, subst, List, [], ◌∷◌, ◌++◌, arith, ◌==◌, if◌then◌else◌,
  length, Bool-cases, inl, inr, some,
}
use ikaros.Sched.Task.{Store, is_running}
use ikaros.Sched.Ring.{
  Sched, next_running_loop, scheduler_next_running_task, task_switch, scheduler_yield,
}
use ikaros.Sched.Ring.Segment.{
  Seg, Lacks, AreDistinct, IsRing, Seg-snoc, Seg-split, Seg-append, Lacks-append, Lacks-left,
  Lacks-right, distinct-Lacks, distinct-append,
}
use ikaros.Sched.Ring.Leave.{task_switch-IsRing}

-- The first task of a list that is ready to run, or `task`.
unfoldable pub first_running : Store → ℕ → List ℕ → ℕ
first_running store task [] = task
first_running store task (z ∷ zs) =
    if is_running (store z).state then z else first_running store task zs

pub next_running_loop-first :
    (fuel : ℕ) (store : Store) (task curr : ℕ) (zs : List ℕ)
    → length zs < fuel
    → Seg store curr zs task
    → Lacks task zs
    → Lacks 0 zs
    → next_running_loop fuel store task curr ≡ some (first_running store task zs)
unfolding next_running_loop first_running
next_running_loop-first zero store task curr zs h s out nz = absurd (omega arith)
next_running_loop-first (suc fuel) store task curr [] h e out nz = ground arith
next_running_loop-first (suc fuel) store task curr (z ∷ zs) h (e, s) (ne, out) (nz, nzs) = rw e (
    ground
      (arith, next_running_loop-first fuel store task (store z).next zs (omega arith) s out nzs))

-- A ring seen from one of its members: the others, in the order in which they follow it.
pub IsRing-rotate :
    (s : Sched) (xs ys : List ℕ) (t : ℕ)
    → IsRing s (xs ++ t ∷ ys)
    → Seg s.store (s.store t).next (ys ++ xs) t
IsRing-rotate s xs ys t ring =
    let circle = Seg-snoc s.store s.tasks s.tail s.tasks ring.before ring.seg ring.closes in
    let whole = subst (λ l. Seg s.store s.tasks l s.tasks) (sym ring.ends) circle in
    let (a, b) = Seg-split s.store s.tasks s.tasks t xs ys whole in
    Seg-append s.store (s.store t).next s.tasks t ys xs b a

distinct-rotate : (xs ys : List ℕ) (t : ℕ) → AreDistinct (xs ++ t ∷ ys) → Lacks t (ys ++ xs)
distinct-rotate xs ys t d =
    Lacks-append t ys xs (distinct-append xs (t ∷ ys) d).1.0 (distinct-Lacks xs t ys d)

Lacks-rotate : (a : ℕ) (xs ys : List ℕ) (t : ℕ) → Lacks a (xs ++ t ∷ ys) → Lacks a (ys ++ xs)
Lacks-rotate a xs ys t h =
    Lacks-append a ys xs (Lacks-right a xs (t ∷ ys) h).1 (Lacks-left a xs (t ∷ ys) h)

-- The walk round the ring ends, and takes the first task behind the current one that is ready to
-- run, in the order of the ring, or comes back to the current one.
pub scheduler_next_running_task-first :
    (fuel : ℕ) (s : Sched) (xs ys : List ℕ) (t : ℕ)
    → IsRing s (xs ++ t ∷ ys)
    → length (ys ++ xs) < fuel
    → scheduler_next_running_task fuel s.store t ≡ some (first_running s.store t (ys ++ xs))
unfolding scheduler_next_running_task
scheduler_next_running_task-first fuel s xs ys t ring enough =
    next_running_loop-first fuel s.store t (s.store t).next (ys ++ xs) enough
      (IsRing-rotate s xs ys t ring) (distinct-rotate xs ys t ring.distinct)
      (Lacks-rotate 0 xs ys t ring.nonnull)

-- What a yield comes to, for the task `next` that is chosen.
pub record Yielded (s : Sched) (next : ℕ) (members : List ℕ) (t : Sched) : Type 0 where
  pub runs : t.running_task ≡ next
  pub ring : IsRing t members
  pub states : (p : ℕ) → (t.store p).state ≡ (s.store p).state
  pub loaded : next ≢ s.running_task → t.cpu ≡ (s.store next).regs
  pub saved : next ≢ s.running_task → (t.store s.running_task).regs ≡ s.cpu
  pub stays : next ≡ s.running_task → t ≡ s

-- A yield switches to the next task that is ready, round robin: its registers are loaded, those of
-- the processor are saved, and the ring is as before. If no other task is ready, nothing changes.
pub scheduler_yield-Yielded :
    (fuel : ℕ) (s : Sched) (xs ys : List ℕ)
    → IsRing s (xs ++ s.running_task ∷ ys)
    → length (ys ++ xs) < fuel
    → (t : Sched) × (scheduler_yield fuel s ≡ some t)
      × Yielded s (first_running s.store s.running_task (ys ++ xs)) (xs ++ s.running_task ∷ ys) t
unfolding scheduler_yield
scheduler_yield-Yielded fuel s xs ys ring enough =
    let next = first_running s.store s.running_task (ys ++ xs) in
    let members = xs ++ s.running_task ∷ ys in
    let run = scheduler_next_running_task-first fuel s xs ys s.running_task ring enough in
    elim (Bool-cases (next == s.running_task)) [
      | inl alone ↦ (
        s,
        rw (run, scheduler_yield) (rw alone),
        record {
          runs = ground arith;
          ring = ring;
          states = λ p. refl;
          loaded = λ ne. absurd (ground arith);
          saved = λ ne. absurd (ground arith);
          stays = λ e. refl;
        },
      )
      | inr other ↦
          let s0 : Sched = record s { running_task = next } in
          let ring0 : IsRing s0 members = record {
            before = ring.before;
            ends = ring.ends;
            seg = ring.seg;
            closes = ring.closes;
            distinct = ring.distinct;
            nonnull = ring.nonnull;
          } in
          (
            task_switch s.running_task next s0,
            rw (run, scheduler_yield) (rw other),
            record {
              runs = unfold task_switch in refl;
              ring = task_switch-IsRing s.running_task next s0 members ring0;
              states = λ p. unfold task_switch in ground arith;
              loaded = λ ne. unfold task_switch in ground arith;
              saved = λ ne. unfold task_switch in ground arith;
              stays = λ e. absurd (ground arith);
            },
          )
    ]
