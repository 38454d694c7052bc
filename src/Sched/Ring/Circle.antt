-- ===== src/Sched/Ring/Circle.antt =====
-- The ring as the running task sees it, before and after a yield.
use ikaros.Base.{
  ℕ, ◌<◌, ◌≡◌, ◌≢◌, refl, sym, ◌∙◌, ap, subst, false, some, List, [], ◌∷◌, ◌++◌, arith, ◌==◌,
  length,
}
use mathlib.Core.List.{append-nil}
use ikaros.Sched.Task.{update}
use ikaros.Sched.Ring.{Sched, scheduler_next_running_task, task_switch, scheduler_yield}
use ikaros.Sched.Ring.Segment.{
  Seg, Lacks, AreDistinct, Seg-split, Seg-append, Lacks-append, Lacks-left, Lacks-right,
}
use ikaros.Sched.Ring.Leave.{Seg-same_next}
use ikaros.Sched.Ring.Next.{first_running, next_running_loop-first}

-- The ring as the running task sees it: the others, in the order in which they follow it.
pub record Circle (s : Sched) (zs : List ℕ) : Type 0 where
  pub seg : Seg s.store (s.store s.running_task).next zs s.running_task
  pub distinct : AreDistinct (s.running_task ∷ zs)
  pub nonnull : Lacks 0 (s.running_task ∷ zs)

distinct-insert :
    (x : ℕ) (ys xs : List ℕ)
    → Lacks x ys
    → Lacks x xs
    → AreDistinct (ys ++ xs)
    → AreDistinct (ys ++ x ∷ xs)
distinct-insert x [] xs out more d = (more, d)
distinct-insert x (y ∷ ys) xs (ne, out) more (h, d) = (
  Lacks-append y ys (x ∷ xs) (Lacks-left y ys xs h) (λ e. ne (sym e), Lacks-right y ys xs h),
  distinct-insert x ys xs out more d,
)

pub distinct-swap : (xs ys : List ℕ) → AreDistinct (xs ++ ys) → AreDistinct (ys ++ xs)
distinct-swap [] ys d = subst AreDistinct (sym (append-nil ys)) d
distinct-swap (x ∷ xs) ys (h, d) =
    distinct-insert x ys xs (Lacks-right x xs ys h) (Lacks-left x xs ys h) (distinct-swap xs ys d)

pub Lacks-swap : (a : ℕ) (xs ys : List ℕ) → Lacks a (xs ++ ys) → Lacks a (ys ++ xs)
Lacks-swap a xs ys h = Lacks-append a ys xs (Lacks-right a xs ys h) (Lacks-left a xs ys h)

-- After a switch to `w` the tasks behind it come first, and the old one and those before it follow.
pub switch-Circle :
    (s : Sched) (b1 b2 : List ℕ) (w : ℕ)
    → Circle s (b1 ++ w ∷ b2)
    → Circle
        (task_switch s.running_task w (record s { running_task = w }))
        (b2 ++ s.running_task ∷ b1)
unfolding task_switch
switch-Circle s b1 b2 w c =
    let t = s.running_task in
    let (to_w, from_w) = Seg-split s.store (s.store t).next t w b1 b2 c.seg in
    let store' = update s.store t (record (s.store t) { regs = s.cpu }) in
    let same : (a : ℕ) → (store' a).next ≡ (s.store a).next = λ a. ground arith in
    let round = Seg-append s.store (s.store w).next t w b2 (t ∷ b1) from_w (refl, to_w) in
    record {
      seg = rw (same w) (Seg-same_next s.store store' (s.store w).next w (b2 ++ t ∷ b1) same round);
      distinct = distinct-swap (t ∷ b1) (w ∷ b2) c.distinct;
      nonnull = Lacks-swap 0 (t ∷ b1) (w ∷ b2) c.nonnull;
    }

-- One yield, where `w` is the first task that is ready.
pub yield_lem :
    (fuel : ℕ) (s : Sched) (zs : List ℕ) (w : ℕ)
    → Circle s zs
    → length zs < fuel
    → first_running s.store s.running_task zs ≡ w
    → w ≢ s.running_task
    → scheduler_yield fuel s ≡ some (task_switch s.running_task w (record s { running_task = w }))
unfolding scheduler_yield scheduler_next_running_task
yield_lem fuel s zs w c enough first other =
    let t = s.running_task in
    let run =
      next_running_loop-first fuel s.store t (s.store t).next zs enough c.seg c.distinct.0
        c.nonnull.1
      ∙ ap some first in
    let ne : (w == t) ≡ false = ground (arith, other) in rw (run, scheduler_yield) (rw ne refl)
