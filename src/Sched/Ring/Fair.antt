-- ===== src/Sched/Ring/Fair.antt =====
-- Repeated calls of `scheduler_yield`: no task that is ready waits for more than one round.
use ikaros.Base.{
  ℕ, zero, suc, ◌≤◌, ◌<◌, ◌≡◌, ◌⊎◌, inl, inr, refl, ◌∙◌, ap, subst, true, Option, none, some, List,
  [], ◌∷◌, ◌++◌, arith, length, length-append, Bool-cases,
}
use mathlib.Core.List.{append_assoc}
use ikaros.Sched.Task.{Store, is_running}
use ikaros.Sched.Ring.{Sched, task_switch, scheduler_yield}
use ikaros.Sched.Ring.Segment.{IsRing, Lacks-left, Lacks-right}
use ikaros.Sched.Ring.Circle.{Circle, distinct-swap, Lacks-swap, switch-Circle, yield_lem}
use ikaros.Sched.Ring.Next.{first_running, IsRing-rotate}

-- `n` yields in a row.
unfoldable pub yields : ℕ → ℕ → Sched → Option Sched
yields fuel zero s = some s
yields fuel (suc n) s = elim (scheduler_yield fuel s) [ none ↦ none | some t ↦ yields fuel n t ]

-- The first task of a list that is ready, if there is one.
First : Store → ℕ → List ℕ → List ℕ → Type 0
First store t before rest =
    (first_running store t (before ++ rest) ≡ first_running store t rest)
    ⊎ ((b1 : List ℕ) × (w : ℕ) × (b2 : List ℕ) × (before ≡ b1 ++ w ∷ b2)
        × (first_running store t (before ++ rest) ≡ w))

first_lem : (store : Store) (t : ℕ) (before rest : List ℕ) → First store t before rest
unfolding First first_running
first_lem store t [] rest = inl refl
first_lem store t (x ∷ xs) rest = elim (Bool-cases (is_running (store x).state)) [
  | inl ready ↦ inr ([], x, xs, refl, rw ready refl)
  | inr not_ready ↦ elim (first_lem store t xs rest) [
    | inl later ↦ inl (rw not_ready later)
    | inr (b1, w, b2, e, first) ↦ inr (x ∷ b1, w, b2, ap (λ l. x ∷ l) e, rw not_ready first)
  ]
]

-- Within `n` yields and one, `z` runs; the ring is seen from it, and no state is changed.
record Runs (fuel n z : ℕ) (s : Sched) : Type 0 where
  count : ℕ
  bounded : count ≤ suc n
  end : Sched
  yielded : yields fuel count s ≡ some end
  running : end.running_task ≡ z
  states : (p : ℕ) → (end.store p).state ≡ (s.store p).state

-- Where another task is first, the circle after the yield, and where `z` stands in it.
past :
    (s : Sched) (b1 b2 after : List ℕ) (w z : ℕ)
    → Circle s ((b1 ++ w ∷ b2) ++ z ∷ after)
    → Circle
        (task_switch s.running_task w (record s { running_task = w }))
        (b2 ++ z ∷ (after ++ s.running_task ∷ b1))
past s b1 b2 after w z c =
    let t = s.running_task in
    let c1 = subst (Circle s) (append_assoc b1 (w ∷ b2) (z ∷ after)) c in
    subst (Circle (task_switch t w (record s { running_task = w })))
      (append_assoc b2 (z ∷ after) (t ∷ b1)) (switch-Circle s b1 (b2 ++ z ∷ after) w c1)

past-length :
    (b1 b2 after : List ℕ) (t w z : ℕ)
    → length (b2 ++ z ∷ (after ++ t ∷ b1)) ≡ length ((b1 ++ w ∷ b2) ++ z ∷ after)
past-length b1 b2 after t w z = omega (
  arith,
  length-append b2 (z ∷ (after ++ t ∷ b1)),
  length-append after (t ∷ b1),
  length-append (b1 ++ w ∷ b2) (z ∷ after),
  length-append b1 (w ∷ b2),
)

Runs-yield :
    (fuel n z : ℕ) (s s' : Sched)
    → scheduler_yield fuel s ≡ some s'
    → ((p : ℕ) → (s'.store p).state ≡ (s.store p).state)
    → Runs fuel n z s'
    → Runs fuel (suc n) z s
unfolding yields
Runs-yield fuel n z s s' run same r = record {
  count = suc r.count;
  bounded = omega (arith, r.bounded);
  end = r.end;
  yielded = rw (run, yields) r.yielded;
  running = r.running;
  states = λ p. r.states p ∙ same p;
}

Runs-first :
    (fuel z : ℕ) (s s' : Sched)
    → scheduler_yield fuel s ≡ some s'
    → s'.running_task ≡ z
    → ((p : ℕ) → (s'.store p).state ≡ (s.store p).state)
    → (n : ℕ) → Runs fuel n z s
unfolding yields
Runs-first fuel z s s' run runs same n = record {
  count = 1;
  bounded = omega arith;
  end = s';
  yielded = rw (run, yields) refl;
  running = runs;
  states = same;
}

-- `z` runs after the next yield.
fair_now :
    (fuel n z : ℕ) (before after : List ℕ) (s : Sched)
    → Circle s (before ++ z ∷ after)
    → length (before ++ z ∷ after) < fuel
    → is_running (s.store z).state ≡ true
    → first_running s.store s.running_task (before ++ z ∷ after)
      ≡ first_running s.store s.running_task (z ∷ after)
    → Runs fuel n z s
unfolding first_running
fair_now fuel n z before after s c enough ready now =
    let first : first_running s.store s.running_task (before ++ z ∷ after) ≡ z =
      now ∙ rw ready refl in
    let other = (Lacks-right s.running_task before (z ∷ after) c.distinct.0).0 in
    Runs-first fuel z s _ (yield_lem fuel s (before ++ z ∷ after) z c enough first other)
      (unfold task_switch in refl) (λ p. unfold task_switch in ground arith) n

-- The task `w` before it is switched to.
switch_lem :
    (fuel w z : ℕ) (b1 b2 after : List ℕ) (s : Sched)
    → Circle s ((b1 ++ w ∷ b2) ++ z ∷ after)
    → length ((b1 ++ w ∷ b2) ++ z ∷ after) < fuel
    → first_running s.store s.running_task ((b1 ++ w ∷ b2) ++ z ∷ after) ≡ w
    → scheduler_yield fuel s ≡ some (task_switch s.running_task w (record s { running_task = w }))
switch_lem fuel w z b1 b2 after s c enough first =
    let t = s.running_task in
    let lacks = Lacks-left t (b1 ++ w ∷ b2) (z ∷ after) c.distinct.0 in
    yield_lem fuel s _ w c enough first (Lacks-right t b1 (w ∷ b2) lacks).0

fair :
    (fuel n z : ℕ) (before after : List ℕ) (s : Sched)
    → Circle s (before ++ z ∷ after)
    → length before ≤ n
    → length (before ++ z ∷ after) < fuel
    → is_running (s.store z).state ≡ true
    → Runs fuel n z s
unfolding First
fair fuel zero z [] after s c short enough ready = fair_now fuel 0 z [] after s c enough ready refl
fair fuel zero z (x ∷ xs) after s c short enough ready = absurd (omega arith)
fair fuel (suc n) z before after s c short enough ready =
    elim (first_lem s.store s.running_task before (z ∷ after)) [
      | inl now ↦ fair_now fuel (suc n) z before after s c enough ready now
      | inr (b1, w, b2, e, first) ↦
          let t = s.running_task in
          let c1 = subst (λ l. Circle s (l ++ z ∷ after)) e c in
          let enough1 = subst (λ l. length (l ++ z ∷ after) < fuel) e enough in
          let short1 = subst (λ l. length l ≤ suc n) e short in
          let first1 = subst (λ l. first_running s.store t (l ++ z ∷ after) ≡ w) e first in
          Runs-yield fuel n z s _ (switch_lem fuel w z b1 b2 after s c1 enough1 first1)
            (λ p. unfold task_switch in ground arith)
            (fair fuel n z b2 (after ++ t ∷ b1) _ (past s b1 b2 after w z c1)
              (omega (arith, length-append b1 (w ∷ b2)))
              (omega (arith, past-length b1 b2 after t w z))
              (unfold task_switch in ground (arith, ready)))
    ]

-- On a ring of tasks, repeated yields make every other task that is ready the running one, after
-- at most as many yields as there are tasks from the one behind the running one up to it; each of the
-- yields ends, and no task changes its state.
pub scheduler_yield-fair :
    (fuel z : ℕ) (s : Sched) (xs ys before after : List ℕ)
    → IsRing s (xs ++ s.running_task ∷ ys)
    → ys ++ xs ≡ before ++ z ∷ after
    → length (ys ++ xs) < fuel
    → is_running (s.store z).state ≡ true
    → (n : ℕ) × (n ≤ suc (length before))
      × (t : Sched) × (yields fuel n s ≡ some t)
      × (t.running_task ≡ z)
      × ((p : ℕ) → (t.store p).state ≡ (s.store p).state)
scheduler_yield-fair fuel z s xs ys before after ring e enough ready =
    let c : Circle s (ys ++ xs) = record {
      seg = IsRing-rotate s xs ys s.running_task ring;
      distinct = distinct-swap xs (s.running_task ∷ ys) ring.distinct;
      nonnull = Lacks-swap 0 xs (s.running_task ∷ ys) ring.nonnull;
    } in
    let r =
      fair fuel (length before) z before after s (subst (Circle s) e c) (omega arith)
        (subst (λ l. length l < fuel) e enough) ready in
    (r.count, r.bounded, r.end, r.yielded, r.running, r.states)
