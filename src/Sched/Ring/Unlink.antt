-- ===== src/Sched/Ring/Unlink.antt =====
-- The loop of `tasks_remove` and the unlinking behind it.
use ikaros.Base.{
  ℕ, zero, suc, ◌<◌, ◌≡◌, ◌≢◌, refl, sym, subst, false, List, [], ◌∷◌, ◌++◌, arith, ◌==◌,
  if◌then◌else◌, length, Bool-cases, inl, inr, some,
}
use ikaros.Sched.Task.{Store}
use ikaros.Sched.Ring.{Sched, remove_loop, unlink}
use ikaros.Sched.Ring.Segment.{Seg, Lacks, AreDistinct, Seg-frame}

-- The list without the first occurrence of `task`.
unfoldable pub erase : ℕ → List ℕ → List ℕ
erase task [] = []
erase task (x ∷ xs) = if x == task then xs else x ∷ erase task xs

-- Where the loop stops, for the tasks `zs` between `prev` and the tail.
pub walk : ℕ → ℕ → ℕ → List ℕ → ℕ × ℕ
walk task tail prev [] = (prev, tail)
walk task tail prev (z ∷ zs) = if z == task then (prev, z) else walk task tail z zs

pub remove_loop-walk :
    (fuel : ℕ) (store : Store) (tail task prev curr : ℕ) (zs : List ℕ)
    → length zs < fuel
    → Seg store curr zs tail
    → Lacks tail zs
    → remove_loop fuel store tail task prev curr ≡ some (walk task tail prev zs)
unfolding remove_loop walk
remove_loop-walk zero store tail task prev curr zs h s out = absurd (omega arith)
remove_loop-walk (suc fuel) store tail task prev curr [] h e out = ground arith
remove_loop-walk (suc fuel) store tail task prev curr (z ∷ zs) h (e, s) (ne, out) =
    rw e (
      ground (arith, remove_loop-walk fuel store tail task z (store z).next zs (omega arith) s out))

-- The store and the tail behind the unlinking.
unfoldable pub after : ℕ → Sched → ℕ × ℕ → Sched
unfolding unlink
after task s (prev, curr) = unlink task s prev curr

-- The part of the ring from `prev` on, without `task`.
pub record Unlinked (task : ℕ) (s : Sched) (prev : ℕ) (zs : List ℕ) (t : Sched) : Type 0 where
  pub before : List ℕ
  pub seg : Seg t.store prev before t.tail
  pub ends : before ++ t.tail ∷ [] ≡ prev ∷ erase task (zs ++ s.tail ∷ [])
  pub closes : (t.store t.tail).next ≡ (s.store s.tail).next
  pub same : (p : ℕ) → p ≢ prev → Lacks p zs → t.store p ≡ s.store p
  pub states : (p : ℕ) → (t.store p).state ≡ (s.store p).state
  pub registers : (p : ℕ) → (t.store p).regs ≡ (s.store p).regs

Unlinked-cons :
    (task : ℕ) (s : Sched) (prev z : ℕ) (zs : List ℕ) (t : Sched)
    → (s.store prev).next ≡ z
    → (z == task) ≡ false
    → prev ≢ z
    → Lacks prev zs
    → Unlinked task s z zs t
    → Unlinked task s prev (z ∷ zs) t
unfolding erase
Unlinked-cons task s prev z zs t e miss ne out rest =
    let q : (t.store prev).next ≡ z = rw (rest.same prev ne out) e in
    record {
      before = prev ∷ rest.before;
      seg = (refl, subst (λ a. Seg t.store a rest.before t.tail) (sym q) rest.seg);
      ends = rw (rest.ends, miss);
      closes = rest.closes;
      same = λ p h g. rest.same p (λ r. g.0 (sym r)) g.1;
      states = rest.states;
      registers = rest.registers;
    }

pub after-Unlinked :
    (task : ℕ) (s : Sched) (prev : ℕ) (zs : List ℕ)
    → Seg s.store (s.store prev).next zs s.tail
    → AreDistinct zs
    → Lacks s.tail zs
    → Lacks prev zs
    → prev ≢ s.tail
    → Unlinked task s prev zs (after task s (walk task s.tail prev zs))
unfolding walk erase after
after-Unlinked task s prev [] e d out out' ne = elim (Bool-cases (s.tail == task)) [
  | inl hit ↦ rw hit (record {
    before = [];
    seg = ground arith;
    ends = ground arith;
    closes = ground arith;
    same = λ p h g. ground arith;
    states = λ p. ground arith;
    registers = λ p. ground arith;
  })
  | inr miss ↦ rw miss (record {
    before = prev ∷ [];
    seg = (refl, e);
    ends = ground arith;
    closes = ground arith;
    same = λ p h g. ground arith;
    states = λ p. ground arith;
    registers = λ p. ground arith;
  })
]
after-Unlinked task s prev (z ∷ zs) (e, seg) (dz, d) (tz, out) (pz, out') ne =
    elim (Bool-cases (z == task)) [
      | inl hit ↦
          let inner : (z == s.tail) ≡ false = ground arith in
          rw hit (
            rw (hit, inner)
              (record {
                before = prev ∷ zs;
                seg = (
                  refl,
                  ground (
                    arith,
                    Seg-frame s.store prev (s.store z).next (s.store z).next s.tail zs out' seg,
                  ),
                );
                ends = ground arith;
                closes = ground arith;
                same = λ p h g. ground arith;
                states = λ p. ground arith;
                registers = λ p. ground arith;
              }))
      | inr miss ↦ rw miss (
          Unlinked-cons task s prev z zs (after task s (walk task s.tail z zs)) e miss
            (λ q. pz (sym q)) out' (after-Unlinked task s z zs seg d out dz tz))
    ]
