-- ===== src/Sched/Ring/Segment.antt =====
-- The ring of tasks as a list.
use ikaros.Base.{ℕ, ◌≡◌, ◌≢◌, sym, subst, List, [], ◌∷◌, ◌++◌, arith, All}
use ikaros.Sched.Task.{Task, Store, update, set_next}
use ikaros.Sched.Ring.{Sched}

-- From `p` the `next` pointers lead through `xs` to `q`.
abbrev pub Seg : Store → ℕ → List ℕ → ℕ → Type 0
Seg store p [] q = p ≡ q
Seg store p (x ∷ xs) q = (p ≡ x) × Seg store (store x).next xs q

abbrev pub Lacks : ℕ → List ℕ → Type 0
Lacks a = All (λ x. x ≢ a)

abbrev pub AreDistinct : List ℕ → Type 0
AreDistinct [] = Unit
AreDistinct (x ∷ xs) = Lacks x xs × AreDistinct xs

-- The members of the ring in order, from `tasks` to `tasks_tail`.
pub record IsRing (s : Sched) (members : List ℕ) : Type 0 where
  pub before : List ℕ
  pub ends : members ≡ before ++ s.tail ∷ []
  pub seg : Seg s.store s.tasks before s.tail
  pub closes : (s.store s.tail).next ≡ s.tasks
  pub distinct : AreDistinct members
  pub nonnull : Lacks 0 members

-- A segment survives a write to a task that is not in it.
pub Seg-update :
    (store : Store) (t : ℕ) (v : Task) (p q : ℕ) (xs : List ℕ)
    → Lacks t xs
    → Seg store p xs q
    → Seg (update store t v) p xs q
Seg-update store t v p q [] out s = s
Seg-update store t v p q (x ∷ xs) (ne, out) (e, s) =
    (e, ground (arith, Seg-update store t v (store x).next q xs out s))

pub Seg-frame :
    (store : Store) (t n p q : ℕ) (xs : List ℕ)
    → Lacks t xs
    → Seg store p xs q
    → Seg (set_next store t n) p xs q
Seg-frame store t n = Seg-update store t (record (store t) { next = n })

pub Seg-snoc :
    (store : Store) (p q r : ℕ) (xs : List ℕ)
    → Seg store p xs q
    → (store q).next ≡ r
    → Seg store p (xs ++ q ∷ []) r
Seg-snoc store p q r [] s e = (s, e)
Seg-snoc store p q r (x ∷ xs) (h, s) e = (h, Seg-snoc store (store x).next q r xs s e)

pub Seg-append :
    (store : Store) (p q r : ℕ) (xs ys : List ℕ)
    → Seg store p xs q
    → Seg store q ys r
    → Seg store p (xs ++ ys) r
Seg-append store p q r [] ys s t = subst (λ a. Seg store a ys r) (sym s) t
Seg-append store p q r (x ∷ xs) ys (h, s) t = (h, Seg-append store (store x).next q r xs ys s t)

-- A segment taken apart in the middle.
pub Seg-split :
    (store : Store) (p q t : ℕ) (xs ys : List ℕ)
    → Seg store p (xs ++ t ∷ ys) q
    → Seg store p xs t × Seg store (store t).next ys q
Seg-split store p q t [] ys (e, s) = (e, s)
Seg-split store p q t (x ∷ xs) ys (e, s) =
    let (a, b) = Seg-split store (store x).next q t xs ys s in ((e, a), b)

module _ (a : ℕ) where
  pub Lacks-append : (xs ys : List ℕ) → Lacks a xs → Lacks a ys → Lacks a (xs ++ ys)
  Lacks-append [] ys h k = k
  Lacks-append (x ∷ xs) ys (h, hs) k = (h, Lacks-append xs ys hs k)

  pub Lacks-left : (xs ys : List ℕ) → Lacks a (xs ++ ys) → Lacks a xs
  Lacks-left [] ys h = tt
  Lacks-left (x ∷ xs) ys (h, hs) = (h, Lacks-left xs ys hs)

  pub Lacks-right : (xs ys : List ℕ) → Lacks a (xs ++ ys) → Lacks a ys
  Lacks-right [] ys h = h
  Lacks-right (x ∷ xs) ys (h, hs) = Lacks-right xs ys hs

pub distinct-snoc : (xs : List ℕ) (t : ℕ) → AreDistinct xs → Lacks t xs → AreDistinct (xs ++ t ∷ [])
distinct-snoc [] t d out = (tt, tt)
distinct-snoc (x ∷ xs) t (h, d) (ne, out) =
    (Lacks-append x xs (t ∷ []) h (λ e. ne (sym e), tt), distinct-snoc xs t d out)

pub distinct-append : (xs ys : List ℕ) → AreDistinct (xs ++ ys) → AreDistinct xs × AreDistinct ys
distinct-append [] ys d = (tt, d)
distinct-append (x ∷ xs) ys (h, d) =
    let (a, b) = distinct-append xs ys d in ((Lacks-left x xs ys h, a), b)

-- The last member is none of those before it.
pub distinct-Lacks : (xs : List ℕ) (t : ℕ) (ys : List ℕ) → AreDistinct (xs ++ t ∷ ys) → Lacks t xs
distinct-Lacks [] t ys d = tt
distinct-Lacks (x ∷ xs) t ys (h, d) =
    (λ e. (Lacks-right x xs (t ∷ ys) h).0 (sym e), distinct-Lacks xs t ys d)
