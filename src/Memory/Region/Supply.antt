-- ===== src/Memory/Region/Supply.antt =====
-- The pages that the allocator gives in a row, and where it runs out of them.
use ikaros.Base.{
  ℕ, zero, suc, ◌+◌, ◌-◌, ◌≤◌, ◌≡◌, ◌⊎◌, inl, inr, refl, sym, subst, Option, none, some, List, [],
  ◌∷◌, ◌++◌, arith, length,
}
use mathlib.Core.Option.{none-ne-some}
use ikaros.Memory.Region.{State, Alloc, page, alloc_page}
use ikaros.Memory.Region.Order.{alloc_pages}

-- The allocator gives the pages `ps`, in their order, from `s` to `s'`.
abbrev pub Gives : State → List ℕ → State → Type 0
Gives s [] s' = s' ≡ s
Gives s (p ∷ ps) s' = (s1 : State) × (alloc_page s ≡ page s1 p) × Gives s1 ps s'

-- Of `n` allocations in a row one fails.
abbrev pub RunsOut : ℕ → State → Type 0
RunsOut n s = alloc_pages n s ≡ none

-- `p` is one of `ps`.
abbrev pub IsOneOf : ℕ → List ℕ → Type 0
IsOneOf p [] = ⊥
IsOneOf p (q ∷ ps) = (p ≡ q) ⊎ IsOneOf p ps

pub IsOneOf-left : (p : ℕ) (ps qs : List ℕ) → IsOneOf p ps → IsOneOf p (ps ++ qs)
IsOneOf-left p [] qs is = absurd is
IsOneOf-left p (q ∷ ps) qs (inl here) = inl here
IsOneOf-left p (q ∷ ps) qs (inr later) = inr (IsOneOf-left p ps qs later)

pub IsOneOf-right : (p : ℕ) (ps qs : List ℕ) → IsOneOf p qs → IsOneOf p (ps ++ qs)
IsOneOf-right p [] qs is = is
IsOneOf-right p (q ∷ ps) qs is = inr (IsOneOf-right p ps qs is)

pub Gives-append :
    (s s1 s2 : State) (ps qs : List ℕ) → Gives s ps s1 → Gives s1 qs s2 → Gives s (ps ++ qs) s2
Gives-append s s1 s2 [] qs same more = rw (← same) more
Gives-append s s1 s2 (p ∷ ps) qs (s0, run, few) more =
    (s0, run, Gives-append s0 s1 s2 ps qs few more)

pub RunsOut-now : (n : ℕ) (s : State) → alloc_page s ≡ Alloc.minus_one → RunsOut (suc n) s
unfolding alloc_pages
RunsOut-now n s empty = rw (empty, alloc_pages) refl

pub RunsOut-after :
    (n : ℕ) (s s' : State) (ps : List ℕ) → Gives s ps s' → RunsOut n s' → RunsOut (length ps + n) s
unfolding alloc_pages
RunsOut-after n s s' [] same out =
    let e : n ≡ 0 + n = omega arith in subst (λ m. RunsOut m s) e (subst (RunsOut n) same out)
RunsOut-after n s s' (p ∷ ps) (s1, run, few) out =
    let e : suc (length ps) + n ≡ suc (length ps + n) = omega arith in
    let later = RunsOut-after n s1 s' ps few out in rw e (rw (run, alloc_pages) (rw later refl))

cons_none :
    (p : ℕ) (o : Option (List ℕ))
    → elim o [ none ↦ none | some ps ↦ some (p ∷ ps) ] ≡ none
    → o ≡ none
cons_none p none e = refl
cons_none p (some ps) e = absurd (none-ne-some (p ∷ ps) (sym e))

pub RunsOut-more : (n k : ℕ) (s : State) → RunsOut n s → RunsOut (n + k) s
unfolding alloc_pages
RunsOut-more zero k s out = absurd (none-ne-some [] (sym out))
RunsOut-more (suc n) k s out =
    let e : suc n + k ≡ suc (n + k) = omega arith in
    rw e (go (λ s'. RunsOut-more n k s') (alloc_page s) out)
  where
    go :
        ((s' : State) → RunsOut n s' → RunsOut (n + k) s')
        → (a : Alloc)
        → ◌≡◌ {A = Option (List ℕ)}
            (elim a [
              | page s' p ↦ elim (alloc_pages n s') [ none ↦ none | some ps ↦ some (p ∷ ps) ]
              | Alloc.minus_one ↦ none
              | Alloc.fault ↦ none
            ])
            none
        → ◌≡◌ {A = Option (List ℕ)}
            (elim a [
              | page s' p ↦ elim (alloc_pages (n + k) s') [ none ↦ none | some ps ↦ some (p ∷ ps) ]
              | Alloc.minus_one ↦ none
              | Alloc.fault ↦ none
            ])
            none
    go more (page s' p) e = rw (more s' (cons_none p (alloc_pages n s') e)) refl
    go more Alloc.minus_one e = refl
    go more Alloc.fault e = refl

-- With the pages `ps` given first, `n` more and some to spare.
pub RunsOut-within :
    (n m : ℕ) (s s' : State) (ps : List ℕ)
    → Gives s ps s'
    → length ps + n ≤ m
    → RunsOut n s'
    → RunsOut m s
RunsOut-within n m s s' ps few enough out =
    let e : m ≡ length ps + n + (m - (length ps + n)) = omega arith in
    rw e (RunsOut-more (length ps + n) (m - (length ps + n)) s (RunsOut-after n s s' ps few out))
