-- ===== src/Memory/Boot/Reserved.antt =====
-- The pages that the boot code takes for the kernel, and the allocations after it.
use ikaros.Base.{
  ℕ, zero, suc, ◌+◌, ◌-◌, ◌%◌, ◌^◌, ◌≤◌, ◌<◌, ◌≡◌, ◌⊎◌, inl, inr, refl, subst, Bool, true, false,
  ◌&&◌, Option, none, some, List, [], ◌∷◌, arith, ltb, leb, ◌==◌, if◌then◌else◌, All, Bool-cases,
}
use mathlib.Core.Option.{some-injective, none-ne-some}
use ikaros.Memory.Region.{Region, State, overlap, setbit, Alloc, page, alloc_page}
use ikaros.Memory.Region.Words.{bit_at}
use ikaros.Memory.Region.Walk.{IsRegion, HitAt}
use ikaros.Memory.Region.Digits.{write_bit_lem}
use ikaros.Memory.Region.Pages.{IsState, AllocLem, alloc_page_lem}
use ikaros.Memory.Region.Order.{alloc_pages}
use ikaros.Memory.Boot.{mark_pages, mark_overlap}

-- The pages from `lo` to `hi` are taken, as far as they lie in the region.
abbrev pub Reserved : ℕ → ℕ → Region → Type 0
Reserved lo hi r =
    (p : ℕ)
    → lo ≤ p
    → p < hi
    → r.base ≤ p
    → p < r.base + r.length
    → bit_at r.bitmap (p - r.base) ≡ true

-- An allocation gives no reserved page, and reserved pages stay so.
HitAt-Reserved :
    (lo hi : ℕ) (chain chain' : List Region) (k p : ℕ)
    → All (Reserved lo hi) chain
    → HitAt chain chain' k p
    → ((p < lo) ⊎ (hi ≤ p)) × All (Reserved lo hi) chain'
HitAt-Reserved lo hi [] chain' k p all h = absurd h
HitAt-Reserved lo hi (r ∷ rs) [] k p all h = absurd h
HitAt-Reserved lo hi (r ∷ rs) (r' ∷ rs') zero p (kept, all) (h, same) = (
  ground (arith, kept p, h.takes.was_clear, h.from_base, h.below_limit),
  (
    λ q above below from upto. elim (Bool-cases (q == p)) [
      | inl here ↦ ground (arith, h.takes.now_set, h.same_base)
      | inr away ↦
          ground
            (arith, kept q, h.takes.others (q - r.base), h.same_base, h.same_length, h.from_base)
    ],
    rw same all,
  ),
)
HitAt-Reserved lo hi (r ∷ rs) (r' ∷ rs') (suc k) p (kept, all) (same, h) =
    let (out, all') = HitAt-Reserved lo hi rs rs' k p all h in (out, (rw same kept, all'))

abbrev pub AllOutside : ℕ → ℕ → List ℕ → Type 0
AllOutside lo hi = All (λ p. (p < lo) ⊎ (hi ≤ p))

module _ (lo hi n : ℕ) (s : State) (ps : List ℕ) (all : All (Reserved lo hi) s.chain) where
  rest-Reserved :
      ((s' : State) (qs : List ℕ)
        → IsState s'
        → All (Reserved lo hi) s'.chain
        → alloc_pages n s' ≡ some qs
        → AllOutside lo hi qs)
      → (s' : State) (p : ℕ) → IsState s'
      → All (Reserved lo hi) s'.chain
      → (p < lo) ⊎ (hi ≤ p)
      → (o : Option (List ℕ)) → alloc_pages n s' ≡ o
      → elim o [ none ↦ none | some qs ↦ some (p ∷ qs) ] ≡ some ps
      → AllOutside lo hi ps
  rest-Reserved later s' p is' all' out none run' whole = absurd (none-ne-some ps whole)
  rest-Reserved later s' p is' all' out (some qs) run' whole =
      subst (AllOutside lo hi) (some-injective (p ∷ qs) ps whole) (out, later s' qs is' all' run')

  first-Reserved :
      ((s' : State) (qs : List ℕ)
        → IsState s'
        → All (Reserved lo hi) s'.chain
        → alloc_pages n s' ≡ some qs
        → AllOutside lo hi qs)
      → (a : Alloc) → AllocLem s a
      → elim a [
        | page s' p ↦ elim (alloc_pages n s') [ none ↦ none | some qs ↦ some (p ∷ qs) ]
        | Alloc.minus_one ↦ none
        | Alloc.fault ↦ none
      ]
        ≡ some ps
      → AllOutside lo hi ps
  first-Reserved later (page s' p) (h, is', _) whole =
      let (out, all') = HitAt-Reserved lo hi s.chain s'.chain s'.last_free p all h in
      rest-Reserved later s' p is' all' out (alloc_pages n s') refl whole
  first-Reserved later Alloc.minus_one _ whole = absurd (none-ne-some ps whole)
  first-Reserved later Alloc.fault never whole = absurd never

-- However many allocations follow, none gives a reserved page.
pub alloc_pages-Reserved :
    (lo hi n : ℕ) (s : State) (ps : List ℕ)
    → IsState s
    → All (Reserved lo hi) s.chain
    → alloc_pages n s ≡ some ps
    → AllOutside lo hi ps
unfolding alloc_pages
alloc_pages-Reserved lo hi zero s ps is all run =
    subst (AllOutside lo hi) (some-injective [] ps run) tt
alloc_pages-Reserved lo hi (suc n) s ps is all run =
    first-Reserved lo hi n s ps all
      (λ s' qs is' all' run'. alloc_pages-Reserved lo hi n s' qs is' all' run') (alloc_page s)
      (alloc_page_lem s is) run

-- A region of which the boot code has taken the pages from `lo` on, `n` of them.
pub record Marked (r : Region) (lo n : ℕ) (r' : Region) : Type 0 where
  pub valid : IsRegion r'
  pub same_base : r'.base ≡ r.base
  pub same_length : r'.length ≡ r.length
  pub digits :
      (q : ℕ)
      → bit_at r'.bitmap q
        ≡ (if leb lo (r.base + q) && ltb (r.base + q) (lo + n) then true else bit_at r.bitmap q)

mark_pages-Marked :
    (n lo : ℕ) (r : Region) (rs : List Region)
    → IsRegion r
    → r.base ≤ lo
    → lo + n ≤ r.base + r.length
    → (r' : Region) × (mark_pages n lo (r ∷ rs) ≡ some (r' ∷ rs)) × Marked r lo n r'
unfolding mark_pages setbit
mark_pages-Marked zero lo r rs is low high = (
  r,
  refl,
  record { valid = is; same_base = refl; same_length = refl; digits = λ q. ground arith },
)
mark_pages-Marked (suc n) lo r rs is low high =
    let (bitmap', run, digit, bytes, same) =
      write_bit_lem r.bitmap (lo - r.base) true is.bytes (omega (arith, is.room)) in
    let r1 = record r { bitmap = bitmap' } in
    let is1 : IsRegion r1 = record {
      bytes = bytes;
      room = omega (arith, is.room, same);
      bounded = is.bounded;
    } in
    let here : setbit (r ∷ rs) lo true ≡ some (r1 ∷ rs) = ground (arith, is.bounded, run) in
    let (r', rest, m) = mark_pages-Marked n (lo + 1) r1 rs is1 (omega arith) (omega arith) in
    (
      r',
      rw (here, mark_pages) rest,
      record {
        valid = m.valid;
        same_base = m.same_base;
        same_length = m.same_length;
        digits = λ q. ground (arith, m.digits q, digit q);
      },
    )

-- The part of the pages `lo` to `hi` that lies in the region is taken, and no other.
pub record Overlapped (r : Region) (lo hi : ℕ) (r' : Region) : Type 0 where
  pub valid : IsRegion r'
  pub same_base : r'.base ≡ r.base
  pub same_length : r'.length ≡ r.length
  pub digits :
      (q : ℕ)
      → q < r.length
      → bit_at r'.bitmap q
        ≡ (if leb lo (r.base + q) && ltb (r.base + q) hi then true else bit_at r.bitmap q)
  pub beyond : (q : ℕ) → r.length ≤ q → bit_at r'.bitmap q ≡ bit_at r.bitmap q

module _ (base len lo hi : ℕ) (bounded : base + len < 2 ^ 32) where
  abbrev start : ℕ
  start = if ltb lo base then base else lo

  abbrev end : ℕ
  end = if ltb ((base + len) % 2 ^ 32) hi then (base + len) % 2 ^ 32 else hi

  abbrev meets : Bool
  meets = if ltb hi base then false else if ltb ((base + len) % 2 ^ 32) lo then false else true

  span_inside : meets ≡ true → start + (end - start) ≤ base + len
  span_inside e = ground (arith, bounded, e)

  span_digits :
      (q : ℕ)
      → q < len
      → (leb start (base + q) && ltb (base + q) (start + (end - start)))
        ≡ (leb lo (base + q) && ltb (base + q) hi)
  span_digits q hq = ground (arith, bounded, hq)

  span_beyond :
      meets ≡ true
      → (q : ℕ) → len ≤ q
      → (leb start (base + q) && ltb (base + q) (start + (end - start))) ≡ false
  span_beyond e q hq = ground (arith, span_inside e, hq)

  apart_digits :
      meets ≡ false → (q : ℕ) → q < len → (leb lo (base + q) && ltb (base + q) hi) ≡ false
  apart_digits e q hq = ground (arith, bounded, e, hq)

pub mark_overlap-Overlapped :
    (lo hi : ℕ) (r : Region) (rs : List Region)
    → IsRegion r
    → (r' : Region) × (mark_overlap lo hi r rs ≡ some (r' ∷ rs)) × Overlapped r lo hi r'
unfolding mark_overlap overlap
mark_overlap-Overlapped lo hi r rs is = elim (Bool-cases (overlap r lo hi)) [
  | inl near ↦
      let first = start r.base r.length lo hi is.bounded in
      let last = end r.base r.length lo hi is.bounded in
      let (r', run, m) =
        mark_pages-Marked (last - first) first r rs is (ground arith)
          (span_inside r.base r.length lo hi is.bounded near) in
      (
        r',
        rw near run,
        record {
          valid = m.valid;
          same_base = m.same_base;
          same_length = m.same_length;
          digits = λ q hq. rw (m.digits q, span_digits r.base r.length lo hi is.bounded q hq) refl;
          beyond =
              λ q hq. rw (m.digits q, span_beyond r.base r.length lo hi is.bounded near q hq) refl;
        },
      )
  | inr apart ↦ (
    r,
    rw apart refl,
    record {
      valid = is;
      same_base = refl;
      same_length = refl;
      beyond = λ q hq. refl;
      digits = λ q hq. rw (apart_digits r.base r.length lo hi is.bounded apart q hq) refl;
    },
  )
]
