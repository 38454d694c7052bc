-- ===== src/Memory/Region/Release.antt =====
-- `memory_region_dealloc_page` against `memory_region_alloc_page`, and the search behind the end of
-- the bitmap.
use ikaros.Base.{
  ℕ, zero, suc, ◌+◌, ◌-◌, ◌*◌, ◌/◌, ◌≤◌, ◌<◌, ◌≡◌, ◌≢◌, subst, Bool, true, false, inl, inr, some,
  List, [], ◌∷◌, arith, ltb, Bool-cases, length, All,
}
use ikaros.Base.Bits.{eq_zero_of_bits}
use ikaros.Memory.Region.{
  Region, State, complement, word, scan, wild, find_and_set, Alloc, page, from_last, alloc_page,
  dealloc_page, found_in, getbit, bit,
}
use ikaros.Memory.Region.Words.{bit_at, AreBytes}
use ikaros.Memory.Region.FirstFit.{Full, complement_digit}
use ikaros.Memory.Region.Walk.{IsRegion, HitAt}
use ikaros.Memory.Region.Digits.{Covers, setbit-Written}
use ikaros.Memory.Region.Pages.{IsState, AllocLem, alloc_page_lem}

-- The regions of a chain lie in the order of their addresses.
abbrev pub AreSorted : List Region → Type 0
AreSorted [] = Unit
AreSorted (r ∷ rs) = All (λ r'. r.base + r.length ≤ r'.base) rs × AreSorted rs

abbrev Behind : Region → List Region → Type 0
Behind r = All (λ r'. r.base + r.length ≤ r'.base)

base-le-HitAt :
    (low : ℕ) (chain chain' : List Region) (k p : ℕ)
    → All (λ r'. low ≤ r'.base) chain
    → HitAt chain chain' k p
    → low ≤ p
base-le-HitAt low [] chain' k p above h = absurd h
base-le-HitAt low (r ∷ rs) [] k p above h = absurd h
base-le-HitAt low (r ∷ rs) (r' ∷ rs') zero p (le, _) (h, same) = omega (arith, h.from_base)
base-le-HitAt low (r ∷ rs) (r' ∷ rs') (suc k) p (_, above) (same, h) =
    base-le-HitAt low rs rs' k p above h

HitAt-Covers :
    (chain chain' : List Region) (k p : ℕ)
    → AreSorted chain
    → HitAt chain chain' k p
    → Covers 0 chain' p
HitAt-Covers [] chain' k p sorted h = absurd h
HitAt-Covers (r ∷ rs) [] k p sorted h = absurd h
HitAt-Covers (r ∷ rs) (r' ∷ rs') zero p sorted (h, same) = inl (
  omega (arith, h.from_base, h.same_base),
  omega (arith, h.below_limit, h.same_length, h.same_base),
)
HitAt-Covers (r ∷ rs) (r' ∷ rs') (suc k) p (above, sorted) (same, h) =
    rw same
      (inr (base-le-HitAt (r.base + r.length) rs rs' k p above h, HitAt-Covers rs rs' k p sorted h))

-- Digit `off` of region `k`.
abbrev pub digit_of : List Region → ℕ → ℕ → Bool
digit_of [] k off = false
digit_of (r ∷ rs) zero off = bit_at r.bitmap off
digit_of (r ∷ rs) (suc k) off = digit_of rs k off

-- A page that was given out is taken.
abbrev base_of : List Region → ℕ → ℕ
base_of [] k = 0
base_of (r ∷ rs) zero = r.base
base_of (r ∷ rs) (suc k) = base_of rs k

HitAt-set :
    (chain chain' : List Region) (k p : ℕ)
    → HitAt chain chain' k p
    → digit_of chain' k (p - base_of chain' k) ≡ true
HitAt-set [] chain' k p h = absurd h
HitAt-set (r ∷ rs) [] k p h = absurd h
HitAt-set (r ∷ rs) (r' ∷ rs') zero p (h, same) = rw h.same_base h.takes.now_set
HitAt-set (r ∷ rs) (r' ∷ rs') (suc k) p (same, h) = HitAt-set rs rs' k p h

HitAt-clear :
    (chain chain' : List Region) (k p : ℕ)
    → HitAt chain chain' k p
    → digit_of chain k (p - base_of chain k) ≡ false
HitAt-clear [] chain' k p h = absurd h
HitAt-clear (r ∷ rs) [] k p h = absurd h
HitAt-clear (r ∷ rs) (r' ∷ rs') zero p (h, same) = h.takes.was_clear
HitAt-clear (r ∷ rs) (r' ∷ rs') (suc k) p (same, h) = HitAt-clear rs rs' k p h

module _ (s s' : State) (p : ℕ) (is : IsState s) (run : alloc_page s ≡ page s' p) where
  alloc_lem : AllocLem s (page s' p)
  alloc_lem = subst (AllocLem s) run (alloc_page_lem s is)

  -- A page that was allocated can be given back: its digit is clear again and reads 0, unless it is
  -- the first page of its region, and every other page reads as before.
  pub dealloc_page-alloc_page :
      AreSorted s.chain
      → (t : State) × (dealloc_page s' p ≡ some t)
        × All IsRegion t.chain
        × ((q : ℕ) → q ≢ p → getbit t.chain q ≡ getbit s'.chain q)
        × (Covers 1 s'.chain p → getbit t.chain p ≡ bit false)
  unfolding dealloc_page
  dealloc_page-alloc_page sorted =
      let (h, valid, _) = alloc_lem in
      let c = HitAt-Covers s.chain s'.chain s'.last_free p sorted h in
      let (new, w) = setbit-Written s'.chain p false valid.regions c in
      (record s' { chain = new }, rw (w.done, dealloc_page), w.regions, w.others, w.reads)

  -- Two allocations in a row never give one page of one region twice.
  pub alloc_page-fresh :
      (s'' : State) (q : ℕ) → alloc_page s' ≡ page s'' q → s''.last_free ≡ s'.last_free → q ≢ p
  alloc_page-fresh s'' q again same e =
      let (h, valid, _) = alloc_lem in
      let (h', _, _) = subst (AllocLem s') again (alloc_page_lem s' valid) in
      let one = HitAt-set s.chain s'.chain s'.last_free p h in
      let other = HitAt-clear s'.chain s''.chain s''.last_free q h' in cc

-- A word inside a full bitmap has no clear digit.
word-Full :
    (bitmap : List ℕ) (i : ℕ)
    → AreBytes bitmap
    → Full bitmap (i * 32) ((i + 1) * 32)
    → complement (word bitmap i) ≡ 0
word-Full bitmap i bytes full =
    eq_zero_of_bits 32 (complement (word bitmap i)) (omega arith)
      λ k hk. ground (arith, complement_digit bitmap i bytes k hk, full (i * 32 + k))

scan-wild :
    (n i m : ℕ) (bitmap : List ℕ)
    → AreBytes bitmap
    → length bitmap ≡ 4 * m
    → i ≤ m
    → m < i + n
    → Full bitmap (i * 32) (m * 32)
    → scan n i bitmap ≡ wild
unfolding scan
scan-wild zero i m bitmap bytes size le lt full = absurd (omega arith)
scan-wild (suc n) i m bitmap bytes size le lt full = elim (Bool-cases (ltb i m)) [
  | inl inside ↦
      let w = word-Full bitmap i bytes (λ p lo hi. full p lo (ground arith)) in
      let rest =
        scan-wild n (i + 1) m bitmap bytes size (ground arith) (omega arith)
          (λ p lo hi. full p (omega arith) hi) in
      ground (arith, w, rest)
  | inr past ↦ ground arith
]

-- `memory_region_early_init` admits regions of `MEMORY_BITMAP_SIZE * 32` pages, where the bitmap has
-- a digit for `MEMORY_BITMAP_SIZE * 8`. In a longer region the search leaves the bitmap as soon
-- as the bitmap is full.
pub alloc_page-outside :
    (base len m : ℕ) (bitmap : List ℕ)
    → AreBytes bitmap
    → length bitmap ≡ 4 * m
    → m * 32 + 32 ≤ len
    → Full bitmap 0 (m * 32)
    → alloc_page (record {
      chain = record { base = base; length = len; bitmap = bitmap } ∷ [];
      last_free = 0;
    })
      ≡ Alloc.fault
unfolding alloc_page from_last find_and_set found_in
alloc_page-outside base len m bitmap bytes size long full =
    let e = scan-wild (len / 32) 0 m bitmap bytes size (omega arith) (omega arith) full in rw e
