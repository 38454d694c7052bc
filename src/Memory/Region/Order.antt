-- ===== src/Memory/Region/Order.antt =====
-- Allocations one after another from the state that `memory_region_early_init` builds.
use ikaros.Base.{
  ℕ, zero, suc, ◌+◌, ◌-◌, ◌*◌, ◌/◌, ◌%◌, ◌^◌, ◌≤◌, ◌<◌, ◌≡◌, refl, subst, false, inl, inr, Option,
  none, some, List, [], ◌∷◌, arith, ltb, ◌==◌, Bool-cases, if◌then◌else◌, length, get_or, replicate,
  length-replicate,
}
use ikaros.Base.Bits.{zero-test_bit}
use ikaros.Memory.Region.{Region, State, Alloc, page, alloc_page, early_init, memory_bitmap_size}
use ikaros.Memory.Region.Words.{bit_at, AreBytes}
use ikaros.Memory.Region.FirstFit.{Full}
use ikaros.Memory.Region.Walk.{FirstFitAt}
use ikaros.Memory.Region.Pages.{IsState, AllocLem, alloc_page_lem}

-- `n` calls of `memory_region_alloc_page` in a row: the pages, `none` if one call fails.
unfoldable pub alloc_pages : ℕ → State → Option (List ℕ)
alloc_pages zero s = some []
alloc_pages (suc n) s = elim (alloc_page s) [
  | page s' p ↦ elim (alloc_pages n s') [ none ↦ none | some ps ↦ some (p ∷ ps) ]
  | Alloc.minus_one ↦ none
  | Alloc.fault ↦ none
]

-- The numbers from `base` on, `n` of them.
unfoldable pub pages_from : ℕ → ℕ → List ℕ
pages_from base zero = []
pages_from base (suc n) = base ∷ pages_from (base + 1) n

-- One region with the first `k` pages taken and the others free.
pub record Filled (base length k : ℕ) (s : State) : Type 0 where
  pub valid : IsState s
  pub at_root : s.last_free ≡ 0
  pub region : Region
  pub alone : s.chain ≡ region ∷ []
  pub same_base : region.base ≡ base
  pub same_length : region.length ≡ length
  pub digits : (p : ℕ) → bit_at region.bitmap p ≡ ltb p k

-- The next allocation takes page `base + k`.
abbrev pub Next : ℕ → ℕ → ℕ → Alloc → Type 0
Next base length k a = (s' : State) × (a ≡ page s' (base + k)) × Filled base length (suc k) s'

module _ (r : Region) (k : ℕ) (digits : (p : ℕ) → bit_at r.bitmap p ≡ ltb p k) where
  lowest_clear : (off : ℕ) → bit_at r.bitmap off ≡ false → Full r.bitmap 0 off → off ≡ k
  lowest_clear off clear before = elim (Bool-cases (ltb k off)) [
    | inl above ↦ ground (arith, before k, digits k)
    | inr below ↦ ground (arith, digits off)
  ]

  next_fit :
      (chain' : List Region) (j p : ℕ)
      → IsState (record { chain = chain'; last_free = j })
      → FirstFitAt (r ∷ []) chain' j p
      → (p ≡ r.base + k) × Filled r.base r.length (suc k) (record { chain = chain'; last_free = j })
  next_fit [] j p valid fit = absurd fit
  next_fit (r' ∷ rs') zero p valid (h, same, before) =
      let off : p - r.base ≡ k = lowest_clear (p - r.base) h.takes.was_clear before in
      (
        omega (arith, h.from_base, off),
        record {
          valid = valid;
          at_root = refl;
          region = r';
          alone = rw same;
          same_base = h.same_base;
          same_length = h.same_length;
          digits = λ q. elim (Bool-cases (q == k)) [
            | inl here ↦ ground (arith, off, h.takes.now_set)
            | inr there ↦ ground (arith, off, h.takes.others q (ground arith), digits q)
          ];
        },
      )
  next_fit (r' ∷ rs') (suc j) p valid (same, fit, full) = absurd fit

  next_lem :
      (a : Alloc)
      → AllocLem (record { chain = r ∷ []; last_free = 0 }) a
      → k < r.length / 32 * 32
      → Next r.base r.length k a
  next_lem (page s' p) (h, valid, first) more =
      let (e, filled) = next_fit s'.chain s'.last_free p valid (first refl) in (s', rw e, filled)
  next_lem Alloc.minus_one full more = absurd (ground (arith, full.0 k, digits k))
  next_lem Alloc.fault never more = absurd never

pub Filled-Next :
    (base length k : ℕ) (s : State)
    → Filled base length k s
    → k < length / 32 * 32
    → Next base length k (alloc_page s)
Filled-Next base length k s f more =
    let s0 : State = record { chain = f.region ∷ []; last_free = 0 } in
    let e : s ≡ s0 = λ i. record { chain = f.alone i; last_free = f.at_root i } in
    let lem =
      next_lem f.region k f.digits (alloc_page s0) (alloc_page_lem s0 (subst IsState e f.valid))
        (omega (arith, f.same_length)) in
    rw (e, ← f.same_base, ← f.same_length) lem

pub alloc_pages-Filled :
    (n base length k : ℕ) (s : State)
    → Filled base length k s
    → k + n ≤ length / 32 * 32
    → alloc_pages n s ≡ some (pages_from (base + k) n)
unfolding alloc_pages pages_from
alloc_pages-Filled zero base length k s f fits = refl
alloc_pages-Filled (suc n) base length k s f fits =
    let (s', run, f') = Filled-Next base length k s f (omega arith) in
    let rest = alloc_pages-Filled n base length (suc k) s' f' (omega arith) in
    let e : base + suc k ≡ base + k + 1 = omega arith in rw (run, alloc_pages) (rw rest (rw e))

get_or-zeros : (n i : ℕ) → get_or {A = ℕ} (replicate n 0) i 0 ≡ 0
get_or-zeros zero i = refl
get_or-zeros (suc n) zero = refl
get_or-zeros (suc n) (suc i) = get_or-zeros n i

pub zeros-AreBytes : (n : ℕ) → AreBytes (replicate n 0)
zeros-AreBytes zero = tt
zeros-AreBytes (suc n) = (omega arith, zeros-AreBytes n)

pub early_init-Filled :
    (size base length : ℕ)
    → length ≤ 8 * size
    → base + length < 2 ^ 32
    → Filled base length 0 (record {
      chain = record { base = base; length = length; bitmap = replicate size 0 } ∷ [];
      last_free = 0;
    })
early_init-Filled size base length fits bounded = record {
  valid = record {
    regions = (
      record {
        bytes = zeros-AreBytes size;
        room = omega (arith, length-replicate {A = ℕ} size 0);
        bounded = bounded;
      },
      tt,
    );
    points = omega arith;
  };
  at_root = refl;
  region = record { base = base; length = length; bitmap = replicate size 0 };
  alone = refl;
  same_base = refl;
  same_length = refl;
  digits = λ p. ground (arith, get_or-zeros size (p / 8), zero-test_bit (p % 8));
}

-- From the initial region, where it fits its bitmap of 2048 bytes and ends below 2^32, the pages are
-- handed out once each, in order from the base, and this goes on for all its whole words.
pub alloc_pages-early_init :
    (n base length : ℕ)
    → length ≤ 8 * memory_bitmap_size
    → base + length < 2 ^ 32
    → n ≤ length / 32 * 32
    → alloc_pages n (early_init base length) ≡ some (pages_from base n)
unfolding early_init
alloc_pages-early_init n base length fits bounded enough =
    let plain : (if ltb (memory_bitmap_size * 32) length then memory_bitmap_size * 32 else length)
        ≡ length =
      ground arith in
    let e : base + 0 ≡ base = omega arith in
    let f = early_init-Filled memory_bitmap_size base length fits bounded in
    rw plain (rw e at (alloc_pages-Filled n base length 0 _ f (omega arith)))
