-- ===== src/Memory/Region/Walk.antt =====
-- The walk of `memory_region_find_and_set` along the chain.
use ikaros.Base.{
  ℕ, zero, suc, ◌+◌, ◌-◌, ◌*◌, ◌/◌, ◌%◌, ◌^◌, ◌≤◌, ◌<◌, ◌≡◌, refl, Option, none, some, List, [],
  ◌∷◌, arith, length, All,
}
use ikaros.Memory.Region.{
  Region, Scan, hit, miss, wild, scan, Found, found, null, fault, find_and_set, skip, found_in,
}
use ikaros.Memory.Region.Words.{AreBytes}
use ikaros.Memory.Region.FirstFit.{Takes, Full, ScanLem, scan_lem}

-- A region whose pages all have a digit in the bitmap and a number in `uintptr_t`.
pub record IsRegion (r : Region) : Type 0 where
  pub bytes : AreBytes r.bitmap
  pub room : r.length ≤ 8 * length r.bitmap
  pub bounded : r.base + r.length < 2 ^ 32

-- The pages that the search of a region looks at: those in whole words.
abbrev pub searched : Region → ℕ
searched r = r.length / 32 * 32

abbrev pub IsFull : Region → Type 0
IsFull r = Full r.bitmap 0 (searched r)

-- `page` of region `r` was clear, and `r'` is `r` with it set; nothing else changed.
pub record Hit (r r' : Region) (page : ℕ) : Type 0 where
  pub same_base : r'.base ≡ r.base
  pub same_length : r'.length ≡ r.length
  pub from_base : r.base ≤ page
  pub below_limit : page < r.base + r.length
  pub takes : Takes r.bitmap r'.bitmap (page - r.base)

-- The chains agree but for region `k`, in which `page` was taken.
abbrev pub HitAt : List Region → List Region → ℕ → ℕ → Type 0
HitAt [] _ k page = ⊥
HitAt (r ∷ rs) [] k page = ⊥
HitAt (r ∷ rs) (r' ∷ rs') zero page = Hit r r' page × (rs' ≡ rs)
HitAt (r ∷ rs) (r' ∷ rs') (suc k) page = (r' ≡ r) × HitAt rs rs' k page

-- The first regions of a chain are full, up to an end or all of them.
abbrev pub AreFull : List Region → Option ℕ → Type 0
AreFull [] end = Unit
AreFull (r ∷ rs) none = IsFull r × AreFull rs none
AreFull (r ∷ rs) (some zero) = Unit
AreFull (r ∷ rs) (some (suc k)) = IsFull r × AreFull rs (some k)

-- First fit: the page is the lowest clear one of the first region that has one.
abbrev pub FirstFitAt : List Region → List Region → ℕ → ℕ → Type 0
FirstFitAt [] _ k page = ⊥
FirstFitAt (r ∷ rs) [] k page = ⊥
FirstFitAt (r ∷ rs) (r' ∷ rs') zero page =
    Hit r r' page × (rs' ≡ rs) × Full r.bitmap 0 (page - r.base)
FirstFitAt (r ∷ rs) (r' ∷ rs') (suc k) page = (r' ≡ r) × FirstFitAt rs rs' k page × IsFull r

abbrev pub FoundLem : List Region → Option ℕ → Found → Type 0
FoundLem chain end (found chain' k page) = FirstFitAt chain chain' k page
FoundLem chain end null = AreFull chain end
FoundLem chain end fault = ⊥

FoundLem-skip :
    (r : Region) (rs : List Region) (end end' : Option ℕ) (f : Found)
    → IsFull r
    → (AreFull rs end' → AreFull (r ∷ rs) end)
    → FoundLem rs end' f
    → FoundLem (r ∷ rs) end (skip r f)
unfolding skip
FoundLem-skip r rs end end' (found rs' k page) full step lem = (refl, lem, full)
FoundLem-skip r rs end end' null full step lem = step lem
FoundLem-skip r rs end end' fault full step lem = lem

found_in_lem :
    (r : Region) (rs : List Region) (end end' : Option ℕ) (s : Scan) (later : Found)
    → IsRegion r
    → (IsFull r → AreFull rs end' → AreFull (r ∷ rs) end)
    → ScanLem r.bitmap (r.length / 32) 0 s
    → FoundLem rs end' later
    → FoundLem (r ∷ rs) end (found_in r rs s later)
unfolding found_in
found_in_lem r rs end end' (hit bitmap off) later is step (takes, below, before) lem =
    let e : (r.base + off) % 2 ^ 32 ≡ r.base + off = omega (arith, is.bounded) in
    let e' : r.base + off - r.base ≡ off = omega arith in
    rw (e, e')
      (
        record {
          same_base = refl;
          same_length = refl;
          from_base = omega arith;
          below_limit = omega arith;
          takes = rw e' takes;
        },
        refl,
        before,
      )
found_in_lem r rs end end' miss later is step all lem =
    let full : IsFull r = λ p lo hi. all p lo (omega arith) in
    FoundLem-skip r rs end end' later full (step full) lem
found_in_lem r rs end end' wild later is step never lem = absurd never

module _ (r : Region) (is : IsRegion r) where
  region_scan : ScanLem r.bitmap (r.length / 32) 0 (scan (r.length / 32) 0 r.bitmap)
  region_scan = scan_lem (r.length / 32) 0 r.bitmap is.bytes (omega (arith, is.room))

-- Over a chain of well-formed regions, up to its end or a given region, the search takes the lowest
-- clear page of the first region that has one, or all pages of whole words are taken in the regions
-- searched. It never leaves a bitmap.
pub find_and_set_lem :
    (chain : List Region) (end : Option ℕ)
    → All IsRegion chain
    → FoundLem chain end (find_and_set chain end)
unfolding find_and_set
find_and_set_lem [] none is = tt
find_and_set_lem [] (some k) is = tt
find_and_set_lem (r ∷ rs) none (is, rest) =
    found_in_lem r rs none none (scan (r.length / 32) 0 r.bitmap) (find_and_set rs none) is
      (λ f g. (f, g)) (region_scan r is) (find_and_set_lem rs none rest)
find_and_set_lem (r ∷ rs) (some zero) is = tt
find_and_set_lem (r ∷ rs) (some (suc k)) (is, rest) =
    found_in_lem r rs (some (suc k)) (some k) (scan (r.length / 32) 0 r.bitmap)
      (find_and_set rs (some k)) is (λ f g. (f, g)) (region_scan r is)
      (find_and_set_lem rs (some k) rest)
