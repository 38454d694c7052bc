-- ===== src/Memory/Region.antt =====
-- The page bitmap of kernel/include/kernel/memory/memory_region.h and the allocator of
-- kernel/kernel/memory/memory_region.c. The chain that `next` spells is a list, root first, and a
-- pointer into it is a position; a byte array is a list of bytes. An access outside of the bitmap
-- is a fault. The lock functions are empty in the source and have no effect here.
pub mod Words
pub mod FirstFit
pub mod Walk
pub mod Digits
pub mod Pages
pub mod Order
pub mod Supply
pub mod Release
pub mod Tests
use ikaros.Base.{
  ℕ, zero, suc, ◌+◌, ◌-◌, ◌*◌, ◌/◌, ◌%◌, ◌^◌, bit_and, bit_or, Bool, true, false, ◌||◌, Option,
  none, some, List, [], ◌∷◌, ◌++◌, ltb, leb, ◌==◌, if◌then◌else◌, length, get_or, set, take, drop,
  replicate,
}

abbrev pub memory_bitmap_size : ℕ
memory_bitmap_size = 2048

-- `~x` in `uint32_t`.
abbrev pub complement : ℕ → ℕ
complement x = 2 ^ 32 - 1 - x

-- `base` and `length` count pages.
pub record Region : Type 0 where
  pub base : ℕ
  pub length : ℕ
  pub bitmap : List ℕ

-- `region->base + region->length` in `uintptr_t`.
abbrev pub limit : Region → ℕ
limit r = (r.base + r.length) % 2 ^ 32

unfoldable pub overlap : Region → ℕ → ℕ → Bool
overlap r lo hi = if ltb hi r.base then false else if ltb (limit r) lo then false else true

-- The mask `1 << (page - (element << 3))`.
abbrev pub mask : ℕ → ℕ
mask offset = 2 ^ (offset - offset / 8 * 8)

-- `bitmap[element] |= index` and `bitmap[element] &= ~index`, `none` outside of the bitmap.
unfoldable pub write_bit : List ℕ → ℕ → Bool → Option (List ℕ)
write_bit bitmap offset value =
    let element = offset / 8 in
    let byte = get_or bitmap element 0 in
    if ltb element (length bitmap)
    then some (
        set bitmap element (
          if value
          then bit_or byte (mask offset) % 256
          else bit_and byte (complement (mask offset)) % 256))
    else none

with_bitmap : Region → List Region → Option (List ℕ) → Option (List Region)
with_bitmap r rs none = none
with_bitmap r rs (some bitmap) = some (record r { bitmap = bitmap } ∷ rs)

behind : Region → Option (List Region) → Option (List Region)
behind r none = none
behind r (some rs) = some (r ∷ rs)

unfoldable pub setbit : List Region → ℕ → Bool → Option (List Region)
unfolding with_bitmap behind
setbit [] page value = some []
setbit (r ∷ rs) page value =
    if leb (limit r) page
    then behind r (setbit rs page value)
    else if leb r.base page
    then with_bitmap r rs (write_bit r.bitmap (page - r.base) value)
    else some (r ∷ rs)

-- The result of `memory_region_getbit`: 0 or 1, or -1, or a read outside of the bitmap.
pub data Answer : Type 0 where
  bit : Bool → Answer
  minus_one : Answer
  outside : Answer

unfoldable pub read_bit : List ℕ → ℕ → Answer
read_bit bitmap offset =
    let element = offset / 8 in
    if ltb element (length bitmap)
    then (if bit_and (get_or bitmap element 0) (mask offset) == 0 then bit false else bit true)
    else outside

-- The guard is `page > region->base`, where `setbit` has `>=`.
unfoldable pub getbit : List Region → ℕ → Answer
getbit [] page = minus_one
getbit (r ∷ rs) page =
    if leb (limit r) page
    then getbit rs page
    else if ltb r.base page
    then read_bit r.bitmap (page - r.base)
    else minus_one

-- `while ((x & t) == 0) { t <<= 1; r++; }` of libc/include/strings.h, `none` when out of fuel.
unfoldable pub ffs_loop : ℕ → ℕ → ℕ → ℕ → Option ℕ
ffs_loop zero x t r = none
ffs_loop (suc fuel) x t r =
    let next = ffs_loop fuel x (t * 2 % 2 ^ 32) (r + 1) in if bit_and x t == 0 then next else some r

-- One round for each digit of an `int`.
unfoldable pub ffs : ℕ → Option ℕ
unfolding ffs_loop
ffs x = ffs_loop 32 x 1 1

-- Word `i` of the bitmap, little-endian, and the write of one.
unfoldable pub word : List ℕ → ℕ → ℕ
word bitmap i =
    get_or bitmap (4 * i) 0
    + 256
      * (get_or bitmap (4 * i + 1) 0
          + 256 * (get_or bitmap (4 * i + 2) 0 + 256 * get_or bitmap (4 * i + 3) 0))

unfoldable pub store_word : List ℕ → ℕ → ℕ → List ℕ
store_word bitmap i w =
    set
      (set (set (set bitmap (4 * i) (w % 256)) (4 * i + 1) (w / 256 % 256)) (4 * i + 2)
        (w / 256 / 256 % 256))
      (4 * i + 3) (w / 256 / 256 / 256 % 256)

-- The outcome of the loop over one bitmap: the new bitmap and the digit that was set.
pub data Scan : Type 0 where
  hit : List ℕ → ℕ → Scan
  miss : Scan
  wild : Scan

take_bit : List ℕ → ℕ → Option ℕ → Scan
take_bit bitmap i none = wild
take_bit bitmap i (some r) =
    hit (store_word bitmap i (bit_or (word bitmap i) (2 ^ (r - 1)))) (i * 32 + (r - 1))

-- `for (i = 0; i < n; i++)` of `memory_region_find_and_set`, by the rounds left.
unfoldable pub scan : ℕ → ℕ → List ℕ → Scan
unfolding take_bit
scan zero i bitmap = miss
scan (suc n) i bitmap =
    let rest = scan n (i + 1) bitmap in
    let x = complement (word bitmap i) in
    if ltb (4 * i + 3) (length bitmap)
    then (if x == 0 then rest else take_bit bitmap i (ffs x))
    else wild

-- The chain from `region` on: the new chain, the position of the region found, and the page.
pub data Found : Type 0 where
  found : List Region → ℕ → ℕ → Found
  null : Found
  fault : Found

skip : Region → Found → Found
skip r (found rs k page) = found (r ∷ rs) (suc k) page
skip r null = null
skip r fault = fault

found_in : Region → List Region → Scan → Found → Found
found_in r rs (hit bitmap offset) later =
    found (record r { bitmap = bitmap } ∷ rs) 0 ((r.base + offset) % 2 ^ 32)
found_in r rs miss later = skip r later
found_in r rs wild later = fault

-- `end` is the number of regions before the one at which the walk stops, `none` for `NULL`.
unfoldable pub find_and_set : List Region → Option ℕ → Found
unfolding found_in skip
find_and_set [] end = null
find_and_set (r ∷ rs) none = found_in r rs (scan (r.length / 32) 0 r.bitmap) (find_and_set rs none)
find_and_set (r ∷ rs) (some zero) = null
find_and_set (r ∷ rs) (some (suc k)) =
    found_in r rs (scan (r.length / 32) 0 r.bitmap) (find_and_set rs (some k))

-- `_root_memory_region` and the position of `_last_free_region`.
pub record State : Type 0 where
  pub chain : List Region
  pub last_free : ℕ

unfoldable pub early_init : ℕ → ℕ → State
early_init base length =
    let max_size = memory_bitmap_size * 32 in
    record {
      chain =
          record {
            base = base;
            length = if ltb max_size length then max_size else length;
            bitmap = replicate memory_bitmap_size 0;
          }
          ∷ [];
      last_free = 0;
    }

-- What `memory_region_alloc_page` returns: 0 with `*page`, or -1.
pub data Alloc : Type 0 where
  page : State → ℕ → Alloc
  minus_one : Alloc
  fault : Alloc

from_root : State → Found → Alloc
from_root s (found rs k p) = page (record { chain = rs; last_free = k }) p
from_root s null = Alloc.minus_one
from_root s fault = Alloc.fault

-- `found` in the part of the chain that begins at `_last_free_region`.
from_last : State → Found → Alloc
unfolding from_root
from_last s (found rs k p) =
    page (record { chain = take s.last_free s.chain ++ rs; last_free = s.last_free + k }) p
from_last s null =
    if s.last_free == 0
    then Alloc.minus_one
    else from_root s (find_and_set s.chain (some s.last_free))
from_last s fault = Alloc.fault

unfoldable pub alloc_page : State → Alloc
unfolding from_last
alloc_page s = from_last s (find_and_set (drop s.last_free s.chain) none)

unfoldable pub dealloc_page : State → ℕ → Option State
dealloc_page s p = elim (setbit s.chain p false) [
  | none ↦ none
  | some rs ↦ some (record s { chain = rs })
]
