-- ===== src/Memory/Boot.antt =====
-- What `_multiboot2_main` of kernel/arch/i386/kernel/boot/main.c does with the memory map: it sets up
-- the initial region and takes the pages of the kernel in it.
pub mod Reserved
pub mod Taken
use ikaros.Base.{
  ℕ, zero, suc, ◌+◌, ◌-◌, ◌*◌, ◌/◌, ◌%◌, ◌^◌, Bool, true, false, ◌&&◌, Option, none, some, List, [],
  ◌∷◌, ltb, leb, ◌==◌, if◌then◌else◌, length,
}
use ikaros.Memory.Map.{MapEntry, MemoryMap}
use ikaros.Memory.Region.{Region, State, memory_bitmap_size, overlap, setbit, early_init}

abbrev pub page_size : ℕ
page_size = 4096

-- `max_size = (MEMORY_BITMAP_SIZE << 3) << PAGE_SHIFT`
abbrev pub boot_max_size : ℕ
boot_max_size = memory_bitmap_size * 8 * page_size

-- An entry that is handed to `memory_region_early_init`, and the number of its pages.
unfoldable pub is_candidate : MapEntry → Bool
is_candidate e = leb 1048576 e.addr && e.type == 1

unfoldable pub pages_of : MapEntry → ℕ
pages_of e = (if ltb e.length boot_max_size then e.length else boot_max_size) / page_size

-- The loop over the available entries: each candidate starts the allocator anew.
unfoldable pub init_regions : List MapEntry → State → State
init_regions [] s = s
init_regions (e ∷ es) s =
    init_regions es (if is_candidate e then early_init (e.addr / page_size) (pages_of e) else s)

-- `for(;offset < tags_end; offset++) memory_region_setbit(region, offset, 1)`, by the rounds left.
unfoldable pub mark_pages : ℕ → ℕ → List Region → Option (List Region)
mark_pages zero offset chain = some chain
mark_pages (suc n) offset chain = elim (setbit chain offset true) [
  | none ↦ none
  | some chain1 ↦ mark_pages n (offset + 1) chain1
]

-- The pages from `min_size` to `max_size` in the first region of the chain.
unfoldable pub mark_overlap : ℕ → ℕ → Region → List Region → Option (List Region)
mark_overlap min_size max_size r rs =
    let offset = if ltb min_size r.base then r.base else min_size in
    let end = (r.base + r.length) % 2 ^ 32 in
    let tags_end = if ltb end max_size then end else max_size in
    if overlap r min_size max_size
    then mark_pages (tags_end - offset) offset (r ∷ rs)
    else some (r ∷ rs)

-- `while(region != NULL)`, by the regions left.
unfoldable pub mark_regions : ℕ → ℕ → ℕ → List Region → Option (List Region)
mark_regions zero min_size max_size chain = some chain
mark_regions (suc n) min_size max_size [] = some []
mark_regions (suc n) min_size max_size (r ∷ rs) = elim (mark_overlap min_size max_size r rs) [
  | none ↦ none
  | some [] ↦ some []
  | some (r1 ∷ rs1) ↦ elim (mark_regions n min_size max_size rs1) [
    | none ↦ none
    | some rs2 ↦ some (r1 ∷ rs2)
  ]
]

-- The loop over the regions, for a kernel from `kernel_start` to `kernel_end`, which are mapped at
-- 0xC0000000.
unfoldable pub mark_kernel : ℕ → ℕ → State → Option State
mark_kernel kernel_start kernel_end s =
    let min_size = (2 ^ 32 + kernel_start - 3221225472) % 2 ^ 32 / page_size in
    let max_size = (2 ^ 32 + kernel_end - 3221225472) % 2 ^ 32 / page_size in
    elim (mark_regions (length s.chain) min_size max_size s.chain) [
      | none ↦ none
      | some chain ↦ some (record s { chain = chain })
    ]

unfoldable pub boot_memory : List MapEntry → ℕ → ℕ → State → Option State
boot_memory available kernel_start kernel_end s0 =
    mark_kernel kernel_start kernel_end (init_regions available s0)
