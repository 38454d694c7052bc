-- ===== src/Memory/Tests.antt =====
-- The memory map, the boot code, the page tables and the windows of devices at small states.
use ikaros.Base.{ℕ, ◌+◌, ◌*◌, ◌≡◌, refl, true, false, some, List, [], ◌∷◌, ◌++◌, arith, replicate}
use ikaros.Memory.Region.{State, memory_bitmap_size}
use ikaros.Memory.Region.Pages.{IsState}
use ikaros.Memory.Region.Order.{Filled, alloc_pages, pages_from, early_init-Filled}
use ikaros.Memory.Map.{MapEntry, memory_map_initialize, add_regions}
use ikaros.Memory.Map.Filled.{map_of, add_regions-take}
use ikaros.Memory.Boot.{is_candidate, pages_of, boot_memory}
use ikaros.Memory.Boot.Reserved.{AllOutside}
use ikaros.Memory.Boot.Taken.{kernel_page, boot_memory-Outside, boot_memory-pages_from}
use ikaros.Memory.Paging.{Space, mm_map_page}
use ikaros.Memory.Paging.Mapped.{MappingLem, mm_map_page_lem}
use ikaros.Memory.Mmio.{Window, mmio_map, kernel_mmio_start}
use ikaros.Memory.Mmio.Windows.{IsWindow, MmioLem, mmio_map_lem}

-- 64 pages from 1 MB on, with a kernel in the first 4 of them, of which the last is not full.
abbrev ram : MapEntry
ram = record { addr = 1048576; length = 262144; type = 1 }

abbrev hole : MapEntry
hole = record { addr = 2097152; length = 4096; type = 2 }

abbrev kernel_start : ℕ
kernel_start = 3222274048

abbrev kernel_end : ℕ
kernel_end = 3222274048 + 12388

abbrev empty : State
empty = record { chain = []; last_free = 0 }

ram_is : is_candidate ram ≡ true
unfolding is_candidate
ram_is = refl

hole_not : is_candidate hole ≡ false
unfolding is_candidate
hole_not = refl

add_regions-take_example :
    add_regions (ram ∷ hole ∷ []) memory_map_initialize ≡ map_of (ram ∷ hole ∷ [])
add_regions-take_example = add_regions-take (ram ∷ hole ∷ [])

boot_memory-Outside_example :
    (s : State) × (boot_memory ([] ++ ram ∷ hole ∷ []) kernel_start kernel_end empty ≡ some s)
    × IsState s
    × ((n : ℕ) (ps : List ℕ)
        → alloc_pages n s ≡ some ps
        → AllOutside (kernel_page kernel_start) (kernel_page kernel_end) ps)
boot_memory-Outside_example =
    boot_memory-Outside [] (hole ∷ []) ram kernel_start kernel_end empty ram_is (hole_not, tt)
      (omega arith)

ram_pages : pages_of ram ≡ 64
unfolding pages_of
ram_pages = refl

-- The kernel ends inside of page 259, which is given out.
boot_memory-pages_from_example :
    (s : State) × (boot_memory ([] ++ ram ∷ hole ∷ []) kernel_start kernel_end empty ≡ some s)
    × (alloc_pages 2 s ≡ some (pages_from (kernel_page kernel_end) 2))
boot_memory-pages_from_example =
    boot_memory-pages_from [] (hole ∷ []) ram kernel_start kernel_end empty ram_is (hole_not, tt)
      (omega arith) refl (omega arith) 2 (omega (arith, ram_pages))

pages : State
pages = record {
  chain = record { base = 256; length = 64; bitmap = replicate memory_bitmap_size 0 } ∷ [];
  last_free = 0;
}

pages-IsState : IsState pages
unfolding pages
pages-IsState =
    Filled.valid (early_init-Filled memory_bitmap_size 256 64 (omega arith) (omega arith))

abbrev space : Space
space = record { entries = λ k. 0; allocator = pages }

mm_map_page_lem_example : MappingLem 5 3489660928 space (mm_map_page (5 * 4096) 3489660928 3 space)
mm_map_page_lem_example =
    mm_map_page_lem 5 3489660928 3 space (omega arith) (omega arith) pages-IsState

abbrev window : Window
window = record { ptr = kernel_mmio_start; space = space }

window-IsWindow : IsWindow window
window-IsWindow = record {
  valid = pages-IsState;
  from_start = omega arith;
  below_limit = omega arith;
  on_page = omega arith;
}

mmio_map_lem_example : MmioLem window 4273999888 100 (mmio_map 4273999888 100 window)
mmio_map_lem_example =
    mmio_map_lem window 4273999888 100 window-IsWindow (omega arith) (omega arith)
