-- ===== src/Memory/Mmio.antt =====
-- kernel/arch/i386/kernel/memory/mmio.c: the window of the kernel space in which the registers of a
-- device are mapped. The lock and the state of the interrupts have no effect here.
pub mod Windows
use ikaros.Base.{
  ℕ, zero, suc, ◌+◌, ◌-◌, ◌*◌, ◌/◌, ◌%◌, ◌^◌, Bool, true, false, ltb, ◌==◌, if◌then◌else◌,
}
use ikaros.Memory.Region.{State}
use ikaros.Memory.Paging.{Space, Mapping, mapped, mm_map_page}

-- `0xC0000000 + 0x20000000` and `0xFFC00000 - (4096 * 1024)`.
abbrev pub kernel_mmio_start : ℕ
kernel_mmio_start = 3221225472 + 536870912

abbrev pub kernel_mmio_limit : ℕ
kernel_mmio_limit = 4290772992 - 4096 * 1024

-- `kernel_mmio_ptr` and the page tables.
pub record Window : Type 0 where
  pub ptr : ℕ
  pub space : Space

unfoldable pub mmio_init : Space → Window
mmio_init sp = record { ptr = kernel_mmio_start; space = sp }

-- The loop over the pages, `n` to go from `i` on.
unfoldable pub map_pages : ℕ → ℕ → ℕ → ℕ → Space → Mapping
map_pages zero i address virt_addr sp = mapped sp false
map_pages (suc n) i address virt_addr sp =
    elim (mm_map_page ((address + i * 4096) % 2 ^ 32) ((virt_addr + i * 4096) % 2 ^ 32) 3 sp) [
      | mapped sp1 warned ↦ map_pages n (i + 1) address virt_addr sp1
      | Mapping.uninitialised ↦ Mapping.uninitialised
      | Mapping.fault ↦ Mapping.fault
    ]

-- `NULL`, or the state and the address; `mm_map_page` may fail on the way.
pub data Mmio : Type 0 where
  at : Window → ℕ → Mmio
  null : Mmio
  uninitialised : Mmio
  fault : Mmio

-- `size` with the offset in its page, and up to whole pages.
unfoldable pub whole_size : ℕ → ℕ → ℕ
whole_size phys_addr size =
    let size1 = (size + phys_addr % 4096) % 2 ^ 32 in
    if size1 % 4096 == 0 then size1 else (size1 + (4096 - size1 % 4096)) % 2 ^ 32

unfoldable pub mmio_map : ℕ → ℕ → Window → Mmio
mmio_map phys_addr size w =
    let offset = phys_addr % 4096 in
    let size2 = whole_size phys_addr size in
    if ltb kernel_mmio_limit ((w.ptr + size2) % 2 ^ 32)
    then null
    else elim (map_pages (size2 / 4096) 0 (phys_addr - offset) w.ptr w.space) [
      | mapped sp warned ↦
          at (record { ptr = (w.ptr + size2) % 2 ^ 32; space = sp }) ((w.ptr + offset) % 2 ^ 32)
      | Mapping.uninitialised ↦ Mmio.uninitialised
      | Mapping.fault ↦ Mmio.fault
    ]
