-- ===== src/Memory/Directory.antt =====
-- kernel/arch/i386/kernel/memory/paging.c: the first page directory of the kernel's own, built through
-- the page tables of the boot code. The memory is its 32-bit words by physical address / 4, and every
-- access goes through the tables, as in the processor with its buffer flushed. The symbols of the
-- linker are arguments.
pub mod Stores
pub mod Space
pub mod Built
pub mod Kernel
pub mod Tests
use ikaros.Base.{
  ℕ, zero, suc, ◌+◌, ◌-◌, ◌*◌, ◌/◌, ◌%◌, ◌^◌, bit_or, Option, none, some, ltb, ◌==◌, if◌then◌else◌,
}
use ikaros.Memory.Region.{State, Alloc, page, alloc_page}

-- `cr3` is the page of the directory in use.
pub record Machine : Type 0 where
  pub words : ℕ → ℕ
  pub cr3 : ℕ
  pub allocator : State

-- A call returns, stops in `PANIC`, or faults on an address that is not mapped.
pub data Outcome : Type 0 where
  done : Machine → Outcome
  panic : Outcome
  fault : Outcome

infixl 5 ◌>>=◌
abbrev pub ◌>>=◌ : Outcome → (Machine → Outcome) → Outcome
done m >>= f = f m
panic >>= f = panic
fault >>= f = fault

-- The processor's walk over the two tables: the page of an address, where both entries are present.
-- The bit for writing does not count in the kernel.
unfoldable pub frame_of : (ℕ → ℕ) → ℕ → ℕ → Option ℕ
frame_of words cr3 vaddr =
    let pde = words (cr3 * 1024 + vaddr / 2 ^ 22) in
    let pte = words (pde / 4096 * 1024 + vaddr / 2 ^ 12 % 1024) in
    if pde % 2 == 0 then none else if pte % 2 == 0 then none else some (pte / 4096)

abbrev pub write_word : ℕ → ℕ → (ℕ → ℕ) → ℕ → ℕ
write_word k x words = λ i. if i == k then x else words i

abbrev pub store_at : Option ℕ → ℕ → ℕ → Machine → Outcome
store_at none vaddr x m = fault
store_at (some f) vaddr x m =
    done (record m { words = write_word (f * 1024 + vaddr % 4096 / 4) x m.words })

-- `*((volatile uintptr_t*)vaddr) = x`, at a multiple of 4.
unfoldable pub store : ℕ → ℕ → Machine → Outcome
store vaddr x m = store_at (frame_of m.words m.cr3 vaddr) vaddr x m

unfoldable pub load : ℕ → Machine → Option ℕ
load vaddr m = elim (frame_of m.words m.cr3 vaddr) [
  | none ↦ none
  | some f ↦ some (m.words (f * 1024 + vaddr % 4096 / 4))
]

-- A loop that stores `value i` at `vaddr + 4 * i`, by the rounds left.
unfoldable pub store_each : ℕ → ℕ → ℕ → (ℕ → ℕ) → Machine → Outcome
store_each zero i vaddr value m = done m
store_each (suc n) i vaddr value m =
    store (vaddr + i * 4) (value i) m >>= λ m1. store_each n (i + 1) vaddr value m1

-- `memset(vaddr, 0, 4096)`, by words.
unfoldable pub clear_page : ℕ → Machine → Outcome
clear_page vaddr m = store_each 1024 0 vaddr (λ i. 0) m

-- `(page << PAGE_SHIFT) | flags`
abbrev pub entry : ℕ → ℕ → ℕ
entry p flags = bit_or (p * 4096 % 2 ^ 32) flags

-- `memory_region_alloc_page(&page) != 0` panics.
unfoldable pub with_page : Machine → (ℕ → Machine → Outcome) → Outcome
with_page m f = elim (alloc_page m.allocator) [
  | page s p ↦ f p (record m { allocator = s })
  | Alloc.minus_one ↦ panic
  | Alloc.fault ↦ Outcome.fault
]

-- 0xFFFFF000 + start * 4 and 0xFFC00000 + start * 4096
abbrev pub directory_word : ℕ → ℕ
directory_word start = 4294963200 + start * 4

abbrev pub table_page : ℕ → ℕ
table_page start = 4290772992 + start * 4096

-- One round of `paging_init_kernel_space`: a missing table is made.
unfoldable pub need_table : ℕ → Machine → Outcome
need_table start m = elim (load (directory_word start) m) [
  | none ↦ fault
  | some e ↦
      if e % 2 == 0
      then with_page m (λ p m1.
        store (directory_word start) (entry p 3) m1 >>= λ m2. clear_page (table_page start) m2)
      else done m
]

unfoldable pub need_tables : ℕ → ℕ → Machine → Outcome
need_tables zero start m = done m
need_tables (suc n) start m = need_table start m >>= λ m1. need_tables n (start + 1) m1

unfoldable pub paging_init_kernel_space : Machine → Outcome
paging_init_kernel_space m = need_tables (1024 - 768) 768 m

-- `(address - 0xC0000000) >> PAGE_SHIFT`
abbrev pub kernel_page : ℕ → ℕ
kernel_page address = (address + 2 ^ 32 - 3221225472) % 2 ^ 32 / 4096

-- An entry of the table for 0xC0000000: the low memory and the kernel.
unfoldable pub kernel_entry : ℕ → ℕ → ℕ → ℕ
kernel_entry page_kernel_start page_kernel_end i =
    if ltb i page_kernel_start then entry i 3 else if ltb i page_kernel_end then entry i 3 else 0

-- The stores through the tables of the boot code, up to the flush: the two new pages appear at
-- 0xFFFFF000 and 0xFFFFE000.
unfoldable pub map_new_pages : ℕ → ℕ → ℕ → ℕ → Machine → Outcome
map_new_pages pagedir pagetb1 pagedir_page pagetbx_page m =
    store (pagetb1 + 4 * 1023) (entry pagedir_page 3) m >>= λ m1.
    store (pagetb1 + 4 * 1022) (entry pagetbx_page 3) m1 >>= λ m2.
    store (pagedir + 4 * 1023) (entry (kernel_page pagetb1) 3) m2

-- The contents of both pages, up to the loading of cr3.
unfoldable pub fill_new_pages : ℕ → ℕ → ℕ → ℕ → ℕ → Machine → Outcome
fill_new_pages pagedir page_kernel_start page_kernel_end pagedir_page pagetbx_page m =
    clear_page 4294959104 m >>= λ m1. clear_page 4294963200 m1 >>= λ m2.
    store (directory_word 1023) (entry pagedir_page 3) m2 >>= λ m3.
    store (directory_word 768) (entry pagetbx_page 3) m3 >>= λ m4.
    store_each 1024 0 4294959104 (kernel_entry page_kernel_start page_kernel_end) m4 >>= λ m5.
    store (4294959104 + kernel_page pagedir * 4) (entry (kernel_page pagedir) 1) m5

unfoldable pub paging_earlyinit : ℕ → ℕ → ℕ → ℕ → Machine → Outcome
paging_earlyinit pagedir pagetb1 kernel_start kernel_end m =
    let page_kernel_start = kernel_page kernel_start in
    let page_kernel_end = kernel_page kernel_end + 1 in
    with_page m λ pagedir_page m1. with_page m1 λ pagetbx_page m2.
      map_new_pages pagedir pagetb1 pagedir_page pagetbx_page m2 >>= λ m3.
      fill_new_pages pagedir page_kernel_start page_kernel_end pagedir_page pagetbx_page m3
      >>= λ m4. paging_init_kernel_space (record m4 { cr3 = pagedir_page })
