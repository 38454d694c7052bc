-- ===== src/Memory/Paging.antt =====
-- The page tables of kernel/arch/i386/include/kernel/memory/memory_manager.h. The directory maps
-- itself, so that the tables lie in one window at 0xFFC00000: word `k` of it is the entry of page
-- `k`, and its last 1024 words are the directory. A page outside of every table is not read here.
pub mod Mapped
use ikaros.Base.{
  ℕ, zero, suc, ◌+◌, ◌-◌, ◌*◌, ◌/◌, ◌%◌, ◌^◌, bit_or, Bool, true, false, not, Option, none, some,
  List, ◌==◌, if◌then◌else◌,
}
use ikaros.Memory.Region.{State, Alloc, page, alloc_page}

-- The word of the window that is entry `pdindex` of the directory, `pd[pdindex]`.
abbrev pub pd : ℕ → ℕ
pd pdindex = 1023 * 1024 + pdindex

-- `vaddr >> 22` and `vaddr >> 12 & 0x03FF`.
abbrev pub pdindex_of : ℕ → ℕ
pdindex_of vaddr = vaddr / 2 ^ 22

abbrev pub ptindex_of : ℕ → ℕ
ptindex_of vaddr = vaddr / 2 ^ 12 % 1024

-- The word that is `pt[ptindex]`.
abbrev pub pt : ℕ → ℕ
pt vaddr = 1024 * pdindex_of vaddr + ptindex_of vaddr

-- The window and the allocator that tables are taken from.
pub record Space : Type 0 where
  pub entries : ℕ → ℕ
  pub allocator : State

abbrev pub write_entry : ℕ → ℕ → (ℕ → ℕ) → ℕ → ℕ
write_entry k v entries = λ i. if i == k then v else entries i

-- `memset(pt, 0, 4096)`.
abbrev pub clear_table : ℕ → (ℕ → ℕ) → ℕ → ℕ
clear_table pdindex entries = λ i. if i / 1024 == pdindex then 0 else entries i

-- `(pt[ptindex] & ~0xFFF) + (vaddr & 0xFFF)` in `uintptr_t`.
unfoldable pub mm_get_physaddr : ℕ → Space → ℕ
mm_get_physaddr vaddr sp = (sp.entries (pt vaddr) / 4096 * 4096 + vaddr % 4096) % 2 ^ 32

-- What a call of `mm_map_page` comes to: the new space, with whether the message "Address already
-- mapped" is printed. Without a page for a table it goes on with a variable that was never written.
pub data Mapping : Type 0 where
  mapped : Space → Bool → Mapping
  uninitialised : Mapping
  fault : Mapping

-- The table of the address, made where the directory has none.
pub data Table : Type 0 where
  table : Space → Table
  uninitialised : Table
  fault : Table

unfoldable pub need_table : ℕ → Space → Table
need_table pdindex sp =
    if sp.entries (pd pdindex) == 0
    then elim (alloc_page sp.allocator) [
      | page s p ↦ table (record {
        entries =
            clear_table pdindex
              (write_entry (pd pdindex) (bit_or (p * 4096 % 2 ^ 32) 3) sp.entries);
        allocator = s;
      })
      | Alloc.minus_one ↦ Table.uninitialised
      | Alloc.fault ↦ Table.fault
    ]
    else table sp

unfoldable pub mm_map_page : ℕ → ℕ → ℕ → Space → Mapping
mm_map_page paddr vaddr flags sp = elim (need_table (pdindex_of vaddr) sp) [
  | table sp1 ↦
      mapped
        (record sp1 {
          entries = write_entry (pt vaddr) (bit_or (bit_or paddr (flags % 4096)) 1) sp1.entries;
        })
        (not (sp1.entries (pt vaddr) == 0))
  | Table.uninitialised ↦ Mapping.uninitialised
  | Table.fault ↦ Mapping.fault
]
