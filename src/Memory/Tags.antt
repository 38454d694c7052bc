-- ===== src/Memory/Tags.antt =====
-- The boot information in `_multiboot2_main` of kernel/arch/i386/kernel/boot/main.c: the walk over the
-- tags of the boot loader, and the reading of the memory map. A tag is named by its address, and 0 is
-- `NULL`; the structs are those of kernel/include/kernel/boot/multiboot2.h.
pub mod Walk
pub mod Entries
pub mod Tests
use ikaros.Base.{
  ℕ, zero, suc, ◌+◌, ◌-◌, ◌*◌, ◌/◌, ◌%◌, ◌^◌, Option, none, some, List, [], ◌∷◌, ltb, ◌==◌,
  if◌then◌else◌,
}
use ikaros.Libc.Memory.{Bytes}
use ikaros.Memory.Map.{MapEntry, MemoryMap, memory_map_initialize, add_regions}
use ikaros.Memory.Region.{State}
use ikaros.Memory.Boot.{boot_memory}

-- Numbers in memory, the low byte first.
abbrev pub uint16_at : Bytes → ℕ → ℕ
uint16_at mem a = mem a + 256 * mem (a + 1)

abbrev pub uint32_at : Bytes → ℕ → ℕ
uint32_at mem a = uint16_at mem a + 65536 * uint16_at mem (a + 2)

-- The tags that the walk keeps.
pub record Tags : Type 0 where
  pub cmdline_tag : ℕ
  pub mem_tag : ℕ
  pub mmap_tag : ℕ
  pub elf_sections : ℕ
  pub framebuffer : ℕ

unfoldable pub no_tags : Tags
no_tags = record { cmdline_tag = 0; mem_tag = 0; mmap_tag = 0; elf_sections = 0; framebuffer = 0 }

-- The `switch` on the type.
unfoldable pub note_tag : ℕ → ℕ → Tags → Tags
note_tag type tag found =
    if type == 1
    then record found { cmdline_tag = tag }
    else if type == 4
    then record found { mem_tag = tag }
    else if type == 6
    then record found { mmap_tag = tag }
    else if type == 9
    then record found { elf_sections = tag }
    else if type == 8
    then record found { framebuffer = tag }
    else found

-- `offset` behind a tag, at the next multiple of 8.
unfoldable pub next_tag : ℕ → ℕ → ℕ
next_tag tag size =
    let offset = (tag + size) % 2 ^ 32 in
    if offset % 8 == 0 then offset else (offset + (8 - offset % 8)) % 2 ^ 32

-- `while((offset = (uintptr_t)tag) < tags_end)`; `none` is a walk that has not ended.
unfoldable pub walk_tags : ℕ → ℕ → ℕ → Bytes → Tags → Option Tags
walk_tags zero tag tags_end mem found = none
walk_tags (suc fuel) tag tags_end mem found =
    let rest =
      walk_tags fuel (next_tag tag (uint32_at mem (tag + 4))) tags_end mem
        (note_tag (uint16_at mem tag) tag found) in
    if ltb tag tags_end then rest else some found

-- Address and length are cut to the 32 bits of an `uintptr_t`.
unfoldable pub entry_at : Bytes → ℕ → MapEntry
entry_at mem a = record {
  addr = uint32_at mem a;
  length = uint32_at mem (a + 8);
  type = uint32_at mem (a + 16);
}

-- `n` entries from `a` on.
unfoldable pub entries_from : ℕ → ℕ → ℕ → Bytes → List MapEntry
entries_from zero a entry_size mem = []
entries_from (suc n) a entry_size mem =
    entry_at mem a ∷ entries_from n (a + entry_size) entry_size mem

unfoldable pub round_up : ℕ → ℕ
round_up size = if size % 8 == 0 then size else size + (8 - size % 8)

-- The entries of the map, `none` where their size is 0 and the division faults.
unfoldable pub map_entries : ℕ → Bytes → Option (List MapEntry)
map_entries mmap_tag mem =
    let entry_size = round_up (uint32_at mem (mmap_tag + 8)) % 2 ^ 32 in
    let num_entries = (uint32_at mem (mmap_tag + 4) + 2 ^ 32 - 16) % 2 ^ 32 / entry_size in
    if entry_size == 0 then none else some (entries_from num_entries (mmap_tag + 16) entry_size mem)

-- How the part of `_multiboot2_main` before the calls of the initialisation ends: with the memory set
-- up, by a return, by a fault, or not at all.
pub data Main : Type 0 where
  booted : State → Main
  returned : Main
  fault : Main
  endless : Main

abbrev pub booted_or : Option State → Main
booted_or none = fault
booted_or (some s) = booted s

abbrev pub main_entries : Option (List MapEntry) → ℕ → ℕ → State → Main
main_entries none kernel_start kernel_end s0 = fault
main_entries (some es) kernel_start kernel_end s0 =
    booted_or
      (boot_memory (add_regions es memory_map_initialize).available kernel_start kernel_end s0)

abbrev pub main_tags : Option Tags → Bytes → ℕ → ℕ → State → Main
main_tags none mem kernel_start kernel_end s0 = endless
main_tags (some found) mem kernel_start kernel_end s0 =
    if found.mem_tag == 0
    then returned
    else if found.mmap_tag == 0
    then returned
    else main_entries (map_entries found.mmap_tag mem) kernel_start kernel_end s0

unfoldable pub multiboot2_main : ℕ → ℕ → Bytes → ℕ → ℕ → State → Main
multiboot2_main fuel info mem kernel_start kernel_end s0 =
    main_tags (walk_tags fuel (info + 8) ((info + uint32_at mem info) % 2 ^ 32) mem no_tags) mem
      kernel_start kernel_end s0
