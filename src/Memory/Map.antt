-- ===== src/Memory/Map.antt =====
-- kernel/kernel/memory/memory_map.c: the map of the memory that the boot loader reports. The two
-- arrays of 32 entries are lists, filled from the front; an address is an `uintptr_t`.
pub mod Filled
use ikaros.Base.{ℕ, ◌+◌, Bool, List, [], ◌∷◌, ◌++◌, ◌==◌, if◌then◌else◌, length}

pub record MapEntry : Type 0 where
  pub addr : ℕ
  pub length : ℕ
  pub type : ℕ

abbrev pub memory_map_type_available : ℕ
memory_map_type_available = 1

abbrev pub max_memory_map_size : ℕ
max_memory_map_size = 32

pub record MemoryMap : Type 0 where
  pub entries : List MapEntry
  pub available : List MapEntry

unfoldable pub memory_map_initialize : MemoryMap
memory_map_initialize = record { entries = []; available = [] }

unfoldable pub memory_map_add_region : MapEntry → MemoryMap → MemoryMap
memory_map_add_region e m = if length m.entries == max_memory_map_size then m else record {
  entries = m.entries ++ e ∷ [];
  available = if e.type == memory_map_type_available then m.available ++ e ∷ [] else m.available;
}

-- The calls that the boot code makes, one for each entry of the map.
unfoldable pub add_regions : List MapEntry → MemoryMap → MemoryMap
unfolding memory_map_add_region
add_regions [] m = m
add_regions (e ∷ es) m = add_regions es (memory_map_add_region e m)
