-- ===== src/Memory/Tags/Tests.antt =====
-- Boot information with a tag of the memory, a memory map of one entry, and the end tag.
use ikaros.Base.{ℕ, zero, suc, ◌-◌, ◌<◌, ◌≡◌, refl, List, [], ◌∷◌, arith, All, get_or}
use ikaros.Libc.Memory.{Bytes}
use ikaros.Memory.Region.{State}
use ikaros.Memory.Map.Filled.{available_of}
use ikaros.Memory.Boot.{boot_memory}
use ikaros.Memory.Tags.{booted_or, multiboot2_main}
use ikaros.Memory.Tags.Walk.{TagHeader}
use ikaros.Memory.Tags.Entries.{IsBytes, WideEntry, narrow, LaidMap, multiboot2_main_lem}

-- The total size; the tags; 256 KB of memory at 1 MB.
abbrev info_bytes : List ℕ
info_bytes =
    72 ∷ 0 ∷ 0 ∷ 0 ∷ 0 ∷ 0 ∷ 0 ∷ 0 ∷ 4 ∷ 0 ∷ 0 ∷ 0 ∷ 16 ∷ 0 ∷ 0 ∷ 0 ∷ 0 ∷ 0 ∷ 0 ∷ 0 ∷ 0 ∷ 0 ∷ 0 ∷ 0
    ∷ 6 ∷ 0 ∷ 0 ∷ 0 ∷ 40 ∷ 0 ∷ 0 ∷ 0 ∷ 24 ∷ 0 ∷ 0 ∷ 0 ∷ 0 ∷ 0 ∷ 0 ∷ 0 ∷ 0 ∷ 0 ∷ 16 ∷ 0 ∷ 0 ∷ 0 ∷ 0
    ∷ 0 ∷ 0 ∷ 0 ∷ 4 ∷ 0 ∷ 0 ∷ 0 ∷ 0 ∷ 0 ∷ 1 ∷ 0 ∷ 0 ∷ 0 ∷ 0 ∷ 0 ∷ 0 ∷ 0 ∷ 0 ∷ 0 ∷ 0 ∷ 0 ∷ 8 ∷ 0 ∷ 0
    ∷ 0 ∷ []

abbrev info : Bytes
info a = get_or info_bytes (a - 64) 0

get_or-lt : (l : List ℕ) (k : ℕ) → All (λ x. x < 256) l → get_or l k 0 < 256
get_or-lt [] k h = omega arith
get_or-lt (x ∷ l) zero h = h.0
get_or-lt (x ∷ l) (suc k) h = get_or-lt l k h.1

info-IsBytes : IsBytes info
info-IsBytes a = get_or-lt info_bytes (a - 64) (omega arith)

abbrev tags : List TagHeader
tags =
    record { type = 4; size = 16 }
    ∷ record { type = 6; size = 40 }
    ∷ record { type = 0; size = 8 }
    ∷ []

abbrev ram : WideEntry
ram = record { addr = 1048576; len = 262144; type = 1 }

info-LaidMap : LaidMap info 88 (ram ∷ [])
info-LaidMap = record {
  entry_size = 24;
  positive = omega arith;
  aligned = refl;
  bounded = omega arith;
  narrow_size = omega arith;
  at_entry_size = refl;
  at_size = refl;
  laid = (refl, refl, refl, tt);
}

abbrev empty : State
empty = record { chain = []; last_free = 0 }

multiboot2_main_lem_example :
    multiboot2_main 4 64 info 3222274048 3222286436 empty
    ≡ booted_or (boot_memory (available_of (narrow ram ∷ [])) 3222274048 3222286436 empty)
multiboot2_main_lem_example =
    multiboot2_main_lem info 64 tags (ram ∷ []) 4 3222274048 3222286436 empty info-IsBytes refl
      (omega arith) (omega arith) (λ there. info-LaidMap)
