-- ===== src/Acpi.antt =====
-- The search of the root pointer in kernel/arch/i386/kernel/acpi/acpi_x86.c, and its checksum in
-- kernel/kernel/acpi/acpi.c. Memory is a function from addresses to bytes.
pub mod Search
pub mod Tests
use ikaros.Base.{
  ℕ, zero, suc, ◌+◌, ◌*◌, ◌/◌, ◌%◌, ◌^◌, Bool, true, false, Option, none, some, List, [], ◌∷◌, ltb,
  ◌==◌, if◌then◌else◌,
}
use ikaros.Libc.Strings.{is_same}
use ikaros.Libc.Memory.{Bytes, Sign, minus, same, plus, memcmp}

abbrev pub acpi_virtual_base : ℕ
acpi_virtual_base = 3221225472

-- `offset` and `range` of `acpi_early_init`.
abbrev pub first_offset : ℕ
first_offset = 917504

abbrev pub last_offset : ℕ
last_offset = 1048575

-- What the loop comes to: the address of the table, or `NULL`, or no end on this fuel. `text` is the
-- address of "RSD PTR ".
pub data RootPointer : Type 0 where
  rsdp : ℕ → RootPointer
  null : RootPointer
  endless : RootPointer

unfoldable pub search_loop : ℕ → ℕ → ℕ → Bytes → RootPointer
search_loop zero offset text mem = RootPointer.endless
search_loop (suc fuel) offset text mem =
    let rest = search_loop fuel (offset + 16) text mem in
    if ltb offset last_offset
    then (if is_same (memcmp (offset + acpi_virtual_base) text 8 mem)
        then rsdp (offset + acpi_virtual_base)
        else rest)
    else null

unfoldable pub acpi_early_init : ℕ → ℕ → Bytes → RootPointer
acpi_early_init fuel text mem = search_loop fuel first_offset text mem

-- `for(i = 0; i < ACPI_1_RSDP_LEN; i++) checksum += ((uint8_t*)rsdp)[i];`, by the rounds left.
unfoldable pub checksum_loop : ℕ → ℕ → ℕ → Bytes → ℕ → ℕ
checksum_loop zero i table mem checksum = checksum
checksum_loop (suc n) i table mem checksum =
    checksum_loop n (i + 1) table mem ((checksum + mem (table + i)) % 256)

-- Whether `acpi1_init` accepts the table without a message.
unfoldable pub acpi1_init : ℕ → Bytes → Bool
acpi1_init table mem = checksum_loop 20 0 table mem 0 == 0
