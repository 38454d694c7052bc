-- ===== src/Acpi/Tests.antt =====
-- A memory without the signature, and one with it at the second address.
use ikaros.Base.{◌+◌, ◌≡◌, ◌-◌, refl, true, ltb, ◌==◌, if◌then◌else◌}
use ikaros.Libc.Memory.{Bytes}
use ikaros.Acpi.{first_offset, acpi_early_init, acpi1_init, checksum_loop}
use ikaros.Acpi.Search.{SearchLem, acpi_early_init-first}

-- The text stands at address 0, and again at 0xC00E0010.
abbrev memory : Bytes
memory a =
    if ltb a 8
    then 82 + a
    else if ltb a 3222142992
    then 0
    else if ltb a 3222143000
    then 82 + (a - 3222142992)
    else 0

acpi_early_init-first_example : SearchLem memory 0 first_offset (acpi_early_init 8193 0 memory)
acpi_early_init-first_example = acpi_early_init-first 0 memory

accepted : acpi1_init 100 (λ a. if a == 100 then 250 else if a == 119 then 6 else 0) ≡ true
unfolding acpi1_init checksum_loop
accepted = refl
