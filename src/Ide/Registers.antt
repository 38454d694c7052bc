-- ===== src/Ide/Registers.antt =====
-- Where an access to a register goes, with the control register before and behind it.
use ikaros.Base.{
  ℕ, suc, ◌+◌, ◌-◌, ◌%◌, ◌^◌, ◌≤◌, ◌<◌, ◌≡◌, inl, inr, refl, bit_or, true, false, ◌&&◌, some, List,
  [], ◌∷◌, ◌++◌, arith, ltb, if◌then◌else◌, Bool-cases,
}
use ikaros.Ide.{
  Channel, Event, outb, inb, port_of, pci_ide_write, with_control, pci_ide_read,
  pci_ide_read_buffer, pci_buffer_read, channels_of, buffer_port,
}

-- The registers by their block of ports: the command block, its high order bytes behind bit 7 of the
-- control register, the control block, and the bus master.
pub data Block : Type 0 where
  command : ℕ → Block
  high : ℕ → Block
  control : ℕ → Block
  bus_master : ℕ → Block

unfoldable pub register_of : Block → ℕ
register_of (command n) = n
register_of (high n) = 6 + n
register_of (control n) = 10 + n
register_of (bus_master n) = 14 + n

-- The registers that there are: 0 to 7, 2 to 5, 2 and 3, and 0 to 7.
abbrev pub IsRegister : Block → Type 0
IsRegister (command n) = n < 8
IsRegister (high n) = (2 ≤ n) × (n < 6)
IsRegister (control n) = (2 ≤ n) × (n < 4)
IsRegister (bus_master n) = n < 8

-- The accesses: one at the port, and round that of a high order byte bit 7 of the control register is
-- set and cleared.
unfoldable pub accesses : Channel → Block → (ℕ → List Event) → List Event
accesses c (command n) at = at ((c.base + n) % 2 ^ 16)
accesses c (high n) at =
    outb ((c.ctrl + 2) % 2 ^ 16) (bit_or 128 c.nien) ∷ at ((c.base + n) % 2 ^ 16)
    ++ outb ((c.ctrl + 2) % 2 ^ 16) c.nien ∷ []
accesses c (control n) at = at ((c.ctrl + n) % 2 ^ 16)
accesses c (bus_master n) at = at ((c.bm_ide + n) % 2 ^ 16)

-- `pci_ide_write` and `pci_ide_read` of each register end, two calls deep, and make just these
-- accesses.
pub pci_ide_write-accesses :
    (c : Channel) (b : Block) (value : ℕ)
    → IsRegister b
    → (pci_ide_write 2 c (register_of b) value ≡ some (accesses c b (λ port. outb port value ∷ [])))
      × (pci_ide_read 1 c (register_of b) ≡ some (accesses c b (λ port. inb port ∷ [])))
unfolding pci_ide_write pci_ide_read with_control port_of accesses register_of
pci_ide_write-accesses c (command n) value low =
    let plain : (ltb 7 n && ltb n 12) ≡ false = ground arith in
    let first : ltb n 8 ≡ true = ground arith in (rw (plain, first) refl, rw (plain, first) refl)
pci_ide_write-accesses c (high n) value (low, up) =
    let round : (ltb 7 (6 + n) && ltb (6 + n) 12) ≡ true = ground arith in
    let not_first : ltb (6 + n) 8 ≡ false = ground arith in
    let second : ltb (6 + n) 12 ≡ true = ground arith in
    let off : 6 + n - 6 ≡ n = omega arith in
    (rw (round, not_first, second, off) refl, rw (round, not_first, second, off) refl)
pci_ide_write-accesses c (control n) value (low, up) =
    let plain : (ltb 7 (10 + n) && ltb (10 + n) 12) ≡ false = ground arith in
    let not_first : ltb (10 + n) 8 ≡ false = ground arith in
    let not_second : ltb (10 + n) 12 ≡ false = ground arith in
    let third : ltb (10 + n) 14 ≡ true = ground arith in
    let off : 10 + n - 10 ≡ n = omega arith in
    (
      rw (plain, not_first, not_second, third, off) refl,
      rw (plain, not_first, not_second, third, off) refl,
    )
pci_ide_write-accesses c (bus_master n) value low =
    let plain : (ltb 7 (14 + n) && ltb (14 + n) 12) ≡ false = ground arith in
    let not_first : ltb (14 + n) 8 ≡ false = ground arith in
    let not_second : ltb (14 + n) 12 ≡ false = ground arith in
    let not_third : ltb (14 + n) 14 ≡ false = ground arith in
    let fourth : ltb (14 + n) 22 ≡ true = ground arith in
    let off : 14 + n - 14 ≡ n = omega arith in
    (
      rw (plain, not_first, not_second, not_third, fourth, off) refl,
      rw (plain, not_first, not_second, not_third, fourth, off) refl,
    )

-- Without a base address register 1 the control register of the first channel is written at port
-- 0x3F8, and not at 0x3F6.
pub pci_ide_write-default_control :
    (bar0 bar2 bar3 bar4 value : ℕ) (nien : ℕ → ℕ)
    → pci_ide_write 1 (channels_of bar0 0 bar2 bar3 bar4 nien).primary 12 value
      ≡ some (outb 1016 value ∷ [])
unfolding pci_ide_write port_of channels_of
pci_ide_write-default_control bar0 bar2 bar3 bar4 value nien = refl

-- A buffer is read at the base of the channel where a byte of the same register is read at the
-- control block or at the bus master, for all of their registers.
pub pci_ide_read_buffer-base :
    (c : Channel) (n size : ℕ)
    → 2 ≤ n
    → n < 12
    → pci_ide_read_buffer 1 c (10 + n) (suc size)
      ≡ some (pci_buffer_read ((c.base + (if ltb n 4 then n else n - 4)) % 2 ^ 16) (suc size))
unfolding pci_ide_read_buffer with_control buffer_port
pci_ide_read_buffer-base c n size low up =
    let plain : (ltb 7 (10 + n) && ltb (10 + n) 12) ≡ false = ground arith in
    let not_first : ltb (10 + n) 8 ≡ false = ground arith in
    let not_second : ltb (10 + n) 12 ≡ false = ground arith in
    elim (Bool-cases (ltb n 4)) [
      | inl third ↦
          let e : ltb (10 + n) 14 ≡ true = ground (arith, third) in
          let off : 10 + n - 10 ≡ n = omega arith in
          rw (plain, not_first, not_second, e, off, third) refl
      | inr fourth ↦
          let e : ltb (10 + n) 14 ≡ false = ground (arith, fourth) in
          let e2 : ltb (10 + n) 22 ≡ true = ground arith in
          let off : 10 + n - 14 ≡ n - 4 = ground (arith, fourth) in
          rw (plain, not_first, not_second, e, e2, off, fourth) refl
    ]
