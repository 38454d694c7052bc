-- ===== src/Ide.antt =====
-- The registers of kernel/arch/i386/kernel/drivers/ide/pci_ide.c, with the numbers of
-- kernel/include/kernel/ata/ata.h: what the code does with the ports, in order. What a port reads
-- as is an argument.
pub mod Registers
pub mod Detect
pub mod Tests
use ikaros.Base.{
  ℕ, zero, suc, ◌+◌, ◌-◌, ◌*◌, ◌/◌, ◌%◌, ◌^◌, bit_or, Bool, true, false, ◌&&◌, Option, none, some,
  List, [], ◌∷◌, ◌++◌, ltb, leb, ◌==◌, if◌then◌else◌,
}

abbrev pub ata_reg_command : ℕ
ata_reg_command = 7

abbrev pub ata_reg_seccount1 : ℕ
ata_reg_seccount1 = 8

abbrev pub ata_reg_control : ℕ
ata_reg_control = 12

pub record Channel : Type 0 where
  pub base : ℕ
  pub ctrl : ℕ
  pub bm_ide : ℕ
  pub nien : ℕ

pub record Controller : Type 0 where
  pub primary : Channel
  pub secondary : Channel

pub data Event : Type 0 where
  outb : ℕ → ℕ → Event
  inb : ℕ → Event
  inl : ℕ → Event

-- The port of a register, `none` where no branch is taken, in the 16 bits of a port.
unfoldable pub port_of : Channel → ℕ → Option ℕ
port_of c reg =
    if ltb reg ata_reg_seccount1
    then some ((c.base + reg) % 2 ^ 16)
    else if ltb reg ata_reg_control
    then some ((c.base + (reg - 6)) % 2 ^ 16)
    else if ltb reg 14
    then some ((c.ctrl + (reg - 10)) % 2 ^ 16)
    else if ltb reg 22
    then some ((c.bm_ide + (reg - 14)) % 2 ^ 16)
    else none

abbrev pub out_at : Option ℕ → ℕ → List Event
out_at none value = []
out_at (some port) value = outb port value ∷ []

abbrev pub in_at : Option ℕ → List Event
in_at none = []
in_at (some port) = inb port ∷ []

-- `reg > ATA_REG_COMMAND && reg < ATA_REG_CONTROL`: a register of the high order bytes.
abbrev pub is_high : ℕ → Bool
is_high reg = ltb ata_reg_command reg && ltb reg ata_reg_control

-- It calls itself for the control register, on fuel: `none` is a call that has not ended.
unfoldable pub pci_ide_write : ℕ → Channel → ℕ → ℕ → Option (List Event)
pci_ide_write zero c reg value = none
pci_ide_write (suc fuel) c reg value =
    let set = pci_ide_write fuel c ata_reg_control (bit_or 128 c.nien) in
    let clear = pci_ide_write fuel c ata_reg_control c.nien in
    if is_high reg
    then elim set [
      | none ↦ none
      | some before ↦ elim clear [
        | none ↦ none
        | some after ↦ some (before ++ out_at (port_of c reg) value ++ after)
      ]
    ]
    else some (out_at (port_of c reg) value)

-- `middle` is the access itself, between the two writes of the control register.
unfoldable pub with_control : ℕ → Channel → ℕ → List Event → Option (List Event)
with_control fuel c reg middle =
    if is_high reg
    then elim (pci_ide_write fuel c ata_reg_control (bit_or 128 c.nien)) [
      | none ↦ none
      | some before ↦ elim (pci_ide_write fuel c ata_reg_control c.nien) [
        | none ↦ none
        | some after ↦ some (before ++ middle ++ after)
      ]
    ]
    else some middle

unfoldable pub pci_ide_read : ℕ → Channel → ℕ → Option (List Event)
pci_ide_read fuel c reg = with_control fuel c reg (in_at (port_of c reg))

-- `for(uint32_t i = 0; i < size; i++) buffer[i] = inl(reg);`
unfoldable pub pci_buffer_read : ℕ → ℕ → List Event
pci_buffer_read port zero = []
pci_buffer_read port (suc size) = Event.inl port ∷ pci_buffer_read port size

-- All four branches read at the base of the channel.
unfoldable pub buffer_port : Channel → ℕ → Option ℕ
buffer_port c reg =
    if ltb reg ata_reg_seccount1
    then some ((c.base + reg) % 2 ^ 16)
    else if ltb reg ata_reg_control
    then some ((c.base + (reg - 6)) % 2 ^ 16)
    else if ltb reg 14
    then some ((c.base + (reg - 10)) % 2 ^ 16)
    else if ltb reg 22
    then some ((c.base + (reg - 14)) % 2 ^ 16)
    else none

abbrev pub buffer_at : Option ℕ → ℕ → List Event
buffer_at none size = []
buffer_at (some port) size = pci_buffer_read port size

unfoldable pub pci_ide_read_buffer : ℕ → Channel → ℕ → ℕ → Option (List Event)
pci_ide_read_buffer fuel c reg size = with_control fuel c reg (buffer_at (buffer_port c reg) size)

-- The channels that `pci_ide_initialize_controller` sets up, by what the base address registers
-- read as. The fields `nien` stay as `malloc` left them.
unfoldable pub channels_of : ℕ → ℕ → ℕ → ℕ → ℕ → (ℕ → ℕ) → Controller
channels_of bar0 bar1 bar2 bar3 bar4 nien =
    let plain : ℕ → ℕ = λ bar. bar / 4 * 4 in
    record {
      primary = record {
        base = if plain bar0 == 0 then 496 else plain bar0 % 2 ^ 16;
        ctrl = if plain bar1 == 0 then 1014 else plain bar1 % 2 ^ 16;
        bm_ide = plain bar4 % 2 ^ 16;
        nien = nien 0;
      };
      secondary = record {
        base = if plain bar2 == 0 then 368 else plain bar2 % 2 ^ 16;
        ctrl = if plain bar3 == 0 then 886 else plain bar3 % 2 ^ 16;
        bm_ide = (plain bar4 + 8) % 2 ^ 16;
        nien = nien 1;
      };
    }
