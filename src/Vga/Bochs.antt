-- ===== src/Vga/Bochs.antt =====
-- `bochs_vga_init` of kernel/arch/i386/kernel/graphics/bochs_vga.c: the search of the card, and the
-- sizes of its two memories. The registers of the card are a function from offsets, and what the card
-- makes of a word that is written to one is the argument `kept`. The prints are left out, and the part
-- behind the record of the device is commented out in the source.
pub mod Sizes
use ikaros.Base.{
  ℕ, ◌+◌, ◌-◌, ◌*◌, ◌/◌, ◌%◌, ◌^◌, Bool, true, false, ◌&&◌, Option, none, some, List, [], ◌∷◌, ◌==◌,
  if◌then◌else◌,
}
use ikaros.Pci.Scan.{PciDevice, PciFunction}

pub record BochsVgaDevice : Type 0 where
  pub pci_function : PciFunction
  pub fb_size : ℕ
  pub io_size : ℕ
  pub fb_phys_addr : ℕ
  pub io_phys_addr : ℕ

abbrev pub is_bochs : PciFunction → Bool
is_bochs f = f.vendor_id == 4660 && f.device_id == 4369

-- The inner loop: the first function of a device that is the card.
unfoldable pub find_function : List PciFunction → Option PciFunction
find_function [] = none
find_function (f ∷ fs) = let rest = find_function fs in if is_bochs f then some f else rest

unfoldable pub find_card : List PciDevice → Option (PciDevice × PciFunction)
find_card [] = none
find_card (dev ∷ devs) = elim (find_function dev.functions) [
  | some f ↦ some (dev, f)
  | none ↦ find_card devs
]

-- `pci_config_writel` to a register.
abbrev pub write_register : (ℕ → ℕ → ℕ) → ℕ → ℕ → (ℕ → ℕ) → ℕ → ℕ
write_register kept offset value regs = λ o. if o == offset then kept offset value else regs o

-- `(~(bar & 0xFFFFFFF0)) + 1` in 32 bits
abbrev pub size_of_bar : ℕ → ℕ
size_of_bar bar = (2 ^ 32 - 1 - bar / 16 * 16 + 1) % 2 ^ 32

-- The device, with the registers as they are left.
unfoldable pub bochs_vga_probe : (ℕ → ℕ → ℕ) → PciFunction → (ℕ → ℕ) → BochsVgaDevice × (ℕ → ℕ)
bochs_vga_probe kept f regs =
    let bar0 = regs 16 in
    let bar2 = regs 24 in
    let probed = write_register kept 24 4294967295 (write_register kept 16 4294967295 regs) in
    let dev : BochsVgaDevice = record {
      pci_function = f;
      fb_size = size_of_bar (probed 16);
      io_size = size_of_bar (probed 24);
      fb_phys_addr = bar0 / 16 * 16;
      io_phys_addr = bar2 / 16 * 16;
    } in
    (dev, write_register kept 24 bar2 (write_register kept 16 bar0 probed))

abbrev pub probe_card :
    (ℕ → ℕ → ℕ)
    → (PciDevice → PciFunction → ℕ → ℕ)
    → Option (PciDevice × PciFunction)
    → Option (BochsVgaDevice × (ℕ → ℕ))
probe_card kept registers none = none
probe_card kept registers (some (dev, f)) = some (bochs_vga_probe kept f (registers dev f))

-- `registers` are those of each function.
unfoldable pub bochs_vga_init :
    (ℕ → ℕ → ℕ)
    → (PciDevice → PciFunction → ℕ → ℕ)
    → List PciDevice
    → Option (BochsVgaDevice × (ℕ → ℕ))
bochs_vga_init kept registers devices = probe_card kept registers (find_card devices)
