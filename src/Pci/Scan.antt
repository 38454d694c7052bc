-- ===== src/Pci/Scan.antt =====
-- The search of kernel/kernel/pci/pci.c. What the configuration space answers is the record `Config`;
-- the two linked lists are lists, in their order. A bridge leads to another bus, so the search takes
-- fuel for the depth, and `none` is a search that has not ended.
pub mod Flat
pub mod Bridges
pub mod Tree
pub mod Cycle
use ikaros.Base.{
  ℕ, zero, suc, ◌+◌, ◌*◌, ◌/◌, ◌%◌, ◌^◌, bit_and, bit_or, Bool, true, false, not, ◌&&◌, Option,
  none, some, List, [], ◌∷◌, ◌++◌, ◌==◌, if◌then◌else◌,
}

-- `inl`: the double word that the data port gives when an address was written to the address port.
pub record Config : Type 0 where
  pub inl : ℕ → ℕ

abbrev pub config_address : ℕ → ℕ → ℕ → ℕ → ℕ
config_address bus slot function offset =
    bit_or
      (bit_or (bit_or (bit_or (bus * 65536) (slot * 2048)) (function * 256)) (bit_and offset 252))
      2147483648

abbrev pub pci_config_readl : Config → ℕ → ℕ → ℕ → ℕ → ℕ
pci_config_readl cfg bus slot function offset = cfg.inl (config_address bus slot function offset)

abbrev pub pci_config_readw : Config → ℕ → ℕ → ℕ → ℕ → ℕ
pci_config_readw cfg bus slot function offset =
    cfg.inl (config_address bus slot function offset) / 2 ^ (bit_and offset 2 * 8) % 65536

-- The identity of the vendor is put in the upper half.
abbrev pub pci_get_device_id : Config → ℕ → ℕ → ℕ → ℕ
pci_get_device_id cfg bus slot function =
    let vendor = pci_config_readw cfg bus slot function 0 in
    if vendor == 65535
    then 4294967295
    else bit_or (vendor * 65536) (pci_config_readw cfg bus slot function 2)

abbrev pub pci_get_class_code : Config → ℕ → ℕ → ℕ → ℕ
pci_get_class_code cfg bus slot function = pci_config_readl cfg bus slot function 8

abbrev pub pci_get_header_type : Config → ℕ → ℕ → ℕ → ℕ
pci_get_header_type cfg bus slot function = bit_and (pci_config_readw cfg bus slot function 14) 255

abbrev pub pci_get_secondary_bus_number : Config → ℕ → ℕ → ℕ → ℕ
pci_get_secondary_bus_number cfg bus slot function =
    bit_and (pci_config_readl cfg bus slot function 24) 65280 / 256

pub record PciFunction : Type 0 where
  pub number : ℕ
  pub vendor_id : ℕ
  pub device_id : ℕ
  pub class_code : ℕ
  pub subclass : ℕ
  pub progif : ℕ

pub record PciDevice : Type 0 where
  pub bus : ℕ
  pub number : ℕ
  pub vendor_id : ℕ
  pub device_id : ℕ
  pub functions : List PciFunction

-- `pci_devices` and `pci_device_count`
pub record Pci : Type 0 where
  pub devices : List PciDevice
  pub device_count : ℕ

abbrev pub no_device : ℕ
no_device = 4294967295

abbrev pub low_half : ℕ → ℕ
low_half id = id % 65536

abbrev pub high_half : ℕ → ℕ
high_half id = id / 65536 % 65536

-- The device is linked in behind those that its bridges led to.
abbrev pub linked : PciDevice × Pci → Pci
linked (dev, pci) = record {
  devices = pci.devices ++ dev ∷ [];
  device_count = pci.device_count + 1;
}

abbrev pub link : Option (PciDevice × Pci) → Option Pci
link none = none
link (some found) = some (linked found)

module _ (cfg : Config) where
  unfoldable pub function_of : ℕ → ℕ → ℕ → PciFunction
  function_of bus number function =
      let devid = pci_get_device_id cfg bus number function in
      let tmp = pci_get_class_code cfg bus number function in
      record {
        number = function;
        vendor_id = high_half devid;
        device_id = low_half devid;
        class_code = tmp / 16777216 % 256;
        subclass = tmp / 65536 % 256;
        progif = tmp % 256;
      }

  abbrev pub is_bridge : ℕ → ℕ → ℕ → Bool
  is_bridge bus number function =
      let f = function_of bus number function in f.class_code == 6 && f.subclass == 4

  -- `scan_bus` is the search of another bus.
  unfoldable pub pci_scan_device_function :
      (ℕ → Pci → Option Pci) → PciDevice → ℕ → Pci → Option (PciDevice × Pci)
  unfolding function_of
  pci_scan_device_function scan_bus dev function pci =
      if is_bridge dev.bus dev.number function
      then elim (scan_bus (pci_get_secondary_bus_number cfg dev.bus dev.number function) pci) [
        | none ↦ none
        | some pci1 ↦ some (dev, pci1)
      ]
      else some (
        record dev { functions = dev.functions ++ function_of dev.bus dev.number function ∷ [] },
        pci,
      )

  -- `n` functions from `function` on, where there is one.
  unfoldable pub scan_functions :
      (ℕ → Pci → Option Pci) → ℕ → ℕ → PciDevice → Pci → Option (PciDevice × Pci)
  unfolding pci_scan_device_function
  scan_functions scan_bus zero function dev pci = some (dev, pci)
  scan_functions scan_bus (suc n) function dev pci =
      elim (if pci_get_device_id cfg dev.bus dev.number function == no_device
        then some (dev, pci)
        else pci_scan_device_function scan_bus dev function pci) [
          | none ↦ none
          | some (dev1, pci1) ↦ scan_functions scan_bus n (function + 1) dev1 pci1
        ]

  unfoldable pub pci_scan_device : (ℕ → Pci → Option Pci) → ℕ → ℕ → Pci → Option Pci
  unfolding scan_functions pci_scan_device_function
  pci_scan_device scan_bus bus device pci =
      let devid = pci_get_device_id cfg bus device 0 in
      let dev : PciDevice = record {
        bus = bus;
        number = device;
        vendor_id = high_half devid;
        device_id = low_half devid;
        functions = [];
      } in
      if devid == no_device then some pci else elim (pci_scan_device_function scan_bus dev 0 pci) [
        | none ↦ none
        | some (dev1, pci1) ↦
            if bit_and (pci_get_header_type cfg bus device 0) 128 == 0
            then some (linked (dev1, pci1))
            else link (scan_functions scan_bus 7 1 dev1 pci1)
      ]

  -- `n` devices from `device` on.
  unfoldable pub scan_devices : (ℕ → Pci → Option Pci) → ℕ → ℕ → ℕ → Pci → Option Pci
  unfolding pci_scan_device
  scan_devices scan_bus zero bus device pci = some pci
  scan_devices scan_bus (suc n) bus device pci = elim (pci_scan_device scan_bus bus device pci) [
    | none ↦ none
    | some pci1 ↦ scan_devices scan_bus n bus (device + 1) pci1
  ]

  unfoldable pub pci_scan_bus : ℕ → ℕ → Pci → Option Pci
  unfolding scan_devices
  pci_scan_bus zero bus pci = none
  pci_scan_bus (suc fuel) bus pci = scan_devices (pci_scan_bus fuel) 32 bus 0 pci

  -- The loop over the controllers asks for function 0 of device 0 each time.
  unfoldable pub scan_controllers : ℕ → ℕ → ℕ → Pci → Option Pci
  unfolding pci_scan_bus
  scan_controllers fuel zero function pci = some pci
  scan_controllers fuel (suc n) function pci =
      if pci_get_device_id cfg 0 0 0 == no_device
      then some pci
      else elim (pci_scan_bus fuel function pci) [
        | none ↦ none
        | some pci1 ↦ scan_controllers fuel n (function + 1) pci1
      ]

  unfoldable pub pci_scan : ℕ → Pci → Option Pci
  unfolding scan_controllers
  pci_scan fuel pci =
      if bit_and (pci_get_header_type cfg 0 0 0) 128 == 0
      then pci_scan_bus fuel 0 pci
      else scan_controllers fuel 8 0 pci
