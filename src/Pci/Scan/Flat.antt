-- ===== src/Pci/Scan/Flat.antt =====
-- The search of a bus without bridges, against the list of the devices that answer.
use ikaros.Base.{
  ℕ, zero, suc, ◌+◌, ◌≤◌, ◌<◌, ◌≡◌, refl, sym, ap, ◌∙◌, bit_and, Bool, true, false, Option, some,
  List, [], ◌∷◌, ◌++◌, ◌==◌, if◌then◌else◌, length, length-append, arith, Bool-cases, inl, inr,
}
use mathlib.Core.Path.{ap₂}
use mathlib.Core.List.{append_assoc, append-nil}
use ikaros.Pci.Scan.{
  Config, pci_get_device_id, pci_get_header_type, PciFunction, PciDevice, Pci, no_device, low_half,
  high_half, function_of, is_bridge, pci_scan_device_function, scan_functions, linked,
  pci_scan_device, scan_devices, pci_scan_bus,
}

module _ (cfg : Config) where
  -- The functions of a device among `n` from `function` on, in order.
  abbrev pub functions_from : ℕ → ℕ → ℕ → ℕ → List PciFunction
  functions_from zero function bus number = []
  functions_from (suc n) function bus number =
      let rest = functions_from n (function + 1) bus number in
      if pci_get_device_id cfg bus number function == no_device
      then rest
      else function_of cfg bus number function ∷ rest

  abbrev pub has_functions : ℕ → ℕ → Bool
  has_functions bus number =
      if bit_and (pci_get_header_type cfg bus number 0) 128 == 0 then false else true

  -- The device with function 0, and with the others if it has several.
  abbrev pub device_of : ℕ → ℕ → PciDevice
  device_of bus number = record {
    bus = bus;
    number = number;
    vendor_id = high_half (pci_get_device_id cfg bus number 0);
    device_id = low_half (pci_get_device_id cfg bus number 0);
    functions =
        function_of cfg bus number 0
        ∷ (if has_functions bus number then functions_from 7 1 bus number else []);
  }

  -- The devices that answer among `n` from `device` on.
  abbrev pub devices_from : ℕ → ℕ → ℕ → List PciDevice
  devices_from zero bus device = []
  devices_from (suc n) bus device =
      let rest = devices_from n bus (device + 1) in
      if pci_get_device_id cfg bus device 0 == no_device then rest else device_of bus device ∷ rest

  abbrev pub with_devices : Pci → List PciDevice → Pci
  with_devices pci ds = record {
    devices = pci.devices ++ ds;
    device_count = pci.device_count + length ds;
  }

  -- No function of the bus, of its 32 devices with 8 each, is a bridge.
  abbrev pub Bridgeless : ℕ → Type 0
  Bridgeless bus =
      (number function : ℕ) → number < 32 → function < 8 → is_bridge cfg bus number function ≡ false

  with_functions : PciDevice → List PciFunction → PciDevice
  with_functions dev fs = record dev { functions = dev.functions ++ fs }

  with_functions-append :
      (dev : PciDevice) (fs gs : List PciFunction)
      → with_functions (with_functions dev fs) gs ≡ with_functions dev (fs ++ gs)
  unfolding with_functions
  with_functions-append dev fs gs =
      ap {B = PciDevice} (λ x. record dev { functions = x }) (append_assoc dev.functions fs gs)

  with_functions-nil : (dev : PciDevice) → with_functions dev [] ≡ dev
  unfolding with_functions
  with_functions-nil dev =
      ap {B = PciDevice} (λ x. record dev { functions = x }) (append-nil dev.functions)

  scan_functions-flat :
      (scan : ℕ → Pci → Option Pci) (n function : ℕ) (dev : PciDevice) (pci : Pci)
      → dev.number < 32
      → function + n ≤ 8
      → Bridgeless dev.bus
      → scan_functions cfg scan n function dev pci
        ≡ some (with_functions dev (functions_from n function dev.bus dev.number), pci)
  unfolding scan_functions pci_scan_device_function with_functions
  scan_functions-flat scan zero function dev pci slot few flat =
      ap {B = Option (PciDevice × Pci)} (λ x. some (x, pci)) (sym (with_functions-nil dev))
  scan_functions-flat scan (suc n) function dev pci slot few flat =
      elim (Bool-cases (pci_get_device_id cfg dev.bus dev.number function == no_device)) [
        | inl absent ↦
            rw (absent, scan_functions)
              (scan_functions-flat scan n (function + 1) dev pci slot (omega arith) flat)
        | inr present ↦
            let f = function_of cfg dev.bus dev.number function in
            let dev1 = with_functions dev (f ∷ []) in
            rw (present, scan_functions)
              (rw (flat dev.number function slot (omega arith)) (
                scan_functions-flat scan n (function + 1) dev1 pci slot (omega arith) flat
                ∙ ap {B = Option (PciDevice × Pci)} (λ x. some (x, pci))
                    (with_functions-append dev (f ∷ [])
                      (functions_from n (function + 1) dev.bus dev.number))))
      ]

  scan_device-flat :
      (scan : ℕ → Pci → Option Pci) (bus device : ℕ) (pci : Pci)
      → device < 32
      → Bridgeless bus
      → pci_scan_device cfg scan bus device pci
        ≡ some (
            if pci_get_device_id cfg bus device 0 == no_device
            then pci
            else linked (device_of bus device, pci))
  unfolding pci_scan_device pci_scan_device_function with_functions
  scan_device-flat scan bus device pci slot flat =
      elim (Bool-cases (pci_get_device_id cfg bus device 0 == no_device)) [
        | inl absent ↦ rw absent refl
        | inr present ↦
            elim (Bool-cases (bit_and (pci_get_header_type cfg bus device 0) 128 == 0)) [
              | inl single ↦ rw present (rw (flat device 0 slot (omega arith)) (rw single refl))
              | inr several ↦
                  let dev1 = record (device_of bus device) {
                    functions = function_of cfg bus device 0 ∷ [];
                  } in
                  rw present (
                    rw (flat device 0 slot (omega arith)) (
                      rw several
                        (rw (scan_functions-flat scan 7 1 dev1 pci slot (omega arith) flat) refl)))
            ]
      ]

  with_devices-append :
      (pci : Pci) (ds es : List PciDevice)
      → with_devices (with_devices pci ds) es ≡ with_devices pci (ds ++ es)
  with_devices-append pci ds es =
      ap₂ {C = Pci} (λ x y. record { devices = x; device_count = y })
        (append_assoc pci.devices ds es) (omega (arith, length-append ds es))

  scan_devices-flat :
      (scan : ℕ → Pci → Option Pci) (n bus device : ℕ) (pci : Pci)
      → device + n ≤ 32
      → Bridgeless bus
      → scan_devices cfg scan n bus device pci ≡ some (with_devices pci (devices_from n bus device))
  unfolding scan_devices
  scan_devices-flat scan zero bus device pci few flat =
      ap₂ {C = Option Pci} (λ x y. some (record { devices = x; device_count = y }))
        (sym (append-nil pci.devices)) (omega arith)
  scan_devices-flat scan (suc n) bus device pci few flat =
      let e = scan_device-flat scan bus device pci (omega arith) flat in
      elim (Bool-cases (pci_get_device_id cfg bus device 0 == no_device)) [
        | inl absent ↦
            rw (e, scan_devices)
              (rw absent (scan_devices-flat scan n bus (device + 1) pci (omega arith) flat))
        | inr present ↦
            let d = device_of bus device in
            rw (e, scan_devices)
              (rw present (
                scan_devices-flat scan n bus (device + 1) (with_devices pci (d ∷ [])) (omega arith)
                  flat
                ∙ ap some (with_devices-append pci (d ∷ []) (devices_from n bus (device + 1)))))
      ]

  -- A bus without bridges is searched to its end: behind the devices known before come those of its
  -- 32 that answer, in order, each with the functions that answer, and the count grows by as many.
  pub pci_scan_bus-flat :
      (fuel bus : ℕ) (pci : Pci)
      → Bridgeless bus
      → pci_scan_bus cfg (suc fuel) bus pci ≡ some (with_devices pci (devices_from 32 bus 0))
  unfolding pci_scan_bus
  pci_scan_bus-flat fuel bus pci flat =
      scan_devices-flat (pci_scan_bus cfg fuel) 32 bus 0 pci (omega arith) flat
