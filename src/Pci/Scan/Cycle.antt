-- ===== src/Pci/Scan/Cycle.antt =====
-- A search that never ends.
use ikaros.Base.{
  ℕ, zero, suc, ◌+◌, ◌<◌, ◌≤◌, ◌≡◌, refl, subst, true, Option, none, ◌==◌, arith, Bool-cases, inl,
  inr, Option-cases,
}
use ikaros.Pci.Scan.{
  Config, pci_get_secondary_bus_number, Pci, is_bridge, pci_scan_device_function, pci_scan_device,
  scan_devices, pci_scan_bus,
}
use ikaros.Pci.Scan.Bridges.{Answers}

module _ (cfg : Config) where
  -- A device that is never searched to the end.
  scan_devices-none :
      (scan : ℕ → Pci → Option Pci) (n bus device d : ℕ) (pci : Pci)
      → device ≤ d
      → d < device + n
      → ((p : Pci) → pci_scan_device cfg scan bus d p ≡ none)
      → scan_devices cfg scan n bus device pci ≡ none
  unfolding scan_devices
  scan_devices-none scan zero bus device d pci from to stuck = absurd (omega arith)
  scan_devices-none scan (suc n) bus device d pci from to stuck = elim (Bool-cases (d == device)) [
    | inl same ↦
        let e : d ≡ device = ground (arith, same) in
        let run : pci_scan_device cfg scan bus device pci ≡ none =
          subst (λ x. pci_scan_device cfg scan bus x pci ≡ none) e (stuck pci) in
        rw (run, scan_devices) refl
    | inr later ↦ elim (Option-cases (pci_scan_device cfg scan bus device pci)) [
      | inl run ↦ rw (run, scan_devices) refl
      | inr (pci1, run) ↦
          rw (run, scan_devices)
            (scan_devices-none scan n bus (device + 1) d pci1 (ground (arith, later)) (omega arith)
              stuck)
    ]
  ]

  -- A bridge whose secondary bus is the one that it stands on is searched for ever.
  pub pci_scan_bus-endless :
      (bus device : ℕ)
      → device < 32
      → Answers cfg bus device 0
      → is_bridge cfg bus device 0 ≡ true
      → pci_get_secondary_bus_number cfg bus device 0 ≡ bus
      → (fuel : ℕ) (pci : Pci) → pci_scan_bus cfg fuel bus pci ≡ none
  unfolding pci_scan_bus pci_scan_device pci_scan_device_function
  pci_scan_bus-endless bus device low up bridge same zero pci = refl
  pci_scan_bus-endless bus device low up bridge same (suc fuel) pci =
      let ih = pci_scan_bus-endless bus device low up bridge same fuel in
      scan_devices-none (pci_scan_bus cfg fuel) 32 bus 0 device pci (omega arith) (omega arith)
        (λ p. rw up (rw bridge (rw same (rw (ih p) refl))))
