-- ===== src/Pci/Scan/Tree.antt =====
-- The search of a whole tree of buses.
use ikaros.Base.{
  ℕ, zero, suc, ◌+◌, ◌<◌, ◌≤◌, ◌≡◌, refl, bit_and, true, Option, some, [], ◌∷◌, ◌==◌, arith,
  Bool-cases, inl, inr,
}
use ikaros.Pci.Scan.{
  Config, pci_get_device_id, pci_get_header_type, pci_get_secondary_bus_number, PciDevice, Pci,
  no_device, low_half, high_half, is_bridge, linked, pci_scan_device, scan_devices, pci_scan_bus,
}
use ikaros.Pci.Scan.Bridges.{
  Has, Has-append_right, Extends, Extends-refl, Extends-trans, Extends-linked, Extends-Has, Answers,
  Scanned, first, other, Reaches, here, through, AllFound, Searched, Behind, Behind-Extends,
  function_lem, functions_lem,
}

module _ (cfg : Config) where
  -- `scan` searches what the bridges of `bus` lead to.
  module _ (scan : ℕ → Pci → Option Pci) (bus : ℕ)
      (good : (number function : ℕ)
        → number < 32
        → function < 8
        → is_bridge cfg bus number function ≡ true
        → (pci : Pci)
        → Searched cfg
            (pci_get_secondary_bus_number cfg bus number function)
            pci
            (scan (pci_get_secondary_bus_number cfg bus number function) pci)) where
    -- What the search of one device has found.
    abbrev DeviceFound : ℕ → Pci → Type 0
    DeviceFound device pci =
        Answers cfg bus device 0
        → Has bus device pci.devices
          × ((g : ℕ) → Scanned cfg bus device g → Behind cfg bus device g pci)

    DeviceFound-Extends :
        (device : ℕ) (a b : Pci) → Extends a b → DeviceFound device a → DeviceFound device b
    DeviceFound-Extends device a b more found up =
        let (has, behind) = found up in
        (
          Extends-Has bus device a b more has,
          λ g scanned. Behind-Extends cfg bus device g a b more (behind g scanned),
        )

    Has-linked :
        (device : ℕ) (dev : PciDevice) (pci : Pci)
        → (dev.bus ≡ bus) × (dev.number ≡ device)
        → Has bus device (linked (dev, pci)).devices
    Has-linked device dev pci at = Has-append_right bus device pci.devices (dev ∷ []) (inl at)

    device_lem :
        (device : ℕ) (pci : Pci)
        → device < 32
        → (pci' : Pci) × (pci_scan_device cfg scan bus device pci ≡ some pci')
          × Extends pci pci'
          × DeviceFound device pci'
    unfolding pci_scan_device
    device_lem device pci low =
        elim (Bool-cases (pci_get_device_id cfg bus device 0 == no_device)) [
          | inl absent ↦ (pci, rw absent refl, Extends-refl pci, λ up. cc)
          | inr present ↦
              let devid = pci_get_device_id cfg bus device 0 in
              let dev : PciDevice = record {
                bus = bus;
                number = device;
                vendor_id = high_half devid;
                device_id = low_half devid;
                functions = [];
              } in
              let (dev1, pci1, run1, at1, more1, behind1) =
                function_lem cfg scan bus good device 0 dev pci low (omega arith) (refl, refl) in
              elim (Bool-cases (bit_and (pci_get_header_type cfg bus device 0) 128 == 0)) [
                | inl single ↦
                    let all = linked (dev1, pci1) in
                    let more = Extends-linked dev1 pci1 in
                    (
                      all,
                      rw present (rw run1 (rw single refl)),
                      Extends-trans pci pci1 all more1 more,
                      λ up. (
                        Has-linked device dev1 pci1 at1,
                        λ g scanned. elim scanned [
                          | first function at_zero ↦
                              rw at_zero (Behind-Extends cfg bus device 0 pci1 all more behind1)
                          | other function several from to up' ↦ cc
                        ],
                      ),
                    )
                | inr several ↦
                    let (dev2, pci2, run2, at2, more2, behind2) =
                      functions_lem cfg scan bus good 7 1 device dev1 pci1 low (omega arith) at1 in
                    let all = linked (dev2, pci2) in
                    let more = Extends-linked dev2 pci2 in
                    let more' = Extends-trans pci1 pci2 all more2 more in
                    (
                      all,
                      rw present (rw run1 (rw several (rw run2 refl))),
                      Extends-trans pci pci1 all more1 more',
                      λ up. (
                        Has-linked device dev2 pci2 at2,
                        λ g scanned. elim scanned [
                          | first function at_zero ↦
                              rw at_zero (Behind-Extends cfg bus device 0 pci1 all more' behind1)
                          | other function several' from to up' ↦
                              Behind-Extends cfg bus device function pci2 all more
                                (behind2 function (omega arith) (omega arith) up')
                        ],
                      ),
                    )
              ]
        ]

    devices_lem :
        (n device : ℕ) (pci : Pci)
        → device + n ≤ 32
        → (pci' : Pci) × (scan_devices cfg scan n bus device pci ≡ some pci')
          × Extends pci pci'
          × ((d : ℕ) → device ≤ d → d < device + n → DeviceFound d pci')
    unfolding scan_devices
    devices_lem zero device pci fits =
        (pci, refl, Extends-refl pci, λ d from to. absurd (omega arith))
    devices_lem (suc n) device pci fits =
        let (pci1, run1, more1, found1) = device_lem device pci (omega arith) in
        let (pci2, run2, more2, found2) = devices_lem n (device + 1) pci1 (omega arith) in
        (
          pci2,
          rw (run1, scan_devices) run2,
          Extends-trans pci pci1 pci2 more1 more2,
          λ d from to. elim (Bool-cases (d == device)) [
            | inl same ↦
                let e : d ≡ device = ground (arith, same) in
                rw e (DeviceFound-Extends device pci1 pci2 more2 found1)
            | inr later ↦ found2 d (ground (arith, later)) (omega arith)
          ],
        )

    Reaches-Found : (pci : Pci) → ((d : ℕ) → d < 32 → DeviceFound d pci) → AllFound cfg bus pci
    Reaches-Found pci found to number reach low up = reached to number reach low up found
      where
        reached :
            (to number : ℕ)
            → Reaches cfg bus to
            → number < 32
            → Answers cfg to number 0
            → ((d : ℕ) → d < 32 → DeviceFound d pci)
            → Has to number pci.devices
        reached to number (here _) low up found = (found number low up).0
        reached to number (through _ n f _ small present scanned bridge on) low up found =
            (found n small present).1 f scanned bridge to number on low up

  -- Where every bridge leads to a bus of a smaller rank, the search of a bus ends on fuel above its
  -- rank: the devices found before stay in front, and every device that answers on the bus, or on one
  -- that its bridges lead to, is found.
  pub pci_scan_bus-Searched :
      (rank : ℕ → ℕ)
      → ((bus number function : ℕ)
          → number < 32
          → function < 8
          → is_bridge cfg bus number function ≡ true
          → rank (pci_get_secondary_bus_number cfg bus number function) < rank bus)
      → (fuel bus : ℕ) (pci : Pci) → rank bus < fuel
      → Searched cfg bus pci (pci_scan_bus cfg fuel bus pci)
  unfolding pci_scan_bus
  pci_scan_bus-Searched rank down zero bus pci enough = absurd (omega arith)
  pci_scan_bus-Searched rank down (suc fuel) bus pci enough =
      let scan = pci_scan_bus cfg fuel in
      let good =
        λ (number : ℕ) (function : ℕ) (n : number < 32) (f : function < 8)
            (bridge : is_bridge cfg bus number function ≡ true) (p : Pci).
          pci_scan_bus-Searched rank down fuel
            (pci_get_secondary_bus_number cfg bus number function) p
            (omega (arith, down bus number function n f bridge)) in
      let (pci', run, more, found) = devices_lem scan bus good 32 0 pci (omega arith) in
      (
        pci',
        run,
        more,
        Reaches-Found scan bus good pci' (λ d low. found d (omega arith) (omega arith)),
      )
