-- ===== src/Ide/Tests.antt =====
-- The first channel at its usual ports, and a bus with one controller.
use ikaros.Base.{ℕ, ◌≡◌, ◌/◌, ◌%◌, refl, false, arith, some, [], ◌∷◌, ◌==◌, if◌then◌else◌}
use ikaros.Pci.Scan.{Config, config_address, Pci, function_of, pci_scan_bus}
use ikaros.Pci.Scan.Flat.{Bridgeless, devices_from}
use ikaros.Ide.Detect.{pci_ide_initialize}
use ikaros.Ide.Detect.Controllers.{
  Disk, IsReady, outside, all_controllers, pci_ide_initialize-all_controllers,
}
use ikaros.Ide.{Channel, inb, outb, pci_ide_write, pci_ide_read}
use ikaros.Ide.Registers.{high, register_of, accesses, pci_ide_write-accesses}

abbrev channel : Channel
channel = record { base = 496; ctrl = 1012; bm_ide = 49152; nien = 2 }

pci_ide_write-accesses_example :
    (pci_ide_write 2 channel (register_of (high 3)) 5
      ≡ some (accesses channel (high 3) (λ port. outb port 5 ∷ [])))
    × (pci_ide_read 1 channel (register_of (high 3))
        ≡ some (accesses channel (high 3) (λ port. inb port ∷ [])))
pci_ide_write-accesses_example =
    pci_ide_write-accesses channel (high 3) 5 (omega arith, omega arith)

-- Device 3 of bus 0 answers at its function 0, as an IDE controller.
abbrev config : Config
config = record {
  inl = λ address.
      if address == 2147489792
      then 305419896
      else if address == 2147489800
      then 16842752
      else if address == 2147489804
      then 0
      else 4294967295;
}

no_class : (address : ℕ) → (config.inl address / 16777216 % 256 == 6) ≡ false
no_class address = ground arith

no_bridge : Bridgeless config 0
unfolding function_of
no_bridge number function slot few = rw (no_class (config_address 0 number function 8)) refl

-- A disk that is busy twice.
abbrev disk : Disk
disk = record { first = 80; busy = 128 ∷ 208 ∷ []; status = 88; cl = 0; ch = 0; ide_buf = λ k. 65 }

disk-IsReady : IsReady disk
disk-IsReady = record { waits = ((refl, refl), ((refl, refl), tt)); ends = refl }

pci_ide_initialize-all_controllers_example :
    (pci : Pci) × (pci_scan_bus config 2 0 (record { devices = []; device_count = 0 }) ≡ some pci)
    × (pci_ide_initialize config
          (outside config (λ bus slot function i. 0) (λ bus slot function i j. disk))
          pci
        ≡ some (
            all_controllers config
              (λ bus slot function i. 0)
              (λ bus slot function i j. disk)
              (devices_from config 32 0 0)))
pci_ide_initialize-all_controllers_example =
    pci_ide_initialize-all_controllers config (λ bus slot function i. 0)
      (λ bus slot function i j. disk) 1 0 no_bridge (λ bus slot function i j. disk-IsReady)
