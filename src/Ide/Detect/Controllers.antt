-- ===== src/Ide/Detect/Controllers.antt =====
-- The controllers against the functions that the search of the PCI bus found.
use ikaros.Base.{
  ℕ, zero, suc, ◌+◌, ◌≡◌, refl, sym, ap, ◌∙◌, Bool, true, false, ◌&&◌, ◌||◌, some, List, [], ◌∷◌,
  ◌++◌, ◌==◌, if◌then◌else◌, All, map, Bool-cases, inl, inr,
}
use mathlib.Core.List.{append_assoc, append-nil}
use ikaros.Pci.Scan.{
  Config, Pci, PciDevice, PciFunction, function_of, pci_get_device_id, no_device, pci_scan_bus,
}
use ikaros.Pci.Scan.Flat.{
  Bridgeless, with_devices, devices_from, device_of, functions_from, has_functions,
  pci_scan_bus-flat,
}
use ikaros.Ide.Detect.{
  SetUp, is_atapi, DriveAnswers, Outside, Drive, absent, Detected, detected, detect_writes,
  drives_loop, all_drives, control_writes, pci_ide_detect_devices, is_ide, functions_loop,
  devices_loop, pci_ide_initialize, pci_ide_initialize_controller,
}
use ikaros.Ide.Detect.Polling.{Busy, has_error, has_words, kind, detect_drive_lem}

-- A drive by its registers: its first status, the statuses while it is busy, the one behind them, and
-- its signature.
pub record Disk : Type 0 where
  pub first : ℕ
  pub busy : List ℕ
  pub status : ℕ
  pub cl : ℕ
  pub ch : ℕ
  pub ide_buf : ℕ → ℕ

-- It is busy until it has words or an error.
pub record IsReady (d : Disk) : Type 0 where
  pub waits : All Busy d.busy
  pub ends : has_error d.status || has_words d.status ≡ true

abbrev pub answers_of : Disk → DriveAnswers
answers_of d = record {
  reads = d.first ∷ d.busy ++ d.status ∷ d.cl ∷ d.ch ∷ [];
  ide_buf = d.ide_buf;
}

-- What it is taken for, with what is done for drive `j` of channel `i`.
abbrev pub taken_for : Disk → Drive
taken_for d = if d.first == 0 then absent else kind d.status d.cl d.ch d.ide_buf

abbrev pub found_at : (ℕ → ℕ → Disk) → ℕ → ℕ → Detected
found_at disks i j = (taken_for (disks i j), detect_writes i j (taken_for (disks i j)))

detected-taken_for :
    (d : Disk) (i j : ℕ) (ds : List Detected)
    → detected i j (taken_for d) (some ds)
      ≡ some ((taken_for d, detect_writes i j (taken_for d)) ∷ ds)
detected-taken_for d i j ds = elim (Bool-cases (d.first == 0)) [
  | inl none_there ↦ rw none_there refl
  | inr there ↦ elim (Bool-cases (has_error d.status)) [
    | inl error ↦ elim (Bool-cases (is_atapi d.cl d.ch)) [
      | inl packets ↦ rw (there, error, packets) refl
      | inr other ↦ rw (there, error, other) refl
    ]
    | inr words ↦ rw (there, words) refl
  ]
]

drives_loop-found_at :
    (disks : ℕ → ℕ → Disk) (left : List (ℕ × ℕ))
    → ((i j : ℕ) → IsReady (disks i j))
    → drives_loop (λ i j. answers_of (disks i j)) left
      ≡ some (map (λ p. found_at disks p.0 p.1) left)
unfolding drives_loop
drives_loop-found_at disks [] ready = refl
drives_loop-found_at disks ((i, j) ∷ left) ready =
    let d = disks i j in
    rw
      (detect_drive_lem d.first d.status d.cl d.ch d.busy [] d.ide_buf (ready i j).waits
        (ready i j).ends)
      (rw (drives_loop-found_at disks left ready)
        (detected-taken_for d i j (map (λ p. found_at disks p.0 p.1) left)))

-- `nien` and `disks` are what a new controller has in these fields, and the drives of each function.
module _ (cfg : Config) (nien : ℕ → ℕ → ℕ → ℕ → ℕ) (disks : ℕ → ℕ → ℕ → ℕ → ℕ → Disk) where
  abbrev pub outside : Outside
  outside = record {
    nien = nien;
    answers = λ bus slot function i j. answers_of (disks bus slot function i j);
  }

  -- The class that the search recorded is that of IDE controllers.
  abbrev pub recorded_ide : PciFunction → Bool
  recorded_ide f = f.class_code == 1 && f.subclass == 1

  -- A controller with its four drives.
  abbrev pub set_up : ℕ → ℕ → ℕ → SetUp
  set_up bus slot function =
      let c = pci_ide_initialize_controller cfg outside bus slot function in
      let drives = disks bus slot function in
      record {
        controller = c;
        accesses = control_writes c;
        drives =
            found_at drives 0 0
            ∷ found_at drives 0 1
            ∷ found_at drives 1 0
            ∷ found_at drives 1 1
            ∷ [];
      }

  abbrev pub controllers_of : PciDevice → List PciFunction → List SetUp
  controllers_of dev [] = []
  controllers_of dev (f ∷ fs) =
      let rest = controllers_of dev fs in
      if recorded_ide f then set_up dev.bus dev.number f.number ∷ rest else rest

  abbrev pub all_controllers : List PciDevice → List SetUp
  all_controllers [] = []
  all_controllers (dev ∷ devs) = controllers_of dev dev.functions ++ all_controllers devs

  -- Every drive is ready in the end.
  abbrev pub AllReady : Type 0
  AllReady = (bus slot function i j : ℕ) → IsReady (disks bus slot function i j)

  -- The functions are recorded as the search reads them.
  abbrev Recorded : ℕ → ℕ → List PciFunction → Type 0
  Recorded bus number fs = All (λ f. f ≡ function_of cfg bus number f.number) fs

  is_ide_lem :
      (bus number : ℕ) (f : PciFunction)
      → f ≡ function_of cfg bus number f.number
      → is_ide cfg bus number f.number ≡ recorded_ide f
  unfolding is_ide function_of
  is_ide_lem bus number f e = sym (ap recorded_ide e)

  functions_loop-controllers_of :
      (dev : PciDevice) (fs : List PciFunction) (found : List SetUp)
      → AllReady
      → Recorded dev.bus dev.number fs
      → functions_loop cfg outside dev fs found ≡ some (found ++ controllers_of dev fs)
  unfolding functions_loop pci_ide_detect_devices
  functions_loop-controllers_of dev [] found ready all = ap some (sym (append-nil found))
  functions_loop-controllers_of dev (f ∷ fs) found ready (e, all) =
      let recorded = is_ide_lem dev.bus dev.number f e in
      elim (Bool-cases (recorded_ide f)) [
        | inl ide ↦
            let now : is_ide cfg dev.bus dev.number f.number ≡ true = recorded ∙ ide in
            let c = set_up dev.bus dev.number f.number in
            rw (now, ide)
              (rw
                (drives_loop-found_at (disks dev.bus dev.number f.number) all_drives
                  (ready dev.bus dev.number f.number))
                (functions_loop-controllers_of dev fs (found ++ c ∷ []) ready all
                  ∙ ap some (append_assoc found (c ∷ []) (controllers_of dev fs))))
        | inr other ↦
            let now : is_ide cfg dev.bus dev.number f.number ≡ false = recorded ∙ other in
            rw (now, other) (functions_loop-controllers_of dev fs found ready all)
      ]

  devices_loop-all_controllers :
      (devs : List PciDevice) (found : List SetUp)
      → AllReady
      → All (λ dev. Recorded dev.bus dev.number dev.functions) devs
      → devices_loop cfg outside devs found ≡ some (found ++ all_controllers devs)
  unfolding devices_loop
  devices_loop-all_controllers [] found ready all = ap some (sym (append-nil found))
  devices_loop-all_controllers (dev ∷ devs) found ready (here, all) =
      rw (functions_loop-controllers_of dev dev.functions found ready here) (
        devices_loop-all_controllers devs (found ++ controllers_of dev dev.functions) ready all
        ∙ ap some (append_assoc found (controllers_of dev dev.functions) (all_controllers devs)))

  functions_from-Recorded :
      (n function bus number : ℕ) → Recorded bus number (functions_from cfg n function bus number)
  unfolding function_of
  functions_from-Recorded zero function bus number = tt
  functions_from-Recorded (suc n) function bus number =
      elim (Bool-cases (pci_get_device_id cfg bus number function == no_device)) [
        | inl silent ↦ rw silent (functions_from-Recorded n (function + 1) bus number)
        | inr present ↦ rw present (refl, functions_from-Recorded n (function + 1) bus number)
      ]

  device_of-Recorded : (bus number : ℕ) → Recorded bus number (device_of cfg bus number).functions
  unfolding function_of
  device_of-Recorded bus number = elim (Bool-cases (has_functions cfg bus number)) [
    | inl several ↦ rw several (refl, functions_from-Recorded 7 1 bus number)
    | inr single ↦ rw single (refl, tt)
  ]

  devices_from-Recorded :
      (n bus device : ℕ)
      → All (λ dev. Recorded dev.bus dev.number dev.functions) (devices_from cfg n bus device)
  devices_from-Recorded zero bus device = tt
  devices_from-Recorded (suc n) bus device =
      elim (Bool-cases (pci_get_device_id cfg bus device 0 == no_device)) [
        | inl silent ↦ rw silent (devices_from-Recorded n bus (device + 1))
        | inr present ↦
            rw present (device_of-Recorded bus device, devices_from-Recorded n bus (device + 1))
      ]

  -- Behind the search of a bus without bridges, where every drive that is busy has words or an error in
  -- the end, `pci_ide_initialize` returns: a controller is set up for each function that was found with
  -- the class of IDE, in their order, and none for any other, and each of its four drives is taken for
  -- what its registers say.
  pub pci_ide_initialize-all_controllers :
      (fuel bus : ℕ)
      → Bridgeless cfg bus
      → AllReady
      → (pci : Pci) × (pci_scan_bus cfg (suc fuel) bus (record { devices = []; device_count = 0 })
          ≡ some pci)
        × (pci_ide_initialize cfg outside pci ≡ some (all_controllers (devices_from cfg 32 bus 0)))
  unfolding pci_ide_initialize
  pci_ide_initialize-all_controllers fuel bus flat ready =
      let found = devices_from cfg 32 bus 0 in
      let start : Pci = record { devices = []; device_count = 0 } in
      (
        with_devices cfg start found,
        pci_scan_bus-flat cfg fuel bus start flat,
        devices_loop-all_controllers found [] ready (devices_from-Recorded 32 bus 0),
      )
