-- ===== src/Ide/Detect.antt =====
-- The detection of the disks in kernel/arch/i386/kernel/drivers/ide/pci_ide.c. What the registers read
-- as, one read after the other, is a list, and the words of the buffer are an argument; the accesses
-- to the ports of each register are those of Ide.
pub mod Polling
pub mod Controllers
use ikaros.Base.{
  ℕ, zero, suc, ◌+◌, ◌*◌, ◌/◌, ◌%◌, ◌^◌, bit_and, bit_or, Bool, true, false, not, ◌&&◌, ◌||◌,
  Option, none, some, List, [], ◌∷◌, ◌++◌, ◌==◌, if◌then◌else◌,
}
use ikaros.Pci.Scan.{Config, Pci, PciDevice, PciFunction, pci_get_class_code, pci_config_readl}
use ikaros.Ide.{Event, Controller, ata_reg_control, pci_ide_write, channels_of}

-- A write of a register of a channel, or a sleep. The reads are not listed.
pub data Access : Type 0 where
  written : ℕ → ℕ → ℕ → Access
  slept : ℕ → Access

-- What a drive answers with: its registers, in the order in which they are read, and its buffer.
pub record DriveAnswers : Type 0 where
  pub reads : List ℕ
  pub ide_buf : ℕ → ℕ

-- What becomes of one of the two drives of a channel: nothing there, a drive with its type and name,
-- or no end of the polling on these reads.
pub data Drive : Type 0 where
  absent : Drive
  drive : ℕ → List ℕ → Drive
  polling : Drive

-- `while(1)`: the answer is `err`, with the reads that are left.
unfoldable pub poll : List ℕ → Option (Bool × List ℕ)
poll [] = none
poll (status ∷ reads) =
    let rest = poll reads in
    if not (bit_and status 1 == 0)
    then some (true, reads)
    else if bit_and status 128 == 0 && not (bit_and status 8 == 0)
    then some (false, reads)
    else rest

-- The name: the bytes of `ide_buf` from 54 on, each pair in the other order.
unfoldable pub name_from : ℕ → ℕ → (ℕ → ℕ) → List ℕ
name_from zero k ide_buf = []
name_from (suc n) k ide_buf = ide_buf (54 + k + 1) ∷ ide_buf (54 + k) ∷ name_from n (k + 2) ide_buf

abbrev pub is_atapi : ℕ → ℕ → Bool
is_atapi cl ch = cl == 20 && ch == 235 || cl == 105 && ch == 150

abbrev pub named : ℕ → (ℕ → ℕ) → Drive
named type ide_buf = drive type (name_from 20 0 ide_buf)

-- The two registers that tell a drive for packets.
unfoldable pub signature : List ℕ → (ℕ → ℕ) → Drive
signature (cl ∷ ch ∷ reads) ide_buf = if is_atapi cl ch then named 1 ide_buf else absent
signature (cl ∷ []) ide_buf = polling
signature [] ide_buf = polling

abbrev pub polled : Option (Bool × List ℕ) → (ℕ → ℕ) → Drive
polled none ide_buf = polling
polled (some (false, reads)) ide_buf = named 0 ide_buf
polled (some (true, reads)) ide_buf = signature reads ide_buf

-- One drive of the two: `reads` are the status, the statuses of the polling, and the signature.
unfoldable pub detect_drive : List ℕ → (ℕ → ℕ) → Drive
detect_drive [] ide_buf = polling
detect_drive (status ∷ reads) ide_buf = if status == 0 then absent else polled (poll reads) ide_buf

-- What is done for drive `j` of channel `i`: it is selected and asked to identify itself, and a drive
-- for packets once more in its own way.
unfoldable pub detect_writes : ℕ → ℕ → Drive → List Access
detect_writes i j d =
    written i 6 (bit_or 160 (j * 16)) ∷ slept 1 ∷ written i 7 236 ∷ slept 1 ∷ elim d [
      | drive type name ↦ if type == 1 then written i 7 161 ∷ slept 1 ∷ [] else []
      | absent ↦ []
      | polling ↦ []
    ]

-- A drive with what is done for it. `none` is a loop that has not ended.
abbrev pub Detected : Type 0
Detected = Drive × List Access

abbrev pub detected : ℕ → ℕ → Drive → Option (List Detected) → Option (List Detected)
detected i j polling later = none
detected i j absent none = none
detected i j absent (some ds) = some ((absent, detect_writes i j absent) ∷ ds)
detected i j (drive type name) none = none
detected i j (drive type name) (some ds) =
    some ((drive type name, detect_writes i j (drive type name)) ∷ ds)

-- `for(j = 0; j < 2; j++)` in `for(i = 0; i < 2; i++)`: the drives that are left, by their channels.
unfoldable pub drives_loop : (ℕ → ℕ → DriveAnswers) → List (ℕ × ℕ) → Option (List Detected)
drives_loop answers [] = some []
drives_loop answers ((i, j) ∷ left) =
    let a = answers i j in detected i j (detect_drive a.reads a.ide_buf) (drives_loop answers left)

-- The drives in the order of the two loops.
abbrev pub all_drives : List (ℕ × ℕ)
all_drives = (0, 0) ∷ (0, 1) ∷ (1, 0) ∷ (1, 1) ∷ []

-- The base address registers of a function.
abbrev pub bar : Config → ℕ → ℕ → ℕ → ℕ → ℕ
bar cfg bus slot function i = pci_config_readl cfg bus slot function (16 + 4 * i)

-- A controller, with the accesses that set it up, and its drives.
pub record SetUp : Type 0 where
  pub controller : Controller
  pub accesses : Option (List Event)
  pub drives : List Detected

abbrev pub then_write : Option (List Event) → Option (List Event) → Option (List Event)
then_write none second = none
then_write (some before) none = none
then_write (some before) (some after) = some (before ++ after)

-- What stands in the fields `nien` of a new controller, and what the drives of a function answer with.
pub record Outside : Type 0 where
  pub nien : ℕ → ℕ → ℕ → ℕ → ℕ
  pub answers : ℕ → ℕ → ℕ → ℕ → ℕ → DriveAnswers

unfoldable pub pci_ide_initialize_controller : Config → Outside → ℕ → ℕ → ℕ → Controller
pci_ide_initialize_controller cfg out bus slot function =
    channels_of (bar cfg bus slot function 0) (bar cfg bus slot function 1)
      (bar cfg bus slot function 2) (bar cfg bus slot function 3) (bar cfg bus slot function 4)
      (out.nien bus slot function)

-- Both control registers are written with 2.
unfoldable pub control_writes : Controller → Option (List Event)
control_writes c =
    then_write (pci_ide_write 1 c.primary ata_reg_control 2)
      (pci_ide_write 1 c.secondary ata_reg_control 2)

abbrev pub with_drives : List SetUp → Controller → Option (List Detected) → Option (List SetUp)
with_drives found c none = none
with_drives found c (some drives) =
    some (found ++ record { controller = c; accesses = control_writes c; drives = drives } ∷ [])

-- The controller is put at the end of the list, and its drives are looked for.
unfoldable pub pci_ide_detect_devices :
    Config → Outside → ℕ → ℕ → ℕ → List SetUp → Option (List SetUp)
pci_ide_detect_devices cfg out bus slot function found =
    with_drives found (pci_ide_initialize_controller cfg out bus slot function)
      (drives_loop (out.answers bus slot function) all_drives)

-- `class_code == PCI_CLASS_MASS_STORAGE_CONTROLLER && subclass == 0x01`, read again from the device.
unfoldable pub is_ide : Config → ℕ → ℕ → ℕ → Bool
is_ide cfg bus slot function =
    let tmp = pci_get_class_code cfg bus slot function in
    tmp / 16777216 % 256 == 1 && tmp / 65536 % 256 == 1

abbrev pub go_on : Option (List SetUp) → (List SetUp → Option (List SetUp)) → Option (List SetUp)
go_on none again = none
go_on (some found) again = again found

-- The loop over the functions of a device, with the controllers found so far.
unfoldable pub functions_loop :
    Config → Outside → PciDevice → List PciFunction → List SetUp → Option (List SetUp)
functions_loop cfg out dev [] found = some found
functions_loop cfg out dev (f ∷ fs) found =
    go_on
      (if is_ide cfg dev.bus dev.number f.number
        then pci_ide_detect_devices cfg out dev.bus dev.number f.number found
        else some found)
      (functions_loop cfg out dev fs)

unfoldable pub devices_loop : Config → Outside → List PciDevice → List SetUp → Option (List SetUp)
devices_loop cfg out [] found = some found
devices_loop cfg out (dev ∷ devs) found =
    go_on (functions_loop cfg out dev dev.functions found) (devices_loop cfg out devs)

-- The list of the controllers behind `pci_ide_initialize`, `none` where it does not return on the
-- answers of the drives.
unfoldable pub pci_ide_initialize : Config → Outside → Pci → Option (List SetUp)
pci_ide_initialize cfg out pci = devices_loop cfg out pci.devices []
