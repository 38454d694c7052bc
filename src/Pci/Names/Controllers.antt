-- ===== src/Pci/Names/Controllers.antt =====
-- `pci_get_class_name` of kernel/kernel/pci/pci.c: the classes before the base system peripherals.
use Prim.Native.String.{String}
use ikaros.Base.{ℕ, ◌==◌, if◌then◌else◌}

unfoldable pub simple_communication_controller : ℕ → ℕ → String
simple_communication_controller subclass progif =
    if subclass == 0
    then (if progif == 0
        then "Generic XT-Compatible Serial Controller"
        else if progif == 1
        then "16450-Compatible Serial Controller"
        else if progif == 2
        then "16550-Compatible Serial Controller"
        else if progif == 3
        then "16650-Compatible Serial Controller"
        else if progif == 4
        then "16750-Compatible Serial Controller"
        else if progif == 5
        then "16850-Compatible Serial Controller"
        else if progif == 6
        then "16950-Compatible Serial Controller"
        else "Serial Controller")
    else if subclass == 1
    then (if progif == 0
        then "Parallel Port"
        else if progif == 1
        then "Bi-Directional Parallel Port"
        else if progif == 2
        then "ECP 1.X Compliant Parallel Port"
        else if progif == 3
        then "IEEE 1284 Controller"
        else if progif == 4
        then "IEEE 1284 Target Device"
        else "Parallel Port")
    else if subclass == 2
    then "Multiport Serial Controller"
    else if subclass == 3
    then (if progif == 0
        then "Generic Modem"
        else if progif == 1
        then "Hayes Compatible Modem (16450-Compatible Interface)"
        else if progif == 2
        then "Hayes Compatible Modem (16550-Compatible Interface)"
        else if progif == 3
        then "Hayes Compatible Modem (16650-Compatible Interface)"
        else if progif == 4
        then "Hayes Compatible Modem (16750-Compatible Interface)"
        else "Modem")
    else if subclass == 4
    then "IEEE 488.1/2 (GPIB) Controller"
    else if subclass == 5
    then "Smart Card"
    else "Simple Communication Controller"

unfoldable pub bridge_device : ℕ → ℕ → String
bridge_device subclass progif =
    if subclass == 0
    then "Host Bridge"
    else if subclass == 1
    then "ISA Bridge"
    else if subclass == 2
    then "EISA Bridge"
    else if subclass == 3
    then "MCA Bridge"
    else if subclass == 4
    then "PCI-to-PCI Bridge"
    else if subclass == 5
    then "PCMCIA Bridge"
    else if subclass == 6
    then "NuBus Bridge"
    else if subclass == 7
    then "CardBus Bridge"
    else if subclass == 8
    then "RACEway Bridge"
    else if subclass == 9
    then "PCI-to-PCI Bridge"
    else if subclass == 10
    then "InfiniBrand-to-PCI Host Bridge"
    else "Bridge Device"

unfoldable pub memory_controller : ℕ → ℕ → String
memory_controller subclass progif =
    if subclass == 0
    then "RAM Controller"
    else if subclass == 1
    then "Flash Controller"
    else "Memory Controller"

unfoldable pub multimedia_controller : ℕ → ℕ → String
multimedia_controller subclass progif =
    if subclass == 0
    then "Video Device"
    else if subclass == 1
    then "Audio Device"
    else if subclass == 2
    then "Computer Telephony Device"
    else "Multimedia Controller"

unfoldable pub display_controller : ℕ → ℕ → String
display_controller subclass progif =
    if subclass == 0
    then (if progif == 1 then "8512-Compatible Controller" else "VGA-Compatible Controller")
    else if subclass == 1
    then "XGA Controller"
    else if subclass == 2
    then "3D Controller"
    else "Display Controller"

unfoldable pub network_controller : ℕ → ℕ → String
network_controller subclass progif =
    if subclass == 0
    then "Ethernet Controller"
    else if subclass == 1
    then "Token Ring Controller"
    else if subclass == 2
    then "FDDI Controller"
    else if subclass == 3
    then "ATM Controller"
    else if subclass == 4
    then "ISDN Controller"
    else if subclass == 5
    then "WorldFip Controller"
    else if subclass == 6
    then "PICMG 2.14 Multi Computing"
    else "Network Controller"

unfoldable pub mass_storage_controller : ℕ → ℕ → String
mass_storage_controller subclass progif =
    if subclass == 0
    then "SCSI Bus Controller"
    else if subclass == 1
    then "IDE Controller"
    else if subclass == 2
    then "Floppy Disk Controller"
    else if subclass == 3
    then "IPI Bus Controller"
    else if subclass == 4
    then "RAID Controller"
    else if subclass == 5
    then "ATA Controller"
    else if subclass == 6
    then "SATA Controller"
    else if subclass == 7
    then "Serial Attached SCSI"
    else "Mass Storage Controller"
