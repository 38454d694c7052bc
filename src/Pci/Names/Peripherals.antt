-- ===== src/Pci/Names/Peripherals.antt =====
-- `pci_get_class_name` of kernel/kernel/pci/pci.c: the classes from the base system peripherals on. A
-- case that does not return goes on in the one below it.
use Prim.Native.String.{String}
use ikaros.Base.{ℕ, ◌==◌, if◌then◌else◌}

unfoldable pub data_acq_signal_proc_controller : ℕ → ℕ → String
data_acq_signal_proc_controller subclass progif =
    if subclass == 0
    then "DPIO Modules"
    else if subclass == 1
    then "Performance Counters"
    else if subclass == 16
    then "Communications Syncrhonization Plus Time and Frequency Test/Measurment"
    else if subclass == 32
    then "Management Card"
    else "Data Acquisition and Signal Processing Controller"

unfoldable pub crypto_controller : ℕ → ℕ → String
crypto_controller subclass progif =
    if subclass == 0
    then "Network and Computing Encrpytion/Decryption"
    else if subclass == 1
    then "Entertainment Encryption/Decryption"
    else "Encrpytion/Decryption"

unfoldable pub satelitte_comms_controller : ℕ → ℕ → String
satelitte_comms_controller subclass progif =
    if subclass == 1
    then "TV Controller"
    else if subclass == 2
    then "Audio Controller"
    else if subclass == 3
    then "Voice Controller"
    else if subclass == 4
    then "Data Controller"
    else "Satellite Communication Controller"

unfoldable pub intelligent_io : ℕ → ℕ → String
intelligent_io subclass progif =
    if subclass == 0
    then (if progif == 0 then "Message FIFO" else "I20 Architecture")
    else "Intelligent I/O"

unfoldable pub wireless_controller : ℕ → ℕ → String
wireless_controller subclass progif =
    if subclass == 0
    then "iRDA Compatible Controller"
    else if subclass == 1
    then "Consumer IR Controller"
    else if subclass == 16
    then "RF Controller"
    else if subclass == 17
    then "Bluetooth Controller"
    else if subclass == 18
    then "Broadband Controller"
    else if subclass == 32
    then "Ethernet Controller (802.11a)"
    else if subclass == 33
    then "Ethernet Controller (802.11b)"
    else "Wireless Controller"

unfoldable pub serial_bus_controller : ℕ → ℕ → String
serial_bus_controller subclass progif =
    if subclass == 0
    then "IEEE 1394 Controller"
    else if subclass == 1
    then "ACCESS bus"
    else if subclass == 2
    then "SSA"
    else if subclass == 3
    then (if progif == 0
        then "USB Controller (UHCI)"
        else if progif == 16
        then "USB Controller (OHCI)"
        else if progif == 32
        then "USB Controller (EHCI)"
        else if progif == 48
        then "USB Controller (XHCI)"
        else if progif == 128
        then "Unspecified USB Controller"
        else if progif == 254
        then "USB"
        else "USB Controller")
    else if subclass == 4
    then "Fibre Channel"
    else if subclass == 5
    then "SMBus"
    else if subclass == 6
    then "InfiniBand"
    else if subclass == 7
    then (if progif == 0
        then "IPMI SMIC Interface"
        else if progif == 1
        then "IPMI Kybd Controller Style Interface"
        else if progif == 2
        then "IPMI Block Transfer Interface"
        else "SERCOS Interface Standard (IEC 61491)")
    else if subclass == 8
    then "SERCOS Interface Standard (IEC 61491)"
    else if subclass == 9
    then "CANbus"
    else "Serial Bus Controller"

unfoldable pub processor : ℕ → ℕ → String
unfolding serial_bus_controller
processor subclass progif =
    if subclass == 0
    then "386 Processor"
    else if subclass == 1
    then "486 Processor"
    else if subclass == 2
    then "Pentium Processor"
    else if subclass == 16
    then "Alpha Processor"
    else if subclass == 32
    then "PowerPC Processor"
    else if subclass == 48
    then "MIPS Processor"
    else if subclass == 64
    then "Co-Processor"
    else serial_bus_controller subclass progif

unfoldable pub docking_station : ℕ → ℕ → String
docking_station subclass progif =
    if subclass == 0 then "Generic Docking Station" else "Docking Station"

unfoldable pub input_device : ℕ → ℕ → String
input_device subclass progif =
    if subclass == 0
    then "Keyboard Controller"
    else if subclass == 1
    then "Digitizer"
    else if subclass == 2
    then "Mouse Controller"
    else if subclass == 3
    then "Scanner Controller"
    else if subclass == 4
    then (if progif == 0
        then "Gameport Controller (Generic)"
        else if progif == 16
        then "Gameport Controller (Legacy)"
        else "Gameport Controller")
    else "Input Controller"

unfoldable pub base_system_peripheral : ℕ → ℕ → String
base_system_peripheral subclass progif =
    if progif == 0
    then (if progif == 0
        then "Generic 8259 PIC"
        else if progif == 1
        then "ISA PIC"
        else if progif == 2
        then "EISA PIC"
        else if progif == 16
        then "I/O APIC Interrupt Controller"
        else if progif == 32
        then "I/O(x) APIC Interrupt Controller"
        else "Interrupt Controller")
    else if progif == 1
    then (if progif == 0
        then "Generic 8254 DMA Controller"
        else if progif == 1
        then "ISA DMA Controller"
        else if progif == 2
        then "EISA DMA Controller"
        else "DMA Controller")
    else if progif == 2
    then (if progif == 0
        then "Generic 8254 System Timer"
        else if progif == 1
        then "ISA System Timer"
        else if progif == 2
        then "EISA System Timer"
        else "System Timer")
    else if progif == 3
    then (if progif == 0
        then "Generic RTC Controller"
        else if progif == 1
        then "ISA RTC Controller"
        else "RTC Controller")
    else if progif == 4
    then "Generic PCI Hot-Plug Controller"
    else "Base System Peripheral"
