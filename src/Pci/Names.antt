-- ===== src/Pci/Names.antt =====
-- `pci_get_class_name` of kernel/kernel/pci/pci.c, with a definition for each class.
mod Peripherals
mod Controllers
use Prim.Native.String.{String}
use ikaros.Base.{ℕ, ◌==◌, if◌then◌else◌}
unfoldable pub use Peripherals.*
unfoldable pub use Controllers.*

unfoldable pub pci_get_class_name : ℕ → ℕ → ℕ → String
unfolding data_acq_signal_proc_controller crypto_controller satelitte_comms_controller
    intelligent_io wireless_controller serial_bus_controller processor docking_station input_device
    base_system_peripheral simple_communication_controller bridge_device memory_controller
    multimedia_controller display_controller network_controller mass_storage_controller
pci_get_class_name class_code subclass progif =
    if class_code == 0
    then "Unknown"
    else if class_code == 1
    then mass_storage_controller subclass progif
    else if class_code == 2
    then network_controller subclass progif
    else if class_code == 3
    then display_controller subclass progif
    else if class_code == 4
    then multimedia_controller subclass progif
    else if class_code == 5
    then memory_controller subclass progif
    else if class_code == 6
    then bridge_device subclass progif
    else if class_code == 7
    then simple_communication_controller subclass progif
    else if class_code == 8
    then base_system_peripheral subclass progif
    else if class_code == 9
    then input_device subclass progif
    else if class_code == 10
    then docking_station subclass progif
    else if class_code == 11
    then processor subclass progif
    else if class_code == 12
    then serial_bus_controller subclass progif
    else if class_code == 13
    then wireless_controller subclass progif
    else if class_code == 14
    then intelligent_io subclass progif
    else if class_code == 15
    then satelitte_comms_controller subclass progif
    else if class_code == 16
    then crypto_controller subclass progif
    else if class_code == 17
    then data_acq_signal_proc_controller subclass progif
    else "Undefined"
