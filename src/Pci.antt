-- ===== src/Pci.antt =====
-- kernel/kernel/pci/pci.c: the names of the classes (Names), and the search of the buses (Scan).
pub mod Names
pub mod Fallthrough
pub mod Scan
pub mod Tests
