-- ===== src/Libc.antt =====
-- The C library of the kernel, libc.
pub mod Memory
pub mod Strings
pub mod Convert
pub mod Tests
