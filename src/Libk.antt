-- ===== src/Libk.antt =====
-- src/libk: the kernel's own C library.
pub mod Mem
pub mod Text
pub mod Format
