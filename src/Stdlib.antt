-- ===== src/Stdlib.antt =====
-- src/lib/stdlib.c: the C library of the kernel.
pub mod Mutex
pub mod Lists
pub mod Bytes
pub mod Strings
