-- ===== src/Kernel.antt =====
-- What the kernel builds on its parts: the dispatch of interrupts (src/kernel/interrupts.c) and the
-- lookup of files and the console (src/kernel/kernel.c).
pub mod Interrupts
pub mod Files
pub mod Console
pub mod Disks
pub mod Main
