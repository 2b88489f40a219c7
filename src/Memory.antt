-- ===== src/Memory.antt =====
-- src/kernel/memory_manager.c: physical pages, page tables and virtual blocks.
pub mod Window
pub mod Phys
pub mod Paging
pub mod Virtual
pub mod Boot
