-- ===== src/Devices.antt =====
-- The device drivers: src/kernel/timer.c, src/drivers/dma.c and src/drivers/floppy.c.
pub mod Ports
pub mod Registers
pub mod Timer
pub mod Dma
pub mod Floppy
