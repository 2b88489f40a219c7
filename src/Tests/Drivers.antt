-- ===== src/Tests/Drivers.antt =====
-- The timer and the floppy driver at concrete requests.
use c4os.Common.{[], ◌≡◌, arith, false, true, Ensures, ◌↔◌}
use c4os.Devices.Floppy.{dma_initialize_floppy}
use c4os.Devices.Floppy.Bounds.{IsDmaBuffer, IsProgrammed, dma_initialize_floppy-accepts}

dma_initialize_floppy-accepts_example :
    Ensures
      (λ (accepted, q).
        ((accepted ≡ true) ↔ IsDmaBuffer 0x2_0000 512)
        × (accepted ≡ true → IsProgrammed 0x2_0000 512 q)
        × (accepted ≡ false → q ≡ []))
      (dma_initialize_floppy 0x2_0000 512 [])
dma_initialize_floppy-accepts_example =
    dma_initialize_floppy-accepts 0x2_0000 512 [] (omega arith) (omega arith) (omega arith)
