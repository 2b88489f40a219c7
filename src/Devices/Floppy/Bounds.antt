-- ===== src/Devices/Floppy/Bounds.antt =====
-- Which sector and which buffer the floppy driver of src/drivers/floppy.c works on.
use c4os.Common.{
  ℕ, ◌+◌, ◌-◌, ◌*◌, ◌%◌, ◌≤◌, ◌<◌, ◌≡◌, ◌↔◌, refl, arith, bit_and_mask, true, false, Ensures,
  Bool-cases, inl, inr, u32, List, [], ◌∷◌, ◌==◌, if◌then◌else◌,
}
use c4os.Devices.Ports.{Ports}
use c4os.Devices.Registers.{
  dma0_chan2_addr_reg, dma0_chan2_count_reg, dma0_mode_reg, dma_page_chan2_addrbyte2,
}
use c4os.Devices.Dma.{
  dma_mask_channel, dma_set_mode, dma_set_read, dma_reset, dma_reset_flipflop, dma_set_address,
  dma_set_count, dma_set_external_page_register, dma_unmask_all,
}
use c4os.Devices.Floppy.{flpydsk_lba_to_chs, has_buffer_issue, dma_initialize_floppy}

-- The head of a block is 0 or 1, its sector lies from 1 to 18, and the three numbers give the block
-- back.
pub flpydsk_lba_to_chs-lba :
    (lba : ℕ)
    → let (head, track, sector) = flpydsk_lba_to_chs lba in
      (head < 2) × (1 ≤ sector) × (sector ≤ 18) × ((track * 2 + head) * 18 + (sector - 1) ≡ lba)
unfolding flpydsk_lba_to_chs
flpydsk_lba_to_chs-lba lba = (omega arith, omega arith, omega arith, omega arith)

-- A buffer and a length up to 2 ^ 32 that the transfer can serve: the buffer lies below 16 MB,
-- and is of at most 64 KB that end in the block of 64 KB in which they begin.
abbrev pub IsDmaBuffer : ℕ → ℕ → Type 0
IsDmaBuffer buffer length =
    (buffer < 0x100_0000) × (length ≤ 0x1_0000) × (buffer % 0x1_0000 + length ≤ 0x1_0000)

has_buffer_issue_iff :
    (buffer length : ℕ)
    → buffer < 0x1_0000_0000
    → 1 ≤ length
    → length ≤ 0x1_0000_0000
    → (has_buffer_issue buffer length ≡ false) ↔ IsDmaBuffer buffer length
unfolding has_buffer_issue
has_buffer_issue_iff buffer length hb h1 hl = (
  λ h. ground (arith, bit_and_mask 16 (u32 buffer)),
  λ h. ground (arith, bit_and_mask 16 (u32 buffer)),
)

-- The bytes written to a port, the latest first.
abbrev pub values : ℕ → Ports → List ℕ
values port [] = []
values port ((r, v) ∷ q) = if r == port then v ∷ values port q else values port q

abbrev pub latest : List ℕ → ℕ
latest [] = 0
latest (v ∷ vs) = v

-- A register of 16 bits takes its low byte first.
abbrev pub register_of : List ℕ → ℕ
register_of [] = 0
register_of (low ∷ []) = low
register_of (high ∷ low ∷ vs) = low + 0x100 * high

-- Channel 2 is set to a single transfer from the drive, to the buffer at the 24-bit address that the
-- address and the page register make, of one byte more than the count register says.
abbrev pub IsProgrammed : ℕ → ℕ → Ports → Type 0
IsProgrammed buffer length q =
    (register_of (values dma0_chan2_addr_reg q)
        + 0x1_0000 * latest (values dma_page_chan2_addrbyte2 q)
      ≡ buffer)
    × (register_of (values dma0_chan2_count_reg q) + 1 ≡ length)
    × (latest (values dma0_mode_reg q) ≡ 0x46)

-- For a buffer below 4 GB and a length from 1 to 2 ^ 32 the buffer and the length are accepted if and
-- only if the transfer can serve them. If they are, then the last writes to the ports leave the
-- buffer's address in the address and the page register of channel 2, the length less 1 in its
-- count register, and the mode of a single transfer from the drive. If they are not, then no port is
-- written.
pub dma_initialize_floppy-accepts :
    (buffer length : ℕ) (p : Ports)
    → buffer < 0x1_0000_0000
    → 1 ≤ length
    → length ≤ 0x1_0000_0000
    → Ensures
        (λ (accepted, q).
          ((accepted ≡ true) ↔ IsDmaBuffer buffer length)
          × (accepted ≡ true → IsProgrammed buffer length q)
          × (accepted ≡ false → q ≡ p))
        (dma_initialize_floppy buffer length p)
unfolding dma_initialize_floppy dma_mask_channel dma_set_read dma_set_mode dma_reset
    dma_reset_flipflop dma_set_address dma_set_count dma_set_external_page_register dma_unmask_all
dma_initialize_floppy-accepts buffer length p hb h1 hl =
    let (out, back) = has_buffer_issue_iff buffer length hb h1 hl in
    elim (Bool-cases (has_buffer_issue buffer length)) [
      | inl e ↦ rw e (
        (λ t. absurd (ground arith), λ h. absurd (ground (arith, back h))),
        λ t. absurd (ground arith),
        λ t. refl,
      )
      | inr e ↦
          let (low, short, inside) = out e in
          rw e (
            (λ t. out e, λ h. refl),
            λ t. (omega (arith, low), omega (arith, short), refl),
            λ t. absurd (ground arith),
          )
    ]
