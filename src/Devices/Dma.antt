-- ===== src/Devices/Dma.antt =====
-- The DMA controller of src/drivers/dma.c, as the port writes that each function makes.
use c4os.Common.{
  ℕ, ◌-◌, ◌^◌, Option, none, some, List, [], ◌∷◌, ◌==◌, leb, ltb, if◌then◌else◌, bit_or, get_or,
  ◌>>=◌,
}
use c4os.Devices.Registers.{
  dma0_chan0_addr_reg, dma0_chan0_count_reg, dma0_chan1_addr_reg, dma0_chan1_count_reg,
  dma0_chan2_addr_reg, dma0_chan2_count_reg, dma0_chan3_addr_reg, dma0_chan3_count_reg,
  dma0_chanmask_reg, dma0_mode_reg, dma0_clearbyte_flipflop_reg, dma0_temp_reg, dma1_chan4_addr_reg,
  dma1_chan4_count_reg, dma1_chan5_addr_reg, dma1_chan5_count_reg, dma1_chan6_addr_reg,
  dma1_chan6_count_reg, dma1_chan7_addr_reg, dma1_chan7_count_reg, dma_page_chan2_addrbyte2,
  dma_page_chan3_addrbyte2, dma_page_chan1_addrbyte2, dma_page_chan6_addrbyte2,
  dma_page_chan7_addrbyte2, dma_page_chan5_addrbyte2, dma1_chanmask_reg, dma1_mode_reg,
  dma1_clearbyte_flipflop_reg, dma1_unmask_all_reg, dma_mode_read_transfer, dma_mode_write_transfer,
  dma_mode_transfer_single,
}
use c4os.Devices.Ports.{Ports, outportb}

-- `1 << (channel - 1)` is not defined for channel 0: `none`.
unfoldable pub dma_mask_channel : ℕ → Ports → Option Ports
dma_mask_channel channel p =
    if channel == 0
    then none
    else (if leb channel 4
        then some (outportb dma0_chanmask_reg (2 ^ (channel - 1)) p)
        else some (outportb dma1_chanmask_reg (2 ^ (channel - 5)) p))

unfoldable pub dma_unmask_channel : ℕ → Ports → Ports
dma_unmask_channel channel p =
    if leb channel 4
    then outportb dma0_chanmask_reg channel p
    else outportb dma1_chanmask_reg channel p

unfoldable pub dma_unmask_all : Ports → Ports
dma_unmask_all p = outportb dma1_unmask_all_reg 0xff p

unfoldable pub dma_reset : Ports → Ports
dma_reset p = outportb dma0_temp_reg 0xff p

unfoldable pub dma_reset_flipflop : ℕ → Ports → Ports
dma_reset_flipflop channel p =
    outportb (if ltb channel 4 then dma0_clearbyte_flipflop_reg else dma1_clearbyte_flipflop_reg)
      0xaa p

-- The address and the count registers of the channels 0 to 7; channel 8 has no case and keeps the
-- port 0.
abbrev pub address_ports : List ℕ
address_ports =
    dma0_chan0_addr_reg ∷ dma0_chan1_addr_reg ∷ dma0_chan2_addr_reg ∷ dma0_chan3_addr_reg
    ∷ dma1_chan4_addr_reg ∷ dma1_chan5_addr_reg ∷ dma1_chan6_addr_reg ∷ dma1_chan7_addr_reg ∷ []

abbrev pub count_ports : List ℕ
count_ports =
    dma0_chan0_count_reg ∷ dma0_chan1_count_reg ∷ dma0_chan2_count_reg ∷ dma0_chan3_count_reg
    ∷ dma1_chan4_count_reg ∷ dma1_chan5_count_reg ∷ dma1_chan6_count_reg ∷ dma1_chan7_count_reg ∷ []

unfoldable pub dma_set_address : ℕ → ℕ → ℕ → Ports → Ports
dma_set_address channel low high p =
    if ltb 8 channel
    then p
    else (let port = get_or address_ports channel 0 in outportb port high (outportb port low p))

unfoldable pub dma_set_count : ℕ → ℕ → ℕ → Ports → Ports
dma_set_count channel low high p =
    if ltb 8 channel
    then p
    else (let port = get_or count_ports channel 0 in outportb port high (outportb port low p))

unfoldable pub dma_set_mode : ℕ → ℕ → Ports → Option Ports
unfolding dma_mask_channel dma_unmask_all
dma_set_mode channel mode p0 = do
  p1 ← dma_mask_channel channel p0
  let chan = if ltb channel 4 then channel else channel - 4
  let p2 = outportb (if ltb channel 4 then dma0_mode_reg else dma1_mode_reg) (bit_or chan mode) p1
  some (dma_unmask_all p2)

unfoldable pub dma_set_read : ℕ → Ports → Option Ports
unfolding dma_set_mode
dma_set_read channel p =
    dma_set_mode channel (bit_or dma_mode_read_transfer dma_mode_transfer_single) p

unfoldable pub dma_set_write : ℕ → Ports → Option Ports
unfolding dma_set_mode
dma_set_write channel p =
    dma_set_mode channel (bit_or dma_mode_write_transfer dma_mode_transfer_single) p

-- The registers 1 to 7; register 4 is never written, and the others have no case and keep port 0.
abbrev pub page_ports : List ℕ
page_ports =
    0 ∷ dma_page_chan1_addrbyte2 ∷ dma_page_chan2_addrbyte2 ∷ dma_page_chan3_addrbyte2 ∷ 0
    ∷ dma_page_chan5_addrbyte2 ∷ dma_page_chan6_addrbyte2 ∷ dma_page_chan7_addrbyte2 ∷ []

unfoldable pub dma_set_external_page_register : ℕ → ℕ → Ports → Ports
dma_set_external_page_register reg val p =
    if ltb 14 reg then p else (if reg == 4 then p else outportb (get_or page_ports reg 0) val p)
