-- ===== src/Devices/Timer.antt =====
-- The programmable interval timer of src/kernel/timer.c.
pub mod Counter
use c4os.Common.{
  ℕ, zero, suc, ◌+◌, ◌-◌, ◌/◌, ◌%◌, Option, none, some, ◌==◌, ltb, if◌then◌else◌, u8, u16, u32, shr,
  add32, bit_and, bit_or,
}
use c4os.Devices.Registers.{
  i86_pit_ocw_counter_0, i86_pit_reg_counter0, i86_pit_ocw_counter_1, i86_pit_reg_counter1,
  i86_pit_reg_counter2, i86_pit_reg_command, i86_pit_ocw_mask_mode, i86_pit_ocw_mask_rl,
  i86_pit_ocw_rl_data, i86_pit_ocw_mask_counter,
}
use c4os.Devices.Ports.{Ports, outportb}

pub record Timer : Type 0 where
  pub pit_ticks : ℕ
  pub ports : Ports

unfoldable pub inc_pit_ticks : Timer → Timer
inc_pit_ticks t = record t { pit_ticks = add32 t.pit_ticks 1 }

unfoldable pub get_tick_count : Timer → ℕ
get_tick_count t = t.pit_ticks

-- Any number but those of the first two counters goes to the third.
unfoldable pub counter_port : ℕ → ℕ
counter_port counter =
    if counter == i86_pit_ocw_counter_0
    then i86_pit_reg_counter0
    else (if counter == i86_pit_ocw_counter_1 then i86_pit_reg_counter1 else i86_pit_reg_counter2)

unfoldable pub i86_pit_send_command : ℕ → Timer → Timer
i86_pit_send_command cmd t = record t { ports = outportb i86_pit_reg_command cmd t.ports }

unfoldable pub i86_pit_send_data : ℕ → ℕ → Timer → Timer
unfolding counter_port
i86_pit_send_data word counter t = record t {
  ports = outportb (counter_port counter) (u8 word) t.ports;
}

-- The port that is read; what it gives is the device's.
unfoldable pub i86_pit_read_data : (ℕ → ℕ) → ℕ → ℕ
unfolding counter_port
i86_pit_read_data inportb counter = u8 (inportb (counter_port counter))

-- The control word: `~MASK` is taken in eight bits.
unfoldable pub control_word : ℕ → ℕ → ℕ
control_word counter mode =
    let ocw1 = u8 (bit_or (bit_and 0 (0xff - i86_pit_ocw_mask_mode)) mode) in
    let ocw2 = u8 (bit_or (bit_and ocw1 (0xff - i86_pit_ocw_mask_rl)) i86_pit_ocw_rl_data) in
    u8 (bit_or (bit_and ocw2 (0xff - i86_pit_ocw_mask_counter)) counter)

-- The division by `(uint16)freq` faults where that is 0: `none`.
unfoldable pub i86_pit_start_counter : ℕ → ℕ → ℕ → Timer → Option Timer
unfolding control_word i86_pit_send_command i86_pit_send_data
i86_pit_start_counter freq counter mode t0 =
    if freq == 0
    then some t0
    else (if u16 freq == 0
        then none
        else (let divisor = u16 (1193181 / u16 freq) in
            let t1 = i86_pit_send_command (control_word counter mode) t0 in
            let t2 = i86_pit_send_data (divisor % 0x100) 0 t1 in
            let t3 = i86_pit_send_data (shr divisor 8 % 0x100) 0 t2 in
            some (record t3 { pit_ticks = 0 })))

-- `sleep`: `ticks_at n` is the tick count that the test of the loop reads in round `n`. The result
-- is the number of rounds; both sides of the test are unsigned.
unfoldable pub sleep_loop : ℕ → (ℕ → ℕ) → ℕ → ℕ → Option ℕ
sleep_loop zero ticks_at ticks round = none
sleep_loop (suc fuel) ticks_at ticks round =
    let rest = sleep_loop fuel ticks_at ticks (round + 1) in
    if ltb (ticks_at round) ticks then rest else some round

unfoldable pub sleep : ℕ → ℕ → (ℕ → ℕ) → Timer → Option ℕ
unfolding sleep_loop get_tick_count
sleep fuel ms ticks_at t = sleep_loop fuel ticks_at (add32 ms (get_tick_count t)) 0
