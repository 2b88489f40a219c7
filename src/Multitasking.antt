-- ===== src/Multitasking.antt =====
-- The scheduler of src/kernel/multitasking.c (`switch_task`, `tss_set_stack`, the register state
-- that `create_thread` prepares). Threads and processes are addresses; each field of `Thread` and
-- `Process` (src/include/multitasking.h) is a function of the address.
pub mod Schedule
pub mod Switch
pub mod Tables
pub mod Create
use c4os.Common.{
  ℕ, zero, suc, ◌+◌, ◌*◌, Bool, true, false, ◌||◌, Option, none, some, ◌==◌, not, if◌then◌else◌,
  ◌>>=◌, u8, add32, update, shl, u32,
}
use c4os.Stdlib.Lists

-- `Registers` of src/include/interrupts.h
pub record Registers : Type 0 where
  pub gs : ℕ
  pub fs : ℕ
  pub es : ℕ
  pub ds : ℕ
  pub ebp : ℕ
  pub edi : ℕ
  pub esi : ℕ
  pub edx : ℕ
  pub ecx : ℕ
  pub ebx : ℕ
  pub eax : ℕ
  pub eip : ℕ
  pub cs : ℕ
  pub eflags : ℕ
  pub esp : ℕ
  pub ss : ℕ

pub record Tasks : Type 0 where
  pub multitasking_enabled : Bool
  -- the list items at the head of each thread and process
  pub items : Lists.Heap
  -- `Thread`
  pub process : ℕ → ℕ
  pub thread_suspend : ℕ → Bool
  pub state : ℕ → Registers
  -- `Process`
  pub process_suspend : ℕ → Bool
  pub page_dir : ℕ → ℕ
  pub current_process : ℕ
  pub current_thread : ℕ
  -- the register CR3, the two fields of the TSS that are written, and the character at the end of
  -- the first row of the screen
  pub cr3 : ℕ
  pub ss0 : ℕ
  pub esp0 : ℕ
  pub indicator : ℕ

-- Each thread has a page of its own, so there are fewer than this.
abbrev pub max_threads : ℕ
max_threads = 0x10_0000

unfoldable pub is_suspended : Tasks → ℕ → Bool
is_suspended t thread = t.thread_suspend thread || t.process_suspend (t.process thread)

-- The `do` loop of `switch_task`: the next thread of the ring that is not suspended.
unfoldable pub next_thread : ℕ → Tasks → ℕ → Option ℕ
unfolding is_suspended
next_thread zero t thread = none
next_thread (suc fuel) t thread =
    let next = t.items.next thread in
    let rest = next_thread fuel t next in if is_suspended t next then rest else some next

unfoldable pub tss_set_stack : ℕ → ℕ → Tasks → Tasks
tss_set_stack ss esp t = record t { ss0 = ss; esp0 = esp }

-- The state is saved first, so that of the current thread itself is the one just saved.
unfoldable pub save_state : Registers → Tasks → Tasks
save_state regs t = record t {
  indicator = u8 (t.indicator + 1);
  state = update t.state t.current_thread regs;
}

-- The registers of the chosen thread are loaded, and its address space.
unfoldable pub resume : ℕ → ℕ → Tasks → Registers × Tasks
unfolding tss_set_stack
resume esp thread t0 =
    let proc = t0.process thread in
    let t1 = record t0 {
      current_thread = thread;
      current_process = proc;
      cr3 = t0.page_dir proc;
    } in
    let t2 =
      if not (t1.page_dir t1.current_process == 0x1000)
      then tss_set_stack 0x10 (add32 esp (17 * 4)) t1
      else t1 in
    (t2.state t2.current_thread, t2)

-- The registers that the interrupt returns with, and the new state.
unfoldable pub switch_task : Registers → ℕ → Tasks → Option (Registers × Tasks)
switch_task regs esp t =
    if t.multitasking_enabled
    then (do
      let saved = save_state regs t
      thread ← next_thread max_threads saved saved.current_thread
      some (resume esp thread saved))
    else some (regs, t)

-- The register state that `create_thread` gives a thread, its stack being in place.
unfoldable pub initial_state : Bool → ℕ → ℕ → ℕ → Registers
initial_state kernel entry_point stack_base stack_size_in_pages =
    let data_selector = if kernel then 16 else 35 in
    let code_selector = if kernel then 8 else 27 in
    record {
      gs = data_selector;
      fs = data_selector;
      es = data_selector;
      ds = data_selector;
      ebp = 0;
      edi = 0;
      esi = 0;
      edx = 0;
      ecx = 0;
      ebx = 0;
      eax = 0;
      eip = entry_point;
      cs = code_selector;
      eflags = 0x202;
      esp = add32 stack_base (u32 (shl stack_size_in_pages 12));
      ss = data_selector;
    }
