-- ===== src/Kernel/Interrupts/Events.antt =====
-- What the kernel promises of interrupts and of the reader of the keyboard, in any order: an abstract
-- state and its steps. The events run on the model of src/kernel/interrupts.c.
use c4os.Common.{
  ℕ, ◌+◌, ◌<◌, ◌≡◌, ◌≢◌, Bool, true, false, Option, some, List, [], ◌∷◌, ◌++◌, ◌>>=◌, All, length,
  update,
}
use c4os.Multitasking.{Registers}
use c4os.Tty.Keys.{in_scancode}
use c4os.Kernel.Interrupts.{Kernel, irq_handler}

-- An interrupt, with what the keyboard's ports give, the stack pointer and the registers that it meets;
-- or a read of the keyboard's buffer.
pub data Event : Type 0 where
  interrupt : ℕ → ℕ → ℕ → ℕ → Registers → Event
  read_key : Event

-- The registers to which an interrupt returns, or the scancode that is read.
pub data Output : Type 0 where
  returns : Registers → Output
  gives : ℕ → Output

module _ (printf_call : Registers → Kernel → Option (ℕ × Kernel)) where
  abbrev pub handle : Event → Kernel → Option (Output × Kernel)
  handle (interrupt index key_code status esp regs) k =
      irq_handler printf_call key_code status index esp regs k >>= λ r. some (returns r.0, r.1)
  handle read_key k =
      let (code, keyboard) = in_scancode k.keyboard in
      some (gives code, record k { keyboard = keyboard })

  abbrev pub handle_all : List Event → Kernel → Option (List Output × Kernel)
  handle_all [] k = some ([], k)
  handle_all (e ∷ es) k = handle e k >>= λ r. handle_all es r.1 >>= λ q. some (r.0 ∷ q.0, q.1)

-- The threads are a queue behind the running one, the key buffer is a queue, and ticks are counted
-- without end.
pub record View : Type 0 where
  pub ticks : ℕ
  pub running : ℕ
  pub others : List ℕ
  pub saved : ℕ → Registers
  pub asleep : ℕ → Bool
  pub unread : List ℕ
  pub floppy_called : Bool

abbrev pub tick : Registers → View → View
tick regs v = record v { ticks = v.ticks + 1; saved = update v.saved v.running regs }

pub data Step (v : View) : Event → Output → View → Type 0 where
  -- The first thread in the queue that may run takes its turn; the running one goes to the end, and those
  -- that were passed over go behind it.
  turn :
      (code status esp : ℕ) (regs : Registers) (before : List ℕ) (r : ℕ) (behind : List ℕ)
      → v.others ≡ before ++ r ∷ behind
      → All (λ x. v.asleep x ≡ true) before
      → v.asleep r ≡ false
      → Step v
          (interrupt 0 code status esp regs)
          (returns ((tick regs v).saved r))
          (record (tick regs v) { running = r; others = behind ++ v.running ∷ before })
  -- No other thread may run.
  stay :
      (code status esp : ℕ) (regs : Registers)
      → All (λ x. v.asleep x ≡ true) v.others
      → Step v (interrupt 0 code status esp regs) (returns regs) (tick regs v)
  key :
      (code status esp : ℕ) (regs : Registers)
      → length v.unread < 15
      → Step v
          (interrupt 1 code status esp regs)
          (returns regs)
          (record v { unread = v.unread ++ code ∷ [] })
  floppy :
      (code status esp : ℕ) (regs : Registers)
      → Step v (interrupt 6 code status esp regs) (returns regs) (record v { floppy_called = true })
  other :
      (index code status esp : ℕ) (regs : Registers)
      → (index ≢ 0) × (index ≢ 1) × (index ≢ 6) × (index ≢ 16)
      → Step v (interrupt index code status esp regs) (returns regs) v
  take_key :
      (code : ℕ) (unread : List ℕ)
      → v.unread ≡ code ∷ unread
      → Step v read_key (gives code) (record v { unread = unread })
  no_key : v.unread ≡ [] → Step v read_key (gives 0) v

-- The steps that a list of events takes, with what comes of each.
pub data Steps : View → List Event → List Output → View → Type 0 where
  here : {v : View} → Steps v [] [] v
  next :
      {v : View} {e : Event} {o : Output} {u : View} {es : List Event} {os : List Output} {w : View}
      → Step v e o u
      → Steps u es os w
      → Steps v (e ∷ es) (o ∷ os) w
