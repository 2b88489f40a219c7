-- ===== src/Kernel/Interrupts/Simulation.antt =====
-- The kernel's parts under interrupts and reads of the keyboard, in any order, as the queues of their
-- abstract view (src/kernel/interrupts.c).
use c4os.Common.{
  ℕ, ◌+◌, ◌<◌, ◌≡◌, ◌≢◌, refl, arith, ap, sym, subst, ◌∙◌, Bool, true, false, Option, some, List,
  [], ◌∷◌, ◌++◌, ◌>>=◌, All, length, length-append, update, u32, ==_self, Ensures, Ensures-bind,
}
use c4os.Ring.{Linked, Linked-rotate}
use c4os.Multitasking.{Registers, is_suspended, max_threads}
use c4os.Multitasking.Schedule.{first_ready, first_ready-behind, first_ready-before, same_asleep}
use c4os.Multitasking.Switch.{Switched}
use c4os.Tty.Keys.{Keyboard, in_scancode, keyboard_interrupt}
use c4os.Tty.Keys.Queue.{Holds, keyboard_interrupt-Holds, in_scancode-Holds, in_scancode_empty}
use c4os.Kernel.Interrupts.{Kernel, irq_handler}
use c4os.Kernel.Interrupts.Dispatch.{irq_handler-Switched, irq_handler_returns}
use c4os.Kernel.Interrupts.Events.{
  Event, interrupt, Output, returns, gives, handle, handle_all, View, tick, Step, turn, stay, key,
  floppy, other, take_key, no_key, Steps, here, next,
}

-- The kernel is in the state that the view describes. The running thread may run, and its address space is
-- the one that is loaded.
pub record Shows (k : Kernel) (v : View) : Type 0 where
  pub ticks : k.timer.pit_ticks ≡ u32 v.ticks
  pub running : k.tasks.current_thread ≡ v.running
  pub ring : Linked k.tasks.items.next k.tasks.items.prev v.running v.others v.running
  pub few : length v.others < max_threads
  pub enabled : k.tasks.multitasking_enabled ≡ true
  pub saved : k.tasks.state ≡ v.saved
  pub asleep : (x : ℕ) → is_suspended k.tasks x ≡ v.asleep x
  pub awake : v.asleep v.running ≡ false
  pub space : k.tasks.cr3 ≡ k.tasks.page_dir (k.tasks.process v.running)
  pub unread : Holds k.keyboard v.unread
  pub floppy_called : k.floppy.irq_received ≡ v.floppy_called

-- What an event comes to.
abbrev Comes : Output → View → Output × Kernel → Type 0
Comes o u r = (r.0 ≡ o) × Shows r.1 u

-- The same of a list of events.
abbrev pub AllCome : List Output → View → List Output × Kernel → Type 0
AllCome os u r = (r.0 ≡ os) × Shows r.1 u

All-asleep :
    (k : Kernel) (v : View)
    → Shows k v
    → (xs : List ℕ) → All (λ x. v.asleep x ≡ true) xs
    → All (λ x. is_suspended k.tasks x ≡ true) xs
All-asleep k v s [] a = tt
All-asleep k v s (x ∷ xs) a = (s.asleep x ∙ a.0, All-asleep k v s xs a.1)

module _ (printf_call : Registers → Kernel → Option (ℕ × Kernel)) where
  -- After a switch to the thread `r`, with the others in a new order.
  Switched-Shows :
      (k k' : Kernel) (v : View) (regs regs' : Registers) (r : ℕ) (others : List ℕ)
      → Shows k v
      → Switched k.tasks regs r (regs', k'.tasks)
      → k'.timer.pit_ticks ≡ u32 (k.timer.pit_ticks + 1)
      → k'.keyboard ≡ k.keyboard
      → k'.floppy ≡ k.floppy
      → Linked k.tasks.items.next k.tasks.items.prev r others r
      → length others < max_threads
      → v.asleep r ≡ false
      → Comes
          (returns ((tick regs v).saved r))
          (record (tick regs v) { running = r; others = others })
          (returns regs', k')
  Switched-Shows k k' v regs regs' r others s w t kb fl ring few awake = (
    ap returns (w.loaded ∙ ap (λ f. f r) saved),
    record {
      ticks = t ∙ omega (arith, s.ticks);
      running = w.thread;
      ring = rw w.same_items ring;
      few = few;
      enabled = w.same_enabled ∙ s.enabled;
      saved = w.saved ∙ saved;
      asleep = λ x.
          same_asleep k.tasks k'.tasks x w.same_process w.same_thread_suspend w.same_process_suspend
          ∙ s.asleep x;
      awake = awake;
      space = w.address_space ∙ rw (w.same_page_dir, w.same_process) refl;
      unread = rw kb s.unread;
      floppy_called = ap (λ f. f.irq_received) fl ∙ s.floppy_called;
    },
  )
    where
      saved : update k.tasks.state k.tasks.current_thread regs ≡ update v.saved v.running regs
      saved = rw (s.running, s.saved) refl

  -- A tick on which the thread `r` of the ring is the first that may run.
  tick-Comes :
      (k : Kernel) (v : View) (code status esp : ℕ) (regs : Registers) (xs : List ℕ) (r : ℕ)
      (others : List ℕ)
      → Shows k v
      → first_ready k.tasks (v.others ++ v.running ∷ []) ≡ some r
      → Linked k.tasks.items.next k.tasks.items.prev r others r
      → length others < max_threads
      → v.asleep r ≡ false
      → Ensures
          (Comes
            (returns ((tick regs v).saved r))
            (record (tick regs v) { running = r; others = others }))
          (handle printf_call (interrupt 0 code status esp regs) k)
  tick-Comes k v code status esp regs xs r others s ready ring few awake =
      Ensures-bind _
        (Comes (returns ((tick regs v).saved r))
          (record (tick regs v) { running = r; others = others }))
        (irq_handler printf_call code status 0 esp regs k) (λ q. some (returns q.0, q.1))
        (irq_handler-Switched printf_call code status esp regs k v.others r s.enabled
          (rw s.running s.ring) s.few
          (subst (λ c. first_ready k.tasks (v.others ++ c ∷ []) ≡ some r) (sym s.running) ready))
        (λ q h. Switched-Shows k q.1 v regs q.0 r others s h.0 h.1 h.2 h.3 ring few awake)

  turned :
      (v : View) (before : List ℕ) (r : ℕ) (behind : List ℕ)
      → v.others ≡ before ++ r ∷ behind
      → length (behind ++ v.running ∷ before) ≡ length v.others
  turned v before r behind e =
      rw e (
        omega (arith, length-append before (r ∷ behind), length-append behind (v.running ∷ before)))

  -- An interrupt that is neither the timer's nor a system call.
  quiet-Comes :
      (index code status esp : ℕ) (regs : Registers) (k : Kernel) (v : View) (unread : List ℕ)
      (called : Bool)
      → Shows k v
      → index ≢ 0
      → index ≢ 16
      → ((kb : Keyboard)
          → (index ≢ 1 → kb ≡ k.keyboard)
          → (index ≡ 1 → kb ≡ keyboard_interrupt code status k.keyboard)
          → Holds kb unread)
      → ((q : Kernel)
          → (index ≢ 6 → q.floppy ≡ k.floppy)
          → (index ≡ 6 → q.floppy.irq_received ≡ true)
          → q.floppy.irq_received ≡ called)
      → Ensures
          (Comes (returns regs) (record v { unread = unread; floppy_called = called }))
          (handle printf_call (interrupt index code status esp regs) k)
  quiet-Comes index code status esp regs k v unread called s z sys keys irq =
      Ensures-bind _ (Comes (returns regs) (record v { unread = unread; floppy_called = called }))
        (irq_handler printf_call code status index esp regs k) (λ q. some (returns q.0, q.1))
        (irq_handler_returns printf_call code status index esp regs k z sys)
        (λ q h. (
          ap returns h.0,
          record {
            ticks = ap (λ t. t.pit_ticks) h.1 ∙ s.ticks;
            running = rw h.2 s.running;
            ring = rw h.2 s.ring;
            few = s.few;
            enabled = rw h.2 s.enabled;
            saved = rw h.2 s.saved;
            asleep = rw h.2 s.asleep;
            awake = s.awake;
            space = rw h.2 s.space;
            unread = keys q.1.keyboard h.3 h.5;
            floppy_called = irq q.1 h.4 h.6;
          },
        ))

  -- A read that leaves `unread`.
  read-Shows :
      (k : Kernel) (v : View) (kb : Keyboard) (unread : List ℕ)
      → Shows k v
      → Holds kb unread
      → Shows (record k { keyboard = kb }) (record v { unread = unread })
  read-Shows k v kb unread s h = record {
    ticks = s.ticks;
    running = s.running;
    ring = s.ring;
    few = s.few;
    enabled = s.enabled;
    saved = s.saved;
    asleep = s.asleep;
    awake = s.awake;
    space = s.space;
    unread = h;
    floppy_called = s.floppy_called;
  }

  Step-Comes :
      (k : Kernel) (v u : View) (e : Event) (o : Output)
      → Shows k v
      → Step v e o u
      → Ensures (Comes o u) (handle printf_call e k)
  Step-Comes k v u e o s (turn code status esp regs before r behind at passed awake) =
      tick-Comes k v code status esp regs v.others r (behind ++ v.running ∷ before) s
        (subst (λ l. first_ready k.tasks (l ++ v.running ∷ []) ≡ some r) (sym at)
          (first_ready-before k.tasks before r behind (v.running ∷ [])
            (All-asleep k v s before passed) (s.asleep r ∙ awake)))
        (Linked-rotate k.tasks.items.next k.tasks.items.prev v.running before r behind (
          subst (λ l. Linked k.tasks.items.next k.tasks.items.prev v.running l v.running) at
            s.ring))
        (omega (arith, s.few, turned v before r behind at)) awake
  Step-Comes k v u e o s (stay code status esp regs passed) =
      subst
        (λ g.
          Ensures (Comes (returns g) (tick regs v))
            (handle printf_call (interrupt 0 code status esp regs) k))
        back
        (tick-Comes k v code status esp regs v.others v.running v.others s
          (first_ready-behind k.tasks v.others v.running [] (All-asleep k v s v.others passed)
            (s.asleep v.running ∙ s.awake))
          s.ring s.few s.awake)
    where
      back : update v.saved v.running regs v.running ≡ regs
      back = rw (==_self v.running) refl
  Step-Comes k v u e o s (key code status esp regs room) =
      quiet-Comes 1 code status esp regs k v (v.unread ++ code ∷ []) v.floppy_called s
        (λ e. omega arith) (λ e. omega arith)
        (λ kb off on.
          rw (on refl) (keyboard_interrupt-Holds k.keyboard v.unread code status s.unread room))
        (λ q off on. ap (λ f. f.irq_received) (off (λ e. omega arith)) ∙ s.floppy_called)
  Step-Comes k v u e o s (floppy code status esp regs) =
      quiet-Comes 6 code status esp regs k v v.unread true s (λ e. omega arith) (λ e. omega arith)
        (λ kb off on. rw (off (λ e. omega arith)) s.unread) (λ q off on. on refl)
  Step-Comes k v u e o s (other index code status esp regs off) =
      quiet-Comes index code status esp regs k v v.unread v.floppy_called s off.0 off.3
        (λ kb same on. rw (same off.1) s.unread)
        (λ q same on. ap (λ f. f.irq_received) (same off.2) ∙ s.floppy_called)
  Step-Comes k v u e o s (take_key code unread at) =
      let h = in_scancode-Holds k.keyboard code unread (subst (Holds k.keyboard) at s.unread) in
      (ap gives h.0, read-Shows k v (in_scancode k.keyboard).1 unread s h.1)
  Step-Comes k v u e o s (no_key at) =
      let empty = in_scancode_empty k.keyboard (subst (Holds k.keyboard) at s.unread) in
      (ap (λ r. gives r.0) empty, rw empty s)

  -- What the interrupts of the timer, the keyboard, the floppy disk and unused lines do, with reads of
  -- the keyboard between them, in any order that the view allows: the kernel returns from each, gives what
  -- the view gives, and is in the state that the view comes to.
  pub handle_all-Steps :
      (k : Kernel) (v u : View) (es : List Event) (os : List Output)
      → Shows k v
      → Steps v es os u
      → Ensures (AllCome os u) (handle_all printf_call es k)
  handle_all-Steps k v u es os s here = (refl, s)
  handle_all-Steps k v u es os s (next {e = e} {o = o} {u = w} {es = es'} {os = os'} st rest) =
      Ensures-bind (Comes o w) (AllCome (o ∷ os') u) (handle printf_call e k)
        (λ r. handle_all printf_call es' r.1 >>= λ q. some (r.0 ∷ q.0, q.1))
        (Step-Comes k v w e o s st)
        (λ r h.
          Ensures-bind (AllCome os' u) (AllCome (o ∷ os') u) (handle_all printf_call es' r.1)
            (λ q. some (r.0 ∷ q.0, q.1)) (handle_all-Steps r.1 w u es' os' h.1 rest)
            (λ q g. (ap (λ x. x ∷ q.0) h.0 ∙ ap (λ l. o ∷ l) g.0, g.1)))
