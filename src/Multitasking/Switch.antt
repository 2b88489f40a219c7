-- ===== src/Multitasking/Switch.antt =====
-- What `switch_task` of src/kernel/multitasking.c saves and restores.
use mathlib.Core.Logic.{◌≢◌}
use c4os.Common.{
  ℕ, ◌<◌, ◌≡◌, refl, arith, true, false, some, List, [], ◌∷◌, ◌++◌, length, Ensures, Ensures-mono,
  if◌then◌else◌, ◌==◌, update, ◌∙◌, Bool-cases, inl, inr, subst, sym, ◌>>=◌, if_true,
}
use c4os.Ring.{Linked}
use c4os.Multitasking.{
  Registers, Tasks, is_suspended, next_thread, max_threads, save_state, resume, switch_task,
}
use c4os.Multitasking.Schedule.{first_ready, next_thread_lem}

first_ready-save_state :
    (regs : Registers) (t : Tasks) (xs : List ℕ)
    → first_ready (save_state regs t) xs ≡ first_ready t xs
unfolding first_ready is_suspended save_state
first_ready-save_state regs t [] = refl
first_ready-save_state regs t (x ∷ xs) = rw (first_ready-save_state regs t xs)

-- The state after a switch from the current thread of `t` to the thread `r`.
pub record Switched (t : Tasks) (regs : Registers) (r : ℕ) (out : Registers × Tasks) : Type 0 where
  pub thread : out.1.current_thread ≡ r
  pub proc : out.1.current_process ≡ t.process r
  pub address_space : out.1.cr3 ≡ t.page_dir (t.process r)
  pub loaded : out.0 ≡ (if r == t.current_thread then regs else t.state r)
  pub saved : out.1.state ≡ update t.state t.current_thread regs
  pub same_items : out.1.items ≡ t.items
  pub same_process : out.1.process ≡ t.process
  pub same_thread_suspend : out.1.thread_suspend ≡ t.thread_suspend
  pub same_process_suspend : out.1.process_suspend ≡ t.process_suspend
  pub same_page_dir : out.1.page_dir ≡ t.page_dir
  pub same_enabled : out.1.multitasking_enabled ≡ t.multitasking_enabled

found :
    (regs : Registers) (t : Tasks) (xs : List ℕ) (r : ℕ)
    → Linked t.items.next t.items.prev t.current_thread xs t.current_thread
    → length xs < max_threads
    → first_ready t (xs ++ t.current_thread ∷ []) ≡ some r
    → next_thread max_threads (save_state regs t) (save_state regs t).current_thread ≡ some r
unfolding save_state
found regs t xs r l f e =
    next_thread_lem (save_state regs t) xs r l f
      (first_ready-save_state regs t (xs ++ t.current_thread ∷ []) ∙ e)

resume-Switched :
    (regs : Registers) (esp : ℕ) (t : Tasks) (r : ℕ)
    → Switched t regs r (resume esp r (save_state regs t))
unfolding resume save_state
resume-Switched regs esp t r = elim (Bool-cases (t.page_dir (t.process r) == 0x1000)) [
  | inl kernel ↦ rw kernel (record {
    thread = refl;
    proc = refl;
    address_space = refl;
    loaded = refl;
    saved = refl;
    same_items = refl;
    same_process = refl;
    same_thread_suspend = refl;
    same_process_suspend = refl;
    same_page_dir = refl;
    same_enabled = refl;
  })
  | inr user ↦ rw user (record {
    thread = refl;
    proc = refl;
    address_space = refl;
    loaded = refl;
    saved = refl;
    same_items = refl;
    same_process = refl;
    same_thread_suspend = refl;
    same_process_suspend = refl;
    same_page_dir = refl;
    same_enabled = refl;
  })
]

enabled-switch_task :
    (regs : Registers) (esp : ℕ) (t : Tasks)
    → t.multitasking_enabled ≡ true
    → switch_task regs esp t ≡ (
        next_thread max_threads (save_state regs t) (save_state regs t).current_thread >>= λ thread.
        some (resume esp thread (save_state regs t)))
unfolding switch_task
enabled-switch_task regs esp t on = if_true t.multitasking_enabled _ _ on

-- With multitasking enabled and a ring of fewer than 2 ^ 20 threads beside the current one, the
-- scheduler saves the registers of the current thread, and goes to the first thread behind it in
-- the ring that may run, if one may: its process, its address space and its registers are current
-- then.
pub switch_task-Switched :
    (regs : Registers) (esp : ℕ) (t : Tasks) (xs : List ℕ) (r : ℕ)
    → t.multitasking_enabled ≡ true
    → Linked t.items.next t.items.prev t.current_thread xs t.current_thread
    → length xs < max_threads
    → first_ready t (xs ++ t.current_thread ∷ []) ≡ some r
    → Ensures (Switched t regs r) (switch_task regs esp t)
switch_task-Switched regs esp t xs r on l f e =
    subst (Ensures (Switched t regs r)) (sym (enabled-switch_task regs esp t on)) (
      subst
        (λ o.
          Ensures (Switched t regs r)
            (o >>= λ thread. some (resume esp thread (save_state regs t))))
        (sym (found regs t xs r l f e)) (resume-Switched regs esp t r))

same_suspended :
    (t u : Tasks) (x : ℕ)
    → u.process ≡ t.process
    → u.thread_suspend ≡ t.thread_suspend
    → u.process_suspend ≡ t.process_suspend
    → is_suspended u x ≡ is_suspended t x
unfolding is_suspended
same_suspended t u x p q r = rw (p, q, r)

first_ready-cons :
    (t : Tasks) (x : ℕ) (xs : List ℕ) → is_suspended t x ≡ false → first_ready t (x ∷ xs) ≡ some x
unfolding first_ready
first_ready-cons t x xs e = rw e

-- The two threads of a ring, of which the second is current after a first switch.
Switched-back :
    (regs : Registers) (t : Tasks) (b : ℕ) (o : Registers × Tasks)
    → t.multitasking_enabled ≡ true
    → Linked t.items.next t.items.prev t.current_thread (b ∷ []) t.current_thread
    → b ≢ t.current_thread
    → is_suspended t t.current_thread ≡ false
    → Switched t regs b o
    → (regs' : Registers) (esp' : ℕ)
    → Ensures
        (λ o'. (o'.0 ≡ regs) × (o'.1.current_thread ≡ t.current_thread))
        (switch_task regs' esp' o.1)
Switched-back regs t b o on ring ne awake s regs' esp' =
    Ensures-mono (Switched o.1 regs' a)
      (λ (o' : Registers × Tasks). (o'.0 ≡ regs) × (o'.1.current_thread ≡ a))
      (switch_task regs' esp' o.1)
      (switch_task-Switched regs' esp' o.1 (a ∷ []) a (s.same_enabled ∙ on) ring' (omega arith)
        ready)
      (λ o' k. (k.loaded ∙ restored, k.thread))
  where
    a : ℕ
    a = t.current_thread

    ring' : Linked o.1.items.next o.1.items.prev o.1.current_thread (a ∷ []) o.1.current_thread
    ring' = rw (s.thread, s.same_items) (ring.2.0, ring.2.1, (ring.0, ring.1))

    awake' : is_suspended o.1 a ≡ false
    awake' =
        same_suspended t o.1 a s.same_process s.same_thread_suspend s.same_process_suspend ∙ awake

    ready : first_ready o.1 (a ∷ o.1.current_thread ∷ []) ≡ some a
    ready = first_ready-cons o.1 a (o.1.current_thread ∷ []) awake'

    restored : (if a == o.1.current_thread then regs' else o.1.state a) ≡ regs
    restored = rw (s.thread, s.saved) (ground (arith, ne))

-- With multitasking enabled and two threads in the ring, neither suspended, a thread gets back at the second switch the
-- registers that it had at the first, whatever the other thread left in its own.
switch_task_back :
    (regs : Registers) (esp : ℕ) (t : Tasks) (b : ℕ)
    → t.multitasking_enabled ≡ true
    → Linked t.items.next t.items.prev t.current_thread (b ∷ []) t.current_thread
    → b ≢ t.current_thread
    → is_suspended t t.current_thread ≡ false
    → is_suspended t b ≡ false
    → Ensures
        (λ o.
          (regs' : Registers) (esp' : ℕ)
          → Ensures
              (λ o'. (o'.0 ≡ regs) × (o'.1.current_thread ≡ t.current_thread))
              (switch_task regs' esp' o.1))
        (switch_task regs esp t)
switch_task_back regs esp t b on ring ne awake awake_b =
    Ensures-mono (Switched t regs b) _ (switch_task regs esp t)
      (switch_task-Switched regs esp t (b ∷ []) b on ring (omega arith)
        (first_ready-cons t b (t.current_thread ∷ []) awake_b))
      (λ o s. Switched-back regs t b o on ring ne awake s)
