-- ===== src/Kernel/Interrupts/Fairness.antt =====
-- Each thread that may run gets its turn (src/kernel/multitasking.c under src/kernel/interrupts.c).
use c4os.Common.{
  ℕ, suc, ◌+◌, ◌<◌, ◌≤◌, ◌≡◌, refl, arith, ap, sym, subst, ◌∙◌, Bool, true, false, Option, List, [],
  ◌∷◌, ◌++◌, All, length, length-append, ◌⊎◌, inl, inr, ◌==◌, if◌then◌else◌, Ensures, Ensures-mono,
}
use mathlib.Core.List.{append_assoc}
use c4os.Multitasking.{Registers}
use c4os.Kernel.Interrupts.{Kernel}
use c4os.Kernel.Interrupts.Events.{
  Event, interrupt, read_key, Output, handle_all, View, Step, turn, stay, key, floppy, other,
  take_key, no_key, Steps, here, next,
}
use c4os.Kernel.Interrupts.Simulation.{Shows, AllCome, handle_all-Steps}

-- The timer interrupts of some events.
abbrev pub count_ticks : List Event → ℕ
count_ticks [] = 0
count_ticks (interrupt index code status esp regs ∷ es) =
    if index == 0 then suc (count_ticks es) else count_ticks es
count_ticks (read_key ∷ es) = count_ticks es

-- Where a thread that may run stands, if those before another place are asleep: at that place, or behind.
record Behind (before : List ℕ) (r : ℕ) (behind before' : List ℕ) (r' : ℕ) (behind' : List ℕ)
    : Type 0 where
  middle : List ℕ
  here_ : before ≡ before' ++ r' ∷ middle
  there : behind' ≡ middle ++ r ∷ behind

place :
    (asleep : ℕ → Bool) (before : List ℕ) (r : ℕ) (behind before' : List ℕ) (r' : ℕ)
    (behind' : List ℕ)
    → before ++ r ∷ behind ≡ before' ++ r' ∷ behind'
    → All (λ x. asleep x ≡ true) before'
    → asleep r ≡ false
    → (r' ≡ r) ⊎ Behind before r behind before' r' behind'
place asleep [] r behind [] r' behind' e a w = inl (cc)
place asleep [] r behind (x ∷ before') r' behind' e a w =
    let at : r ≡ x = cc in let both : false ≡ true = sym w ∙ ap asleep at ∙ a.0 in cc
place asleep (y ∷ before) r behind [] r' behind' e a w =
    inr (record { middle = before; here_ = cc; there = cc })
place asleep (y ∷ before) r behind (x ∷ before') r' behind' e a w =
    elim (place asleep before r behind before' r' behind' (cc) a.1 w) [
      | inl same ↦ inl same
      | inr b ↦ inr (record { middle = b.middle; here_ = cc (b.here_); there = b.there })
    ]

-- One of those that are asleep.
not_asleep :
    (asleep : ℕ → Bool) (before : List ℕ) (r : ℕ) (behind : List ℕ)
    → All (λ x. asleep x ≡ true) (before ++ r ∷ behind)
    → asleep r ≡ true
not_asleep asleep [] r behind a = a.0
not_asleep asleep (x ∷ before) r behind a = not_asleep asleep before r behind a.1

-- The first of the events, after at most `bound` ticks, bring the thread `r` to run.
pub record Turn (v : View) (es : List Event) (r bound : ℕ) : Type 0 where
  pub first_ : List Event
  pub later : List Event
  pub outs : List Output
  pub view : View
  pub split : es ≡ first_ ++ later
  pub steps : Steps v first_ outs view
  pub runs : view.running ≡ r
  pub soon : count_ticks first_ ≤ bound

-- A step that is no tick or passes `r` over, before.
Turn-after :
    (v u : View) (e : Event) (o : Output) (es : List Event) (r bound bound' : ℕ)
    → Step v e o u
    → count_ticks (e ∷ []) + bound ≤ bound'
    → Turn u es r bound
    → Turn v (e ∷ es) r bound'
Turn-after v u e o es r bound bound' st h t = record {
  first_ = e ∷ t.first_;
  later = t.later;
  outs = o ∷ t.outs;
  view = t.view;
  split = ap (λ l. e ∷ l) t.split;
  steps = next st t.steps;
  runs = t.runs;
  soon = omega (arith, t.soon, h, count_ticks-cons e t.first_);
}
  where
    count_ticks-cons :
        (e : Event) (es : List Event) → count_ticks (e ∷ es) ≡ count_ticks (e ∷ []) + count_ticks es
    count_ticks-cons (interrupt index code status esp regs) es = ground arith
    count_ticks-cons read_key es = omega arith

asleep_or_awake : (b : Bool) → b ≡ true → b ≡ false → ⊥
asleep_or_awake b p q = cc

-- A thread that may run, with others before it in the queue, runs after at most one tick more than they are.
Steps-Turn :
    (v u : View) (es : List Event) (os : List Output) (before : List ℕ) (r : ℕ) (behind : List ℕ)
    → Steps v es os u
    → v.others ≡ before ++ r ∷ behind
    → v.asleep r ≡ false
    → length before < count_ticks es
    → Turn v es r (suc (length before))
Steps-Turn v u es os before r behind here at w n = absurd (omega arith)
Steps-Turn v u es os before r behind
      (next {e = e} {o = o} {u = x} {es = es'} {os = os'}
        (turn code status esp regs before' r' behind' at' passed w')
        rest)
      at w n =
    elim (place v.asleep before r behind before' r' behind' (sym at ∙ at') passed w) [
      | inl same ↦ record {
        first_ = e ∷ [];
        later = es';
        outs = o ∷ [];
        view = x;
        split = refl;
        steps = next (turn code status esp regs before' r' behind' at' passed w') here;
        runs = same;
        soon = omega arith;
      }
      | inr b ↦
          let few : length before ≡ length before' + suc (length b.middle) =
            ap length b.here_ ∙ length-append before' (r' ∷ b.middle) in
          Turn-after v x e o es' r (suc (length b.middle)) (suc (length before))
            (turn code status esp regs before' r' behind' at' passed w') (omega (arith, few))
            (Steps-Turn x u es' os' b.middle r (behind ++ v.running ∷ before') rest
              (ap (λ l. l ++ v.running ∷ before') b.there
                ∙ append_assoc b.middle (r ∷ behind) (v.running ∷ before'))
              w (omega (arith, n, few)))
    ]
Steps-Turn v u es os before r behind (next (stay code status esp regs passed) rest) at w n =
    absurd (
      asleep_or_awake (v.asleep r)
        (not_asleep v.asleep before r behind (subst (All (λ x. v.asleep x ≡ true)) at passed)) w)
Steps-Turn v u es os before r behind
      (next {e = e} {o = o} {u = x} {es = es'} {os = os'} (key code status esp regs room) rest) at w
      n =
    Turn-after v x e o es' r _ _ (key code status esp regs room) (omega arith)
      (Steps-Turn x u es' os' before r behind rest at w n)
Steps-Turn v u es os before r behind
      (next {e = e} {o = o} {u = x} {es = es'} {os = os'} (floppy code status esp regs) rest) at w
      n =
    Turn-after v x e o es' r _ _ (floppy code status esp regs) (omega arith)
      (Steps-Turn x u es' os' before r behind rest at w n)
Steps-Turn v u es os before r behind
      (next {e = e} {o = o} {u = x} {es = es'} {os = os'}
        (other index code status esp regs off)
        rest)
      at w n =
    Turn-after v x e o es' r _ _ (other index code status esp regs off) (ground (arith, off))
      (Steps-Turn x u es' os' before r behind rest at w (ground (arith, off)))
Steps-Turn v u es os before r behind
      (next {e = e} {o = o} {u = x} {es = es'} {os = os'} (take_key code unread q) rest) at w n =
    Turn-after v x e o es' r _ _ (take_key code unread q) (omega arith)
      (Steps-Turn x u es' os' before r behind rest at w n)
Steps-Turn v u es os before r behind
      (next {e = e} {o = o} {u = x} {es = es'} {os = os'} (no_key q) rest) at w n =
    Turn-after v x e o es' r _ _ (no_key q) (omega arith)
      (Steps-Turn x u es' os' before r behind rest at w n)

-- The thread runs, with its process and the address space of that.
abbrev pub Runs : ℕ → List Output × Kernel → Type 0
Runs r q =
    (q.1.tasks.current_thread ≡ r) × (q.1.tasks.cr3 ≡ q.1.tasks.page_dir (q.1.tasks.process r))

module _ (printf_call : Registers → Kernel → Option (ℕ × Kernel)) where
  -- No thread that may run is left out: whatever events the view allows, a thread with others before it in
  -- the ring runs, in its address space, after the first of them, among which are at most as many
  -- ticks as those others and one more; there must be so many ticks among the events.
  pub handle_all-Runs :
      (k : Kernel) (v u : View) (es : List Event) (os : List Output) (before : List ℕ) (r : ℕ)
      (behind : List ℕ)
      → Shows k v
      → Steps v es os u
      → v.others ≡ before ++ r ∷ behind
      → v.asleep r ≡ false
      → length before < count_ticks es
      → (first_ later : List Event) × (es ≡ first_ ++ later)
        × (count_ticks first_ ≤ suc (length before))
        × Ensures (Runs r) (handle_all printf_call first_ k)
  handle_all-Runs k v u es os before r behind s steps at w n =
      let t = Steps-Turn v u es os before r behind steps at w n in
      (
        t.first_,
        t.later,
        t.split,
        t.soon,
        Ensures-mono (AllCome t.outs t.view) (Runs r) (handle_all printf_call t.first_ k)
            (handle_all-Steps printf_call k v t.view t.first_ t.outs s t.steps)
            (λ q h. (
              h.1.running ∙ t.runs,
              subst (λ x. q.1.tasks.cr3 ≡ q.1.tasks.page_dir (q.1.tasks.process x)) t.runs
                  h.1.space,
            )),
      )
