-- ===== src/Kernel/Interrupts/Table/Gates.antt =====
-- The gates in the interrupt table of src/kernel/interrupts.c.
use c4os.Common.{
  ℕ, zero, suc, ◌+◌, ◌*◌, ◌<◌, ◌≤◌, ◌≡◌, ◌≢◌, refl, arith, ◌∙◌, Bool-cases, inl, inr, ◌==◌, ==_self,
  ==_ne, ==→eq, u8, subst, sym,
}
use c4os.Kernel.Interrupts.{IntDesc, set_int_handler}
use c4os.Kernel.Interrupts.Table.{set_handlers, fill_idt}

-- A gate of the kernel's code segment to an address, as the processor reads it.
pub record IsGate (handler type_ : ℕ) (d : IntDesc) : Type 0 where
  address : d.address_0_15 + 0x1_0000 * d.address_16_31 ≡ handler
  low : d.address_0_15 < 0x1_0000
  code_segment : d.selector ≡ 8
  kind : d.type_ ≡ type_
  zero_byte : d.reserved ≡ 0

set_int_handler-IsGate :
    (index handler type_ : ℕ) (idt : ℕ → IntDesc)
    → IsGate handler type_ (set_int_handler index handler type_ idt index)
unfolding set_int_handler
set_int_handler-IsGate index handler type_ idt = rw (==_self index) (record {
  address = omega arith;
  low = omega arith;
  code_segment = refl;
  kind = refl;
  zero_byte = refl;
})

set_int_handler_ne :
    (index handler type_ i : ℕ) (idt : ℕ → IntDesc)
    → i ≢ index
    → set_int_handler index handler type_ idt i ≡ idt i
unfolding set_int_handler
set_int_handler_ne index handler type_ i idt ne = rw (==_ne i index ne) refl

module _ (irq_base : ℕ) (irq_handlers : ℕ → ℕ) (idt : ℕ → IntDesc) where
  set_handlers-IsGate :
      (n i : ℕ)
      → irq_base + n ≤ 256
      → i < n
      → IsGate (irq_handlers i) 0x8e (set_handlers n irq_base irq_handlers idt (irq_base + i))
  unfolding set_handlers
  set_handlers-IsGate zero i h k = absurd (omega arith)
  set_handlers-IsGate (suc n) i h k =
      let low : u8 (irq_base + n) ≡ irq_base + n = omega arith in
      let before = set_handlers n irq_base irq_handlers idt in
      rw low (elim (Bool-cases (i == n)) [
        | inl e ↦
            subst
              (λ j.
                IsGate (irq_handlers j) 0x8e
                  (set_int_handler (irq_base + n) (irq_handlers n) 0x8e before (irq_base + j)))
              (sym (==→eq i n e))
              (set_int_handler-IsGate (irq_base + n) (irq_handlers n) 0x8e before)
        | inr e ↦
            let ne : i ≢ n = λ q. ground (arith, e, q) in
            subst (IsGate (irq_handlers i) 0x8e)
              (sym (
                set_int_handler_ne (irq_base + n) (irq_handlers n) 0x8e (irq_base + i) before
                  (λ q. ne (omega (arith, q)))))
              (set_handlers-IsGate n i (omega arith) (omega (arith, ne, k)))
      ])

  set_handlers_apart :
      (n i : ℕ)
      → irq_base + n ≤ 256
      → ((j : ℕ) → j < n → i ≢ irq_base + j)
      → set_handlers n irq_base irq_handlers idt i ≡ idt i
  unfolding set_handlers
  set_handlers_apart zero i h k = refl
  set_handlers_apart (suc n) i h k =
      let low : u8 (irq_base + n) ≡ irq_base + n = omega arith in
      let before = set_handlers n irq_base irq_handlers idt in
      rw low (
        set_int_handler_ne (irq_base + n) (irq_handlers n) 0x8e i before (k n (omega arith))
        ∙ set_handlers_apart n i (omega arith) (λ j q. k j (omega (arith, q))))

  -- With room for 17 interrupts behind the base, each of the first 16 has an interrupt gate to its
  -- handler, which only the kernel may call; the 17th has one that programs may call; and no other
  -- entry of the table changes.
  pub fill_idt-IsGate :
      irq_base + 16 < 256
      → ((i : ℕ)
          → i < 16
          → IsGate (irq_handlers i) 0x8e (fill_idt irq_base irq_handlers idt (irq_base + i)))
        × IsGate (irq_handlers 16) 0xee (fill_idt irq_base irq_handlers idt (irq_base + 16))
        × ((i : ℕ)
            → ((j : ℕ) → j < 17 → i ≢ irq_base + j)
            → fill_idt irq_base irq_handlers idt i ≡ idt i)
  unfolding fill_idt
  fill_idt-IsGate h =
      let low : u8 (irq_base + 16) ≡ irq_base + 16 = omega arith in
      let before = set_handlers 16 irq_base irq_handlers idt in
      rw low (
        λ i k.
            subst (IsGate (irq_handlers i) 0x8e)
              (sym (
                set_int_handler_ne (irq_base + 16) (irq_handlers 16) 0xee (irq_base + i) before
                  (λ q. omega (arith, q, k))))
              (set_handlers-IsGate 16 i (omega arith) k),
        set_int_handler-IsGate (irq_base + 16) (irq_handlers 16) 0xee before,
        λ i k.
            set_int_handler_ne (irq_base + 16) (irq_handlers 16) 0xee i before (k 16 (omega arith))
            ∙ set_handlers_apart 16 i (omega arith) (λ j q. k j (omega (arith, q))),
      )
