-- ===== src/Interrupts/Idt/Vectors.antt =====
-- Which routine each vector of the interrupt descriptor table leads to after idt_init.
use gubos.Prelude.{
  ℕ, zero, suc, ◌+◌, ◌*◌, ◌/◌, ◌^◌, ◌<◌, ◌≤◌, ◌≡◌, ◌≢◌, refl, sym, ◌∙◌, ◌⊎◌, ◌==◌, ltb, ltb→lt, ap,
  Bool-cases, inl, inr, arith,
}
use gubos.Prelude.Bits.{bit_and_half}
use gubos.Interrupts.Handlers.{Handler, number}
use gubos.Interrupts.Idt.{
  IdtGateDescriptor, IdtRegister, Idt, gate, set_idt_gate, set_exceptions, init_hardware_interrupts,
  set_defaults, idt_init, trap_flags, user_flags,
}

-- the address in a gate
abbrev pub isr_of : IdtGateDescriptor → ℕ
isr_of g = g.addr_low + g.addr_high * 2 ^ 16

isr_of-gate : (a flags : ℕ) → a < 2 ^ 32 → isr_of (gate a flags) ≡ a
unfolding gate
isr_of-gate a flags h = omega (arith, bit_and_half a, bit_and_half (a / 2 ^ 16))

abbrev pub gate_kind : Handler → ℕ
gate_kind Handler.default_exception = 0xee
gate_kind Handler.syscall_interrupt = 0xee
gate_kind h = 0x8f

gate_lem : (a flags : ℕ) → a < 2 ^ 32 → (isr_of (gate a flags) ≡ a) × ((gate a flags).flags ≡ flags)
unfolding gate
gate_lem a flags h = (isr_of-gate a flags h, refl)

set_idt_gate-other :
    (v a flags : ℕ) (t : ℕ → IdtGateDescriptor) (j : ℕ) → j ≢ v → set_idt_gate v a flags t j ≡ t j
unfolding set_idt_gate
set_idt_gate-other v a flags t j h = ground arith

set_idt_gate-same :
    (v a flags : ℕ) (t : ℕ → IdtGateDescriptor) → set_idt_gate v a flags t v ≡ gate a flags
unfolding set_idt_gate
set_idt_gate-same v a flags t = ground arith

set_defaults-below :
    (addr_of : Handler → ℕ) (rounds start : ℕ) (t : ℕ → IdtGateDescriptor) (j : ℕ)
    → j < start
    → set_defaults addr_of rounds start t j ≡ t j
unfolding set_defaults
set_defaults-below addr_of zero start t j h = refl
set_defaults-below addr_of (suc rounds) start t j h =
    let a = addr_of Handler.default_exception in
    set_defaults-below addr_of rounds (start + 1) (set_idt_gate start a user_flags t) j
      (omega arith)
    ∙ set_idt_gate-other start a user_flags t j (omega arith)

set_defaults-above :
    (addr_of : Handler → ℕ) (rounds start : ℕ) (t : ℕ → IdtGateDescriptor) (j : ℕ)
    → start + rounds ≤ j
    → set_defaults addr_of rounds start t j ≡ t j
unfolding set_defaults
set_defaults-above addr_of zero start t j h = refl
set_defaults-above addr_of (suc rounds) start t j h =
    let a = addr_of Handler.default_exception in
    set_defaults-above addr_of rounds (start + 1) (set_idt_gate start a user_flags t) j
      (omega arith)
    ∙ set_idt_gate-other start a user_flags t j (omega arith)

set_defaults-inside :
    (addr_of : Handler → ℕ) (rounds start : ℕ) (t : ℕ → IdtGateDescriptor) (j : ℕ)
    → start ≤ j
    → j < start + rounds
    → set_defaults addr_of rounds start t j ≡ gate (addr_of Handler.default_exception) user_flags
unfolding set_defaults
set_defaults-inside addr_of zero start t j from to = absurd (omega arith)
set_defaults-inside addr_of (suc rounds) start t j from to =
    let a = addr_of Handler.default_exception in
    let t' = set_idt_gate start a user_flags t in
    elim (Bool-cases (j == start)) [
      | inl e ↦
          let same : j ≡ start = ground arith in
          set_defaults-below addr_of rounds (start + 1) t' j (omega arith)
          ∙ ap (set_idt_gate start a user_flags t) same
          ∙ set_idt_gate-same start a user_flags t
      | inr e ↦
          let off : j ≢ start = ground arith in
          set_defaults-inside addr_of rounds (start + 1) t' j (omega arith) (omega arith)
    ]

abbrev exceptions_set : (Handler → ℕ) → ℕ → Idt → Idt
exceptions_set addr_of table_addr s =
    let idtr' : IdtRegister = record { limit = 2047; base = table_addr } in
    record s { idt_descriptors = set_exceptions addr_of s.idt_descriptors; idtr = idtr' }

hardware-below :
    (addr_of : Handler → ℕ) (mask1 mask2 : ℕ) (inb : ℕ → ℕ) (s : Idt) (n : ℕ)
    → n < 32
    → (init_hardware_interrupts addr_of mask1 mask2 inb s).idt_descriptors n ≡ s.idt_descriptors n
unfolding init_hardware_interrupts
hardware-below addr_of mask1 mask2 inb s n low =
    let t₁ = set_idt_gate 32 (addr_of Handler.timer_irq) trap_flags s.idt_descriptors in
    set_idt_gate-other 33 (addr_of Handler.keyboard_irq) trap_flags t₁ n (omega arith)
    ∙ set_idt_gate-other 32 (addr_of Handler.timer_irq) trap_flags s.idt_descriptors n (omega arith)

exceptions-gap :
    (addr_of : Handler → ℕ) (t : ℕ → IdtGateDescriptor) (n : ℕ)
    → (n ≡ 15) ⊎ (22 ≤ n) × (n < 32)
    → set_exceptions addr_of t n ≡ t n
unfolding set_exceptions set_idt_gate
exceptions-gap addr_of t n (inl at) = ap (set_exceptions addr_of t) at ∙ ap t (sym at)
exceptions-gap addr_of t n (inr (from, to)) = ground arith

module _ (addr_of : Handler → ℕ) (table_addr mask1 mask2 : ℕ) (inb : ℕ → ℕ) (s : Idt) where
  -- After idt_init the vector of each routine holds the routine's address, as a present 32-bit trap gate of the
  -- kernel or, for the system call and the default routine, a present 32-bit interrupt gate open to the user,
  -- whatever the table was.
  pub vector-handler :
      (h : Handler)
      → addr_of h < 2 ^ 32
      → (isr_of ((idt_init addr_of table_addr mask1 mask2 inb s).idt_descriptors (number h))
          ≡ addr_of h)
        × (((idt_init addr_of table_addr mask1 mask2 inb s).idt_descriptors (number h)).flags
            ≡ gate_kind h)
  unfolding idt_init set_exceptions init_hardware_interrupts set_defaults set_idt_gate
  vector-handler Handler.syscall_interrupt small =
      gate_lem (addr_of Handler.syscall_interrupt) user_flags small
  vector-handler Handler.default_exception small =
      gate_lem (addr_of Handler.default_exception) user_flags small
  vector-handler h small = gate_lem (addr_of h) trap_flags small

  -- After idt_init every vector from 34 to 255 but the system call's holds the address of the default routine.
  vector-default :
      (n : ℕ)
      → addr_of Handler.default_exception < 2 ^ 32
      → 34 ≤ n
      → n < 256
      → n ≢ 80
      → isr_of ((idt_init addr_of table_addr mask1 mask2 inb s).idt_descriptors n)
        ≡ addr_of Handler.default_exception
  unfolding idt_init
  vector-default n small from to other =
      let a = addr_of Handler.default_exception in
      let t₀ =
        init_hardware_interrupts addr_of mask1 mask2 inb (exceptions_set addr_of table_addr s) in
      let t₁ = set_defaults addr_of 46 34 t₀.idt_descriptors in
      let t₂ = set_idt_gate 80 (addr_of Handler.syscall_interrupt) user_flags t₁ in
      let found : set_defaults addr_of 175 81 t₂ n ≡ gate a user_flags =
        elim (Bool-cases (ltb n 81)) [
          | inl e ↦
              set_defaults-below addr_of 175 81 t₂ n (omega (arith, ltb→lt n 81 e))
              ∙ set_idt_gate-other 80 (addr_of Handler.syscall_interrupt) user_flags t₁ n other
              ∙ set_defaults-inside addr_of 46 34 t₀.idt_descriptors n from
                  (omega (arith, ltb→lt n 81 e, other))
          | inr e ↦
              let high : 81 ≤ n = ground arith in
              set_defaults-inside addr_of 175 81 t₂ n high (omega arith)
        ] in
      ap (λ g. isr_of g) found ∙ isr_of-gate a user_flags small

  -- idt_init leaves the vectors 15 and 22 to 31, which the processor reserves, as they were.
  vector-reserved :
      (n : ℕ)
      → (n ≡ 15) ⊎ (22 ≤ n) × (n < 32)
      → (idt_init addr_of table_addr mask1 mask2 inb s).idt_descriptors n ≡ s.idt_descriptors n
  unfolding idt_init
  vector-reserved n gap =
      let t₀ =
        init_hardware_interrupts addr_of mask1 mask2 inb (exceptions_set addr_of table_addr s) in
      let t₁ = set_defaults addr_of 46 34 t₀.idt_descriptors in
      let t₂ = set_idt_gate 80 (addr_of Handler.syscall_interrupt) user_flags t₁ in
      let low : n < 32 = ground arith in
      set_defaults-below addr_of 175 81 t₂ n (omega arith)
      ∙ set_idt_gate-other 80 (addr_of Handler.syscall_interrupt) user_flags t₁ n (omega arith)
      ∙ set_defaults-below addr_of 46 34 t₀.idt_descriptors n (omega arith)
      ∙ hardware-below addr_of mask1 mask2 inb (exceptions_set addr_of table_addr s) n low
      ∙ exceptions-gap addr_of s.idt_descriptors n gap
