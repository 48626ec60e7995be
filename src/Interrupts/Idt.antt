-- ===== src/Interrupts/Idt.antt =====
-- The interrupt descriptor table: kernel/arch/i386/interrupts/idt.c and
-- kernel/arch/i386/include/interrupts/idt.h.
pub mod Vectors
use gubos.Prelude.{ℕ, zero, suc, ◌+◌, ◌-◌, ◌*◌, ◌/◌, ◌^◌, ◌==◌, if◌then◌else◌, bit_and, bit_or}
use gubos.Gdt.{gdt_kernel_code_segment}
use gubos.Interrupts.Handlers.{Handler, number}
use gubos.Interrupts.Pic.{Writes, pic_init, pic_clear_mask}

-- struct idt_gate_descriptor
pub record IdtGateDescriptor : Type 0 where
  pub addr_low : ℕ
  pub segment_selector : ℕ
  pub reserved : ℕ
  pub flags : ℕ
  pub addr_high : ℕ

-- struct idt_register
pub record IdtRegister : Type 0 where
  pub limit : ℕ
  pub base : ℕ

-- idt_descriptors, idtr, and what has been written to the ports
pub record Idt : Type 0 where
  pub idt_descriptors : ℕ → IdtGateDescriptor
  pub idtr : IdtRegister
  pub ports : Writes

abbrev pub idt_gate_descriptor_count : ℕ
idt_gate_descriptor_count = 256

abbrev pub idt_int_gate_flags : ℕ
idt_int_gate_flags = 6

abbrev pub idt_trap_gate_flags : ℕ
idt_trap_gate_flags = 7

abbrev pub idt_32_bit_gate_size : ℕ
idt_32_bit_gate_size = 8

abbrev pub idt_user_dpl : ℕ
idt_user_dpl = 96

abbrev pub idt_kernel_dpl : ℕ
idt_kernel_dpl = 0

abbrev pub idt_seg_present : ℕ
idt_seg_present = 128

abbrev pub idt_reserved_int_count : ℕ
idt_reserved_int_count = 32

abbrev pub idt_syscall_int : ℕ
idt_syscall_int = 80

-- sizeof(idt_gate_descriptor_t)
abbrev pub gate_size : ℕ
gate_size = 8

unfoldable pub gate : (isr_addr flags : ℕ) → IdtGateDescriptor
gate isr_addr flags = record {
  addr_low = bit_and isr_addr 65535;
  segment_selector = gdt_kernel_code_segment;
  reserved = 0;
  flags = flags;
  addr_high = bit_and (isr_addr / 2 ^ 16) 65535;
}

unfoldable pub set_idt_gate :
    (vector isr_addr flags : ℕ) → (ℕ → IdtGateDescriptor) → ℕ → IdtGateDescriptor
set_idt_gate vector isr_addr flags t j = if j == vector then gate isr_addr flags else t j

abbrev pub trap_flags : ℕ
trap_flags =
    bit_or (bit_or (bit_or idt_trap_gate_flags idt_seg_present) idt_kernel_dpl) idt_32_bit_gate_size

abbrev pub user_flags : ℕ
user_flags =
    bit_or (bit_or (bit_or idt_int_gate_flags idt_seg_present) idt_user_dpl) idt_32_bit_gate_size

module _ (addr_of : Handler → ℕ) where
  unfoldable pub set_exceptions : (ℕ → IdtGateDescriptor) → ℕ → IdtGateDescriptor
  set_exceptions t₀ =
      let t₁ =
        set_idt_gate (number Handler.divide_error) (addr_of Handler.divide_error) trap_flags t₀ in
      let t₂ = set_idt_gate (number Handler.debug) (addr_of Handler.debug) trap_flags t₁ in
      let t₃ = set_idt_gate (number Handler.nmi) (addr_of Handler.nmi) trap_flags t₂ in
      let t₄ =
        set_idt_gate (number Handler.breakpoint) (addr_of Handler.breakpoint) trap_flags t₃ in
      let t₅ = set_idt_gate (number Handler.overflow) (addr_of Handler.overflow) trap_flags t₄ in
      let t₆ =
        set_idt_gate (number Handler.bound_range_exceeded) (addr_of Handler.bound_range_exceeded)
          trap_flags t₅ in
      let t₇ =
        set_idt_gate (number Handler.invalid_opcode) (addr_of Handler.invalid_opcode) trap_flags
          t₆ in
      let t₈ =
        set_idt_gate (number Handler.device_not_available) (addr_of Handler.device_not_available)
          trap_flags t₇ in
      let t₉ =
        set_idt_gate (number Handler.double_fault) (addr_of Handler.double_fault) trap_flags t₈ in
      let t₁₀ =
        set_idt_gate (number Handler.coprocessor_segment_overrun)
          (addr_of Handler.coprocessor_segment_overrun) trap_flags t₉ in
      let t₁₁ =
        set_idt_gate (number Handler.invalid_tss) (addr_of Handler.invalid_tss) trap_flags t₁₀ in
      let t₁₂ =
        set_idt_gate (number Handler.segment_not_present) (addr_of Handler.segment_not_present)
          trap_flags t₁₁ in
      let t₁₃ =
        set_idt_gate (number Handler.stack_fault) (addr_of Handler.stack_fault) trap_flags t₁₂ in
      let t₁₄ =
        set_idt_gate (number Handler.general_protection) (addr_of Handler.general_protection)
          trap_flags t₁₃ in
      let t₁₅ =
        set_idt_gate (number Handler.page_fault) (addr_of Handler.page_fault) trap_flags t₁₄ in
      let t₁₆ =
        set_idt_gate (number Handler.x87_fpu_floating_point)
          (addr_of Handler.x87_fpu_floating_point) trap_flags t₁₅ in
      let t₁₇ =
        set_idt_gate (number Handler.alignment_check) (addr_of Handler.alignment_check) trap_flags
          t₁₆ in
      let t₁₈ =
        set_idt_gate (number Handler.machine_check) (addr_of Handler.machine_check) trap_flags
          t₁₇ in
      let t₁₉ =
        set_idt_gate (number Handler.simd_floating_point) (addr_of Handler.simd_floating_point)
          trap_flags t₁₈ in
      let t₂₀ =
        set_idt_gate (number Handler.virtualization) (addr_of Handler.virtualization) trap_flags
          t₁₉ in
      set_idt_gate (number Handler.control_protection) (addr_of Handler.control_protection)
        trap_flags t₂₀

  -- The masks are what the data ports read before pic_init, `inb` what they read after it.
  unfoldable pub init_hardware_interrupts : (mask1 mask2 : ℕ) (inb : ℕ → ℕ) → Idt → Idt
  init_hardware_interrupts mask1 mask2 inb s =
      let t₁ =
        set_idt_gate idt_reserved_int_count (addr_of Handler.timer_irq) trap_flags
          s.idt_descriptors in
      let t₂ =
        set_idt_gate (idt_reserved_int_count + 1) (addr_of Handler.keyboard_irq) trap_flags t₁ in
      let w₁ = pic_init mask1 mask2 s.ports in
      let w₂ = pic_clear_mask inb 0 w₁ in
      record s { idt_descriptors = t₂; ports = pic_clear_mask inb 1 w₂ }

  -- `for (i = start; i < start + rounds; ++i)`
  unfoldable pub set_defaults : (rounds start : ℕ) → (ℕ → IdtGateDescriptor) → ℕ → IdtGateDescriptor
  set_defaults zero start t = t
  set_defaults (suc rounds) start t =
      set_defaults rounds (start + 1)
        (set_idt_gate start (addr_of Handler.default_exception) user_flags t)

  -- `table_addr` is the address of idt_descriptors
  unfoldable pub idt_init : (table_addr mask1 mask2 : ℕ) (inb : ℕ → ℕ) → Idt → Idt
  idt_init table_addr mask1 mask2 inb s =
      let idtr' : IdtRegister = record {
        limit = gate_size * idt_gate_descriptor_count - 1;
        base = table_addr;
      } in
      let s₁ = record s { idt_descriptors = set_exceptions s.idt_descriptors; idtr = idtr' } in
      let s₂ = init_hardware_interrupts mask1 mask2 inb s₁ in
      let first = idt_reserved_int_count + 2 in
      let t₁ = set_defaults (idt_syscall_int - first) first s₂.idt_descriptors in
      let t₂ = set_idt_gate idt_syscall_int (addr_of Handler.syscall_interrupt) user_flags t₁ in
      let second = idt_syscall_int + 1 in
      record s₂ { idt_descriptors = set_defaults (idt_gate_descriptor_count - second) second t₂ }
