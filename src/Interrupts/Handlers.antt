-- ===== src/Interrupts/Handlers.antt =====
-- The interrupt service routines by name: kernel/arch/i386/include/interrupts/handlers.h and
-- kernel/arch/i386/interrupts/handlers.c.
use gubos.Prelude.{ℕ, Outcome, panic, received_exception}

-- struct interrupt_state
pub record InterruptState : Type 0 where
  pub eflags : ℕ
  pub cs : ℕ
  pub eip : ℕ

-- The routines whose addresses the table holds.
pub data Handler : Type 0 where
  divide_error debug nmi breakpoint overflow bound_range_exceeded invalid_opcode : Handler
  device_not_available double_fault coprocessor_segment_overrun invalid_tss : Handler
  segment_not_present stack_fault general_protection page_fault x87_fpu_floating_point : Handler
  alignment_check machine_check simd_floating_point virtualization control_protection : Handler
  timer_irq keyboard_irq default_exception syscall_interrupt : Handler

-- The vector of each routine, as handlers.h and idt.h number them; of default_exception_handler the first
-- one.
abbrev pub number : Handler → ℕ
number Handler.divide_error = 0
number Handler.debug = 1
number Handler.nmi = 2
number Handler.breakpoint = 3
number Handler.overflow = 4
number Handler.bound_range_exceeded = 5
number Handler.invalid_opcode = 6
number Handler.device_not_available = 7
number Handler.double_fault = 8
number Handler.coprocessor_segment_overrun = 9
number Handler.invalid_tss = 10
number Handler.segment_not_present = 11
number Handler.stack_fault = 12
number Handler.general_protection = 13
number Handler.page_fault = 14
number Handler.x87_fpu_floating_point = 16
number Handler.alignment_check = 17
number Handler.machine_check = 18
number Handler.simd_floating_point = 19
number Handler.virtualization = 20
number Handler.control_protection = 21
number Handler.timer_irq = 32
number Handler.keyboard_irq = 33
number Handler.default_exception = 34
number Handler.syscall_interrupt = 80

-- An interrupt that ends in a PANIC line of handlers.c, or of default_exception_handler; the others are handled
-- by the arguments: the page fault handler, the timer, the keyboard and the system call.
unfoldable pub handle {ℓ} :
    {S : Type ℓ} (on_page_fault on_timer on_keyboard on_syscall : S → Outcome S)
    → Handler
    → S
    → Outcome S
handle on_page_fault on_timer on_keyboard on_syscall Handler.page_fault s = on_page_fault s
handle on_page_fault on_timer on_keyboard on_syscall Handler.timer_irq s = on_timer s
handle on_page_fault on_timer on_keyboard on_syscall Handler.keyboard_irq s = on_keyboard s
handle on_page_fault on_timer on_keyboard on_syscall Handler.syscall_interrupt s = on_syscall s
handle on_page_fault on_timer on_keyboard on_syscall h s = panic received_exception
