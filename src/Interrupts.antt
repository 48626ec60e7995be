-- ===== src/Interrupts.antt =====
-- Interrupts: the descriptor table, the exception handlers and the page fault handler of
-- kernel/arch/i386/interrupts, and the interrupt controller of drivers/pic.c.
pub mod Handlers
pub mod Pic
pub mod Idt
pub mod PageFault
pub mod Timer
mod Tests
