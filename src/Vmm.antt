-- ===== src/Vmm.antt =====
-- The virtual memory manager: kernel/arch/i386/mm/vmm.c and kernel/arch/i386/include/mm/vmm.h, by its
-- two data structures and the contexts that hold them.
pub mod Blocks
pub mod Tree
pub mod Context
mod Tests
