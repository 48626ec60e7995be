-- ===== src/Lib.antt =====
-- Verification of a small i386 kernel, by its C sources.
--
-- The program. At boot the kernel finds where it lies (KERNEL_MEMINFO), sets up the descriptor tables, marks
-- the physical pages that are taken, and creates its heap, its page tables, its virtual memory context and its
-- first tasks, two of them from ELF files that the boot loader hands over. The heap serves the nodes of the
-- lists and trees of the virtual memory manager and the scheduler, and the blocks of the tasks; a page fault asks
-- the running task's context for the allocation, the physical memory manager for a page, and writes the page
-- tables; the timer switches tasks; the exit call takes a task from the scheduler. Messages go through vprintk to
-- the terminal.
--
-- The files, with the sources they model.
--   Kmalloc         kernel/kmalloc.c: KMALLOC_HEAD and the headers by address (Heap); kmalloc_init, kmalloc and
--                   kfree. Kmalloc/Regions has the specification, first fit on a list of regions (carve), and
--                   Kmalloc/Client the sequences of calls that a client makes (Reach).
--   Pmm             kernel/arch/i386/mm/pmm.c: MEM_BITMAP as a function from indices to bytes, its marking,
--                   pmm_alloc_page, pmm_free_page; Pmm/Init has pmm_init.
--   Vmm/Blocks      kernel/arch/i386/mm/vmm.c, the free blocks: a list of nodes with their addresses;
--                   remove_free_blocks, add_free_blocks, clone_free_blocks. Cover gives the set of addresses
--                   that a list stands for.
--   Vmm/Tree        the allocation tree: add_allocation, remove_allocation, the loop of vmm_unmap_pages,
--                   vmm_find_allocation, clone_allocations. A stray pointer is `wild`.
--   Vmm/Context     the contexts that hold both: vmm_map_pages, vmm_unmap_pages, vmm_new_context, vmm_init,
--                   vmm_clone_context and the translation of kernel addresses.
--   Paging, Page    kernel/arch/i386/mm/paging.c: the directory and the tables by their entries, and the
--                   address arithmetic. Paging/Translate has the walk that the processor makes. Paging/Bootstrap is
--                   kernel/arch/i386/paging_bootstrap.c, the directory of 4 MiB pages that the boot code loads.
--   Meminfo         kernel/arch/i386/include/mm/meminfo.h.
--   Sched           kernel/sched.c: the nodes by address, the three pointers, CURRENT_TASK; init_sched, sched_add,
--                   sched_remove, sched_context_switch. Sched/Client has the sequences of them (Reach).
--   Task            kernel/task.c: task_create, with alloc_kernel_stack of kernel/arch/i386/mm/addr_space.c and
--                   vmm_clone_paging_context of vmm.c; Task/Switch has do_task_switch of
--                   kernel/arch/i386/task_switch.S.
--   Init            kernel/init.c: init_create_user_task and init_create_task0.
--   Kernel          kernel/kernel.c: kernel_main up to its idle loop, over all of these.
--   Syscall         kernel/syscall: syscall_handler, exit and fork.
--   Interrupts      kernel/arch/i386/interrupts: idt_init (Idt), the handlers by name (Handlers), the page fault
--                   handler (PageFault), the timer (Timer); drivers/pic.c (Pic).
--   Gdt             kernel/arch/i386/gdt.c: set_segment_descriptor, tss_init, gdt_init.
--   Multiboot       kernel/arch/i386/multiboot2.c: the walks for the framebuffer and for modules.
--   Elf             kernel/elf/elf.c: elf_parse_header; kernel/elf/loader.c: elf_load over the two contexts, the
--                   heap, the bitmap and memory (Elf/Loader).
--   Ps2             drivers/ps2.c: the queue of scancodes and the handler of the keyboard interrupt; Ps2/Setup has
--                   the set-up of the controller, with what the device answers as a parameter.
--   Tty             kernel/arch/i386/tty.c and kernel/vga.c: the cells of the screen and the cursor. Tty/Roll has
--                   the specification, an endless roll of paper that the screen is a window on (Shows).
--   Printk          kernel/printk.c: vprintk on a buffer with the format and a list of typed arguments.
--                   Printk/Format has the specification, a format as its text and directives (rendered).
--   Text            kernel/string and kernel/itoa.c on buffers of bytes.
--   Prelude         shared names, tests on numbers, lists, bit laws, and Outcome: a routine returns, panics
--                   (PANIC and ASSERT), touches memory that it must not, or loops for ever.
--
-- Numbers. uint32_t and size_t are natural numbers, with the wrap at 2 ^ 32 written out where an operation of
-- the source can reach it (u32, sub32, shl32).
--
-- Loops and fuel. A loop over memory has fuel and ends in `hang` when it runs out. kmalloc takes one round
-- more than the heap has room for headers, so that a chain of regions is always walked;
-- pmm_mark_range_used one more than there are pages; the walks over tags one more than there are addresses
-- of tags; a number of 64 bits has at most 64 digits; each round of vprintk goes on by a character, and it
-- has one more than the format has; a wait for the keyboard's controller looks `patience` times, since the
-- device may never answer; sched_remove looks at the same node from its second round on, so that two
-- rounds decide.
--
-- Memory. Stacks are words by their addresses, other structures have a record each. A context that is
-- passed by value shares its tree and its blocks with the caller, so its changes are the caller's; the
-- model of task_create is exact while the first free block, whose address is in the copy, is not used up.
-- A task's block keeps its paging context as it is when the task is made. kmalloc does not clear what it
-- gives, and the copy of a tree leaves some pointers unwritten. What memory holds there before is the parameter
-- `stale`, a function from addresses to words: 0 is NULL, and anything else is a stray pointer (`wild`), which it
-- is a fault to follow.
--
-- Not modelled: the boot code but for its page directory, the user library, the idle loop of kernel_main,
-- other assembly than do_task_switch, and the messages that the components print. Port input is an
-- argument. Reading an argument of vprintk as another type than it has is a fault. Concurrency is not
-- modelled: each routine runs to its end.
pub mod Elf
pub mod Gdt
pub mod Init
pub mod Interrupts
pub mod Kernel
pub mod Kmalloc
pub mod Meminfo
pub mod Multiboot
pub mod Page
pub mod Paging
pub mod Pmm
pub mod Prelude
pub mod Printk
pub mod Ps2
pub mod Sched
pub mod Syscall
pub mod Task
pub mod Text
pub mod Tty
pub mod Vmm
