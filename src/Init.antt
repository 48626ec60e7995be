-- ===== src/Init.antt =====
-- User tasks: kernel/init.c, and the size of their stack from kernel/arch/i386/include/mm/addr_space.h.
pub mod Created
mod Tests
use gubos.Prelude.{
  ℕ, zero, suc, ◌+◌, ◌-◌, ◌*◌, ◌==◌, if◌then◌else◌, true, none, some, Option, Outcome, done, panic,
  fault, ◌>>=◌, ◌>>◌, assert, bad_elf, bad_init_pid, bit_or, u32, sub32,
}
use gubos.Kmalloc.{Heap}
use gubos.Meminfo.{KernelMeminfo}
use gubos.Page.{page_size, page_flag_present, page_flag_write, page_flag_user}
use gubos.Pmm.{Bitmap, pmm_alloc_page}
use gubos.Vmm.Context.{VmmContext, vmm_map_pages, vmm_clone_context}
use gubos.Elf.{File, Elf32Hdr, ParseResult, code, elf_parse_header}
use gubos.Elf.Loader.{LoadState, elf_load}
use gubos.Sched.{init_pid}
use gubos.Task.{Space, Tasks, TaskControlBlock, task_create}

abbrev pub user_stack_top : ℕ
user_stack_top = 0xA000_0000

abbrev pub user_stack_page_count : ℕ
user_stack_page_count = 10

abbrev pub user_stack_size : ℕ
user_stack_size = user_stack_page_count * page_size

-- The tasks with the address space of the kernel, and the bytes that the kernel reads through its virtual
-- addresses.
pub record Boot : Type 0 where
  pub tasks : Tasks
  pub bytes : File

-- the local variable `header`, which elf_parse_header may not have written
abbrev pub written : Option Elf32Hdr → Outcome Elf32Hdr
written none = fault
written (some header) = done header

-- `if (res) PANIC(...)`
abbrev pub parsed : ParseResult × Option Elf32Hdr → Outcome Elf32Hdr
parsed (res, header) = if code res == 0 then written header else panic bad_elf

-- the file as the kernel sees it at `user_elf`
abbrev pub file_at : (user_elf : ℕ) → File → File
file_at user_elf bytes k = bytes (u32 (user_elf + k))

-- `task->parent = parent` and `task->vmm_context = vmm_context`
abbrev pub adopt : (task parent : ℕ) → VmmContext → (ℕ → TaskControlBlock) → ℕ → TaskControlBlock
adopt task parent vmm blocks a =
    if a == task then record (blocks a) { parent = parent; vmm_context = vmm } else blocks a

-- `stale` is what the heap's memory holds where the nodes of the copied tree come to lie.
module _ (m : KernelMeminfo) (stale : ℕ → ℕ) where
  -- the last loop: `rounds` pages of the user's stack, from number `i` on
  unfoldable pub map_user_stack :
      (rounds i : ℕ) → VmmContext → Heap → Bitmap → Outcome (VmmContext × Heap × Bitmap)
  map_user_stack zero i vmm h bm = done (vmm, h, bm)
  map_user_stack (suc rounds) i vmm h bm = do
    (physical, bm') ← pmm_alloc_page bm
    let flags = bit_or (bit_or page_flag_present page_flag_write) page_flag_user
    let v = u32 (user_stack_top - user_stack_size + i * page_size)
    (_, vmm', h') ← vmm_map_pages m v physical 1 flags vmm h
    map_user_stack rounds (i + 1) vmm' h' bm'

  -- What follows task_create: `task`'s own context, the segments of the file, its stack.
  unfoldable pub fill_user_task :
      (task parent user_elf : ℕ) → Elf32Hdr → Tasks → File → Outcome (ℕ × Boot)
  unfolding map_user_stack
  fill_user_task task parent user_elf header t bytes = do
    (vmm_context, h) ← vmm_clone_context stale t.space.vmm t.space.heap
    let before : LoadState = record {
      kern_paging = t.space.paging;
      kern_vmm = t.space.vmm;
      vmm = vmm_context;
      heap = h;
      bitmap = t.space.bitmap;
      memory = bytes;
    }
    s ← elf_load m header user_elf before
    (vmm, h', bm) ← map_user_stack user_stack_page_count 0 s.vmm s.heap s.bitmap
    let space : Space = record { paging = s.kern_paging; vmm = s.kern_vmm; heap = h'; bitmap = bm }
    done (
      task,
      record {
        tasks = record t { space = space; blocks = adopt task parent vmm t.blocks };
        bytes = s.memory;
      },
    )

  -- `halt`, `remove` and `goto_user_mode` are the addresses of sched_halt_or_crash, sched_remove and
  -- init_goto_user_mode.
  unfoldable pub init_create_user_task :
      (halt remove goto_user_mode elf_physical parent : ℕ) → Boot → Outcome (ℕ × Boot)
  unfolding fill_user_task
  init_create_user_task halt remove goto_user_mode elf_physical parent b = do
    let space = b.tasks.space
    let flags = bit_or page_flag_present page_flag_write
    (user_elf, vmm, h) ← vmm_map_pages m 0 elf_physical 1 flags space.vmm space.heap
    header ← parsed (elf_parse_header (file_at user_elf b.bytes) 1024)
    let t = record b.tasks { space = record space { vmm = vmm; heap = h } }
    (task, t') ← task_create m halt remove goto_user_mode header.entry true t
    fill_user_task task parent user_elf header t' b.bytes

  unfoldable pub init_create_task0 :
      (halt remove goto_user_mode elf_physical : ℕ) → Boot → Outcome (ℕ × Boot)
  unfolding init_create_user_task
  init_create_task0 halt remove goto_user_mode elf_physical b = do
    (task, b') ← init_create_user_task halt remove goto_user_mode elf_physical 0 b
    assert ((b'.tasks.blocks task).pid == init_pid) bad_init_pid
    done (task, b')
