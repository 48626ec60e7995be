-- ===== src/Kernel.antt =====
-- The entry of the kernel: kernel_main of kernel/kernel.c, without its messages.
mod Tests
use gubos.Prelude.{
  ℕ, zero, suc, ◌+◌, ◌==◌, if◌then◌else◌, not, Bool, false, Option, none, some, Outcome, done,
  fault, ◌>>=◌, u32,
}
use gubos.Kmalloc.{Heap, kmalloc_init}
use gubos.Meminfo.{KernelMeminfo}
use gubos.Multiboot.{Memory, read64, multiboot_framebuffer_info, multiboot_get_next_module}
use gubos.Paging.{PagingContext, init_paging}
use gubos.Pmm.{Bitmap}
use gubos.Pmm.Init.{pmm_init}
use gubos.Vmm.Context.{VmmContext, vmm_init}
use gubos.Elf.{File}
use gubos.Sched.{Sched, init_sched, sched_add, task_priority_low}
use gubos.Tty.{Tty, tty_init}
use gubos.Ps2.{ScancodeQueue}
use gubos.Ps2.Setup.{Trace, ps2_init_devices}
use gubos.Task.{Space, Tasks, TaskControlBlock, Words, task_create}
use gubos.Init.{Boot, init_create_user_task, init_create_task0}

abbrev pub multiboot2_bootloader_magic : ℕ
multiboot2_bootloader_magic = 0x36d7_6289

-- What the boot code leaves: the addresses of &INIT_ACTIVE_PAGE_DIRECTORY and of INIT_KERNEL_PAGE_TABLES, of a
-- parameter of paging_create_page_directory, and of the functions that new tasks are given.
pub record Symbols : Type 0 where
  pub page_directory : ℕ
  pub page_tables : ℕ
  pub parameter : ℕ
  pub halt : ℕ
  pub remove : ℕ
  pub goto_user_mode : ℕ
  pub test_task : ℕ

-- the state of the components
pub record Kernel : Type 0 where
  pub tty : Tty
  pub queue : ScancodeQueue
  pub ports : Trace
  pub bitmap : Bitmap
  pub heap : Heap
  pub memory : Words
  pub blocks : ℕ → TaskControlBlock
  pub bytes : File
  pub sched : Sched

-- what the first part hands on: the tasks' state with the scheduler, and where the two modules start
pub record Started : Type 0 where
  pub boot : Boot
  pub sched : Sched
  pub init_mod_addr : ℕ
  pub user_mod_addr : ℕ

-- vmm_init, which reads the framebuffer's tag
abbrev pub init_contexts : KernelMeminfo → (addr : ℕ) → Memory → Heap → Outcome (VmmContext × Heap)
init_contexts m addr mem h = do
  info ← multiboot_framebuffer_info addr mem
  let context = vmm_init m (read64 mem (u32 (info + 8))) h
  if info == 0 then fault else context

-- `stale_init` and `stale_child` are what the heap's memory holds where the copied trees of the two user tasks come
-- to lie.
module _ (m : KernelMeminfo) (symbols : Symbols) (stale_init stale_child : ℕ → ℕ) where
  -- the components behind the test of the magic number; none is an early return
  unfoldable pub start_components : (addr : ℕ) → Memory → Kernel → Outcome (Option Started)
  unfolding pmm_init init_paging kmalloc_init vmm_init multiboot_get_next_module
  start_components addr mem k = do
    bitmap ← pmm_init m addr mem k.bitmap
    (paging, cr3) ← init_paging m symbols.page_directory symbols.page_tables symbols.parameter
    (vmm, h) ← init_contexts m addr mem (kmalloc_init k.heap)
    let space : Space = record { paging = paging; vmm = vmm; heap = h; bitmap = bitmap }
    (init_mod, tag) ← multiboot_get_next_module (u32 (addr + 8)) mem
    user ← if init_mod == 0 then done (0, tag) else multiboot_get_next_module tag mem
    let tasks : Tasks = record { space = space; memory = k.memory; blocks = k.blocks; last_pid = 0 }
    let started : Started = record {
      boot = record { tasks = tasks; bytes = k.bytes };
      sched = k.sched;
      init_mod_addr = mem (u32 (init_mod + 8));
      user_mod_addr = mem (u32 (user.0 + 8));
    }
    done (if user.0 == 0 then none else some started)

  -- sched_add on the kernel's heap
  abbrev pub add_task : (task : ℕ) → Boot → Sched → Outcome (Boot × Sched)
  add_task task b s = do
    s' ← sched_add task task_priority_low (record s { heap = b.tasks.space.heap })
    done (
      record b { tasks = record b.tasks { space = record b.tasks.space { heap = s'.heap } } },
      s',
    )

  -- the loop that makes kernel tasks
  unfoldable pub add_kernel_tasks : (rounds : ℕ) → Boot → Sched → Outcome (Boot × Sched)
  unfolding task_create sched_add
  add_kernel_tasks zero b s = done (b, s)
  add_kernel_tasks (suc rounds) b s = do
    (task, t) ← task_create m symbols.halt symbols.remove symbols.test_task 0 false b.tasks
    (b', s') ← add_task task (record b { tasks = t }) s
    add_kernel_tasks rounds b' s'

  -- from init_sched on to the idle loop
  unfoldable pub start_tasks : Started → Outcome (Boot × Sched)
  unfolding task_create init_sched init_create_task0 init_create_user_task add_kernel_tasks
  start_tasks k = do
    (first, t) ← task_create m symbols.halt symbols.remove 0 0 false k.boot.tasks
    s ← init_sched first (record k.sched { heap = t.space.heap })
    let b = record k.boot { tasks = record t { space = record t.space { heap = s.heap } } }
    (init_task, b₁) ←
        init_create_task0 m stale_init symbols.halt symbols.remove symbols.goto_user_mode
          k.init_mod_addr b
    (child, b₂) ←
        init_create_user_task m stale_child symbols.halt symbols.remove symbols.goto_user_mode
          k.user_mod_addr init_task b₁
    (b₃, s₁) ← add_kernel_tasks 3 b₂ s
    (b₄, s₂) ← add_task init_task b₃ s₁
    add_task child b₄ s₂

  -- behind the early returns
  unfoldable pub go_on : Option Started → Outcome (Option (Boot × Sched))
  unfolding start_tasks
  go_on none = done none
  go_on (some s) = start_tasks s >>= λ r. done (some r)

  -- None is an early return, else what the idle loop begins with: the screen and the keyboard are not touched again.
  unfoldable pub kernel_main :
      (device : ℕ → Trace → ℕ) (patience magic addr : ℕ)
      → Memory
      → Kernel
      → Outcome (Option (Boot × Sched))
  unfolding tty_init ps2_init_devices start_components go_on
  kernel_main device patience magic addr mem k = do
    tty ← tty_init m.higher_half_base addr mem k.tty
    (queue, ports) ← ps2_init_devices device patience k.queue k.ports
    let now = record k { tty = tty; queue = queue; ports = ports }
    started ←
        if magic == multiboot2_bootloader_magic then start_components addr mem now else done none
    go_on started
