-- ===== src/Task.antt =====
-- Tasks: kernel/task.c, the kernel stacks of kernel/arch/i386/mm/addr_space.c, and the copy of a page
-- directory for a task of kernel/arch/i386/mm/vmm.c.
pub mod Stack
pub mod Start
pub mod Switch
pub mod Create
pub mod First
mod Tests
use gubos.Prelude.{
  ℕ, zero, suc, ◌+◌, ◌-◌, ◌*◌, ◌==◌, not, Bool, if◌then◌else◌, Outcome, done, fault, ◌>>=◌, ◌>>◌,
  assert, invalid_vmm_state, bit_or, u32, sub32,
}
use gubos.Kmalloc.{Heap, kmalloc}
use gubos.Meminfo.{KernelMeminfo}
use gubos.Page.{page_size, page_table_size, page_flag_present, page_flag_write}
use gubos.Paging.{PagingContext, paging_map_virtual_to_physical, set_entry}
use gubos.Pmm.{Bitmap, pmm_alloc_page}
use gubos.Vmm.Tree.{Allocation}
use gubos.Vmm.Context.{VmmContext, vmm_map_pages, vmm_find_allocation, vmm_virtual_to_physical}

abbrev pub kernel_stack_page_count : ℕ
kernel_stack_page_count = 10

abbrev pub kernel_stack_size : ℕ
kernel_stack_size = kernel_stack_page_count * page_size

-- What the routines below change: the tables behind paging_ctx, vmm_ctx, the heap and the bitmap. The tree and
-- the blocks of a context that is passed by value are the caller's, so its changes are passed on.
pub record Space : Type 0 where
  pub paging : PagingContext
  pub vmm : VmmContext
  pub heap : Heap
  pub bitmap : Bitmap

-- struct task_control_block; `parent` is an address
pub record TaskControlBlock : Type 0 where
  pub pid : ℕ
  pub kernel_stack_top : ℕ
  pub virtual_addr_space : ℕ
  pub esp0 : ℕ
  pub vmm_context : VmmContext
  pub paging_ctx : PagingContext
  pub parent : ℕ

abbrev pub task_control_block_size : ℕ
task_control_block_size = 36

-- the words of memory by their addresses; the stacks are aligned
abbrev pub Words : Type 0
Words = ℕ → ℕ

abbrev pub write : ℕ → ℕ → Words → Words
write a v mem b = if b == a then v else mem b

-- (memory, the top) after a value
unfoldable pub push_uint32 : (value : ℕ) → Words × ℕ → Words × ℕ
push_uint32 value (mem, top) = (write top value mem, sub32 top 4)

-- memory, the address spaces, the task control blocks by their addresses, and `last_pid`
pub record Tasks : Type 0 where
  pub space : Space
  pub memory : Words
  pub blocks : ℕ → TaskControlBlock
  pub last_pid : ℕ

-- the words that task_create pushes, then the one for EDI
unfoldable pub frame :
    (pid sched_halt_or_crash sched_remove ret_addr task_fn : ℕ) → Words × ℕ → Words × ℕ
unfolding push_uint32
frame pid sched_halt_or_crash sched_remove ret_addr task_fn stack =
    let cleanup =
      push_uint32 sched_remove (push_uint32 sched_halt_or_crash (push_uint32 pid stack)) in
    let back = if ret_addr == 0 then cleanup else push_uint32 ret_addr cleanup in
    let saved = push_uint32 0 (push_uint32 0 (push_uint32 0 (push_uint32 task_fn back))) in
    (write saved.1 0 saved.0, saved.1)

module _ (m : KernelMeminfo) where
  -- The loop of alloc_kernel_stack: `rounds` pages from number `i` on.
  unfoldable pub map_stack_pages :
      (rounds i bottom : ℕ) → PagingContext → Bitmap → Outcome (PagingContext × Bitmap)
  map_stack_pages zero i bottom paging bm = done (paging, bm)
  map_stack_pages (suc rounds) i bottom paging bm = do
    (physical, bm') ← pmm_alloc_page bm
    let flags = bit_or page_flag_present page_flag_write
    let v = u32 (bottom + i * page_size)
    map_stack_pages rounds (i + 1) bottom (paging_map_virtual_to_physical m v physical flags paging)
        bm'

  unfoldable pub alloc_kernel_stack : Space → Outcome (ℕ × Space)
  unfolding map_stack_pages
  alloc_kernel_stack s = do
    (physical, bm) ← pmm_alloc_page s.bitmap
    let flags = bit_or page_flag_present page_flag_write
    (bottom, vmm, h) ← vmm_map_pages m 0 physical kernel_stack_page_count flags s.vmm s.heap
    let top = u32 (bottom + kernel_stack_size - 16)
    (paging, bm') ← map_stack_pages (kernel_stack_page_count - 1) 1 bottom s.paging bm
    done (top, record { paging = paging; vmm = vmm; heap = h; bitmap = bm' })

  -- the context of the new directory, whose entries are copied; the tables are shared
  unfoldable pub vmm_clone_paging_context : Space → Outcome (PagingContext × Space)
  vmm_clone_paging_context s = do
    (physical, bm) ← pmm_alloc_page s.bitmap
    let flags = bit_or page_flag_present page_flag_write
    (directory, vmm, h) ← vmm_map_pages m 0 physical 1 flags s.vmm s.heap
    let own = bit_or (bit_or physical page_flag_present) page_flag_write
    let clone = record s.paging {
      directory_addr = directory;
      page_directory = set_entry (page_table_size - 1) own s.paging.page_directory;
    }
    done (clone, record s { vmm = vmm; heap = h; bitmap = bm })

  -- the value for CR3
  unfoldable pub task_cr3 : (is_userspace : Bool) → PagingContext → VmmContext → Outcome ℕ
  task_cr3 is_userspace paging vmm =
      let user = (do
        alloc ← vmm_find_allocation vmm paging.directory_addr
        assert (not (alloc.page_count == 0)) invalid_vmm_state
        done alloc.physical_addr) in
      if is_userspace then user else done (vmm_virtual_to_physical m paging.directory_addr)

  -- The end of task_create: the frame on the stack that ends at `top`, and the new block at `task`. Without memory for
  -- it the write goes through NULL.
  unfoldable pub install :
      (halt remove task_fn ret_addr top : ℕ) (paging : PagingContext) (space : Space) (s : Tasks)
      → (task cr3 : ℕ) → Outcome (ℕ × Tasks)
  unfolding frame
  install halt remove task_fn ret_addr top paging space s task cr3 =
      let pid = s.last_pid in
      let stack = frame pid halt remove ret_addr task_fn (s.memory, top) in
      let block : TaskControlBlock = record {
        pid = pid;
        kernel_stack_top = stack.1;
        virtual_addr_space = cr3;
        esp0 = stack.1;
        vmm_context = space.vmm;
        paging_ctx = paging;
        parent = 0;
      } in
      let s' : Tasks = record {
        space = space;
        memory = stack.0;
        blocks = λ a. if a == task then block else s.blocks a;
        last_pid = u32 (pid + 1);
      } in
      if task == 0 then fault else done (task, s')

  -- `halt` and `remove` are the addresses of sched_halt_or_crash and sched_remove.
  unfoldable pub task_create :
      (halt remove task_fn ret_addr : ℕ) (is_userspace : Bool) → Tasks → Outcome (ℕ × Tasks)
  unfolding alloc_kernel_stack vmm_clone_paging_context task_cr3 install
  task_create halt remove task_fn ret_addr is_userspace s = do
    (top, s₁) ← alloc_kernel_stack s.space
    (paging, s₂) ← if is_userspace then vmm_clone_paging_context s₁ else done (s₁.paging, s₁)
    (task, h) ← kmalloc task_control_block_size s₂.heap
    cr3 ← task_cr3 is_userspace paging s₂.vmm
    install halt remove task_fn ret_addr top paging (record s₂ { heap = h }) s task cr3
