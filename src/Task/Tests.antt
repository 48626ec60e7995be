-- ===== src/Task/Tests.antt =====
-- New tasks and switches at concrete inputs.
use mathlib.Core.Path.{subst}
use gubos.Prelude.{◌≡◌, ◌==◌, refl, inr, if◌then◌else◌, false, true, some, [], ◌∷◌, done, arith}
use gubos.Kmalloc.{
  Heap, header, kmalloc_init, write, relink, split, kmalloc_loop, max_rounds, kmalloc,
}
use gubos.Meminfo.Sample.{kernel}
use gubos.Page.{paging_is_aligned}
use gubos.Paging.{PagingContext}
use gubos.Pmm.Bitmap.{IsBitmap}
use gubos.Pmm.Alloc.{FirstFree, pmm_alloc_page-FirstFree}
use gubos.Pmm.{mem_bitmap_size, Bitmap, pmm_alloc_page, alloc_loop, trailing_ones}
use gubos.Vmm.Blocks.{
  block, new_node, is_addr_in_range, is_addr_in_user_range, is_addr_ok_for_mode, take_from, selects,
  remove_loop, remove_free_blocks,
}
use gubos.Vmm.Tree.{allocation, no_allocation, null, node, add_allocation}
use gubos.Vmm.Context.{VmmContext, context, vmm_map_pages, vmm_virtual_to_physical}
use gubos.Task.Create.{Created, task_create-Created}
use gubos.Task.Switch.{Cpu, do_task_switch, Resumed, switch-Suspended, switch-Resumed}
use gubos.Task.Start.{NewStack, frame-NewStack}
use gubos.Task.First.{Starts, new_task-Starts}
use gubos.Task.{
  push_uint32, map_stack_pages, task_control_block_size, Space, Tasks, TaskControlBlock,
  alloc_kernel_stack, task_create, task_cr3, install, frame,
}
use gubos.Task.Stack.{StackReady, alloc_kernel_stack-StackReady}

abbrev boot : Heap
boot = kmalloc_init (record { head = 0; cell = λ a. header 0 0 })

abbrev tables : PagingContext
tables = record {
  directory_addr = 0xc012_0000;
  tables_addr = 0xc013_0000;
  page_directory = λ i. 0;
  page_tables = λ i k. 0;
}

-- one block of a hundred pages, and nothing allocated
abbrev vmm : VmmContext
vmm =
    context (node 0xe000_0008 (some 0) no_allocation null null)
      (block 0xe000_1000 0xd000_0000 100 ∷ [])

abbrev space : Space
space = record { paging = tables; vmm = vmm; heap = boot; bitmap = λ i. 0 }

-- the first page is taken
abbrev one_page : Bitmap
one_page i = if i == 0 then 1 else 0

abbrev vmm_after : VmmContext
vmm_after =
    context (node 0xe000_0008 (some 0) (allocation 0xd000_0000 0 10 3) null null)
      (block 0xe000_1000 0xd000_a000 90 ∷ [])

pages : vmm_map_pages kernel 0 0 10 3 vmm boot ≡ done (0xd000_0000, vmm_after, boot)
unfolding vmm_map_pages remove_free_blocks remove_loop selects take_from new_node is_addr_in_range
    is_addr_ok_for_mode is_addr_in_user_range add_allocation paging_is_aligned
pages = refl

page : (bm : Bitmap) × (pmm_alloc_page (λ i. 0) ≡ done (0, bm))
unfolding pmm_alloc_page alloc_loop trailing_ones
page = (_, refl)

page_bytes : IsBitmap page.0
page_bytes =
    let first =
      subst (λ o. FirstFree mem_bitmap_size 0 (λ i. 0) o) page.1
        (pmm_alloc_page-FirstFree (λ i. 0) (λ i. omega arith)) in
    first.6

alloc_kernel_stack-StackReady_example :
    StackReady kernel refl
      (omega arith)
      0xd000_0000
      refl
      (omega arith)
      vmm_after
      (alloc_kernel_stack kernel space)
alloc_kernel_stack-StackReady_example =
    alloc_kernel_stack-StackReady kernel refl (omega arith) 0xd000_0000 refl (omega arith) 0 page.0
      vmm_after boot space refl page_bytes page.1 pages

abbrev space_after : PagingContext → Bitmap → Space
space_after paging bm = record { paging = paging; vmm = vmm_after; heap = boot; bitmap = bm }

stack :
    (paging : PagingContext) × (bm : Bitmap) × (alloc_kernel_stack kernel space
      ≡ done (0xd000_9ff0, space_after paging bm))
unfolding alloc_kernel_stack map_stack_pages pmm_alloc_page alloc_loop trailing_ones
    paging_is_aligned vmm_map_pages remove_free_blocks remove_loop selects take_from new_node
    is_addr_in_range is_addr_ok_for_mode is_addr_in_user_range add_allocation
stack = (_, _, refl)

no_block : TaskControlBlock
no_block = record {
  pid = 0;
  kernel_stack_top = 0;
  virtual_addr_space = 0;
  esp0 = 0;
  vmm_context = vmm;
  paging_ctx = tables;
  parent = 0;
}

abbrev tasks : Tasks
tasks = record { space = space; memory = λ a. 0; blocks = λ a. no_block; last_pid = 1 }

memory : (h : Heap) × (kmalloc task_control_block_size boot ≡ done (0xe000_0008, h))
unfolding kmalloc kmalloc_loop max_rounds kmalloc_init write split relink
memory = (_, refl)

installed :
    (s' : Tasks) × (install kernel 0x100 0x200 0x300 0x40_0000 0xd000_9ff0 stack.0
        (record (space_after stack.0 stack.1) { heap = memory.0 })
        tasks
        0xe000_0008
        (vmm_virtual_to_physical kernel stack.0.directory_addr)
      ≡ done (0xe000_0008, s'))
unfolding install frame
installed = (_, refl)

made : task_create kernel 0x100 0x200 0x300 0x40_0000 false tasks ≡ done (0xe000_0008, installed.0)
unfolding task_create task_cr3
made =
    let (paging, bm, got) = stack in
    let (h, room) = memory in let end = installed.1 in rw (got, room) end

task_create-Created_example :
    Created 0x100 0x200 0x300 0x40_0000 0xd000_9ff0 0xe000_0008 tasks installed.0
task_create-Created_example =
    task_create-Created kernel 0x100 0x200 0x300 0x40_0000 0xd000_9ff0 0xe000_0008 false
      (space_after stack.0 stack.1) tasks installed.0 stack.2 (omega arith) (omega arith) made

-- a task that has run at 0xd001_0000, and others
abbrev running : Cpu
running = record {
  ebx = 11;
  esi = 12;
  edi = 13;
  ebp = 14;
  esp = 0xd001_0000;
  cr3 = 0x12_0000;
  eip = 0x400;
  interrupts = true;
  tss_esp0 = 0xd001_0000;
  current = 1;
  memory = λ a. 0x500;
  blocks = λ a. no_block;
}

-- the task at 2 has run since, on its own stack
abbrev other : Cpu
other = record (do_task_switch 2 running) { esp = 0xd002_0000; current = 2 }

switch-Resumed_example : Resumed running 1 (other.blocks 1) (do_task_switch 1 other)
switch-Resumed_example =
    switch-Resumed 1 running other (omega arith) (omega arith) (omega arith) (omega arith)
      (inr (omega arith)) (omega arith) (switch-Suspended 2 running (omega arith) (omega arith))

abbrev starting : Cpu
starting = record running {
  memory = (frame 4 0x100 0x200 0 0x300 ((λ a. 0), 0xd000_9ff0)).0;
  blocks = λ a. record no_block { kernel_stack_top = 0xd000_9fd4; esp0 = 0xd000_9fd4 };
}

starting-NewStack : NewStack 4 0x100 0x200 0x300 0xd000_9fd4 0xd000_9fe8 starting.memory
unfolding frame push_uint32
starting-NewStack =
    (frame-NewStack 4 0x100 0x200 0x300 (λ a. 0) 0xd000_9ff0 (omega arith) (omega arith) 0).0

new_task-Starts_example :
    Starts 4 0x100 0x200 0x300 0xd000_9fd4 0xd000_9fe8 2
      (starting.blocks 2)
      (do_task_switch 2 starting)
new_task-Starts_example =
    new_task-Starts 4 0x100 0x200 0x300 0xd000_9fd4 0xd000_9fe8 2 starting starting-NewStack refl
      (omega arith) (omega arith) (omega arith) (omega arith) (inr (omega arith)) (omega arith)
