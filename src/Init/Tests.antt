-- ===== src/Init/Tests.antt =====
-- A user task at concrete inputs.
use gubos.Prelude.{ℕ, ◌≡◌, fault, refl, ◌==◌, if◌then◌else◌, some, [], ◌∷◌, done, arith}
use gubos.Kmalloc.{Heap, header, write, relink, split, kmalloc_loop, max_rounds, kmalloc}
use gubos.Meminfo.Sample.{kernel}
use gubos.Page.{paging_is_aligned}
use gubos.Paging.{PagingContext}
use gubos.Pmm.{pmm_alloc_page, alloc_loop, trailing_ones}
use gubos.Vmm.Blocks.{
  block, new_node, is_addr_in_range, is_addr_in_user_range, is_addr_ok_for_mode, take_from, selects,
  remove_loop, remove_free_blocks, clone_loop, clone_free_blocks,
}
use gubos.Vmm.Tree.{
  no_allocation, null, node, add_allocation, insert, find_allocation, clone_allocations,
  clone_allocation_tree,
}
use gubos.Vmm.Context.{VmmContext, context, vmm_map_pages, vmm_find_allocation, vmm_clone_context}
use gubos.Elf.{Elf32Hdr, code, File, elf_parse_header, check_header, read_header}
use gubos.Elf.Loader.{elf_load, load_headers}
use gubos.Task.{
  Space, TaskControlBlock, alloc_kernel_stack, map_stack_pages, task_create,
  vmm_clone_paging_context, task_cr3, install, frame,
}
use gubos.Init.{file_at, Boot, map_user_stack, fill_user_task, init_create_user_task}
use gubos.Init.Created.{Launched, create_user_task-Launched}

-- the bytes of an executable without segments at 0xd000_0000, whose entry is at 0x40_0000
abbrev file : File
file k =
    if k == 0xd000_0000
    then 0x7f
    else if k == 0xd000_0001
    then 0x45
    else if k == 0xd000_0002
    then 0x4c
    else if k == 0xd000_0003
    then 0x46
    else if k == 0xd000_0004
    then 1
    else if k == 0xd000_0005
    then 1
    else if k == 0xd000_0010
    then 2
    else if k == 0xd000_0012
    then 3
    else if k == 0xd000_001a
    then 0x40
    else 0

abbrev tables : PagingContext
tables = record {
  directory_addr = 0xc012_0000;
  tables_addr = 0xc013_0000;
  page_directory = λ i. 0;
  page_tables = λ i k. 0;
}

-- a block for users, one for the kernel, and nothing allocated
abbrev vmm : VmmContext
vmm =
    context (node 0xe000_0008 (some 0) no_allocation null null)
      (block 0xe000_0020 0x1000 0xb_ffff ∷ block 0xe000_0034 0xd000_0000 100 ∷ [])

abbrev heap : Heap
heap = record {
  head = 0xe000_1000;
  cell = λ a. if a == 0xe000_1000 then header 0x10_0000 0 else header 0 0;
}

no_block : TaskControlBlock
no_block = record {
  pid = 0;
  kernel_stack_top = 0;
  virtual_addr_space = 0;
  esp0 = 0;
  vmm_context = vmm;
  paging_ctx = tables;
  parent = 0;
}

abbrev boot : Boot
boot = record {
  tasks = record {
    space = record { paging = tables; vmm = vmm; heap = heap; bitmap = λ i. 0 };
    memory = λ a. 0;
    blocks = λ a. no_block;
    last_pid = 2;
  };
  bytes = file;
}

-- Where the copied nodes come to lie, the heap's memory holds zeros.
abbrev zeros : ℕ → ℕ
zeros a = 0

mapped :
    (vmm' : VmmContext) × (h : Heap) × (vmm_map_pages kernel 0 0x50_0000 1 3 vmm heap
      ≡ done (0xd000_0000, vmm', h))
unfolding vmm_map_pages paging_is_aligned remove_free_blocks remove_loop selects take_from new_node
    is_addr_in_range is_addr_ok_for_mode is_addr_in_user_range add_allocation
mapped = (_, _, refl)

stack :
    (s : Space) × (alloc_kernel_stack kernel
        (record boot.tasks.space { vmm = mapped.0; heap = mapped.1 })
      ≡ done (0xd000_aff0, s))
unfolding mapped alloc_kernel_stack map_stack_pages pmm_alloc_page alloc_loop trailing_ones
    vmm_map_pages paging_is_aligned remove_free_blocks remove_loop selects take_from new_node
    is_addr_in_range is_addr_ok_for_mode is_addr_in_user_range add_allocation insert kmalloc
    kmalloc_loop max_rounds write split relink
stack = (_, refl)

run :
    (task : ℕ) × (b : Boot) × (init_create_user_task kernel zeros 0x100 0x200 0x300 0x50_0000
        0xe000_2000 boot
      ≡ done (task, b))
unfolding init_create_user_task fill_user_task map_user_stack task_create task_cr3 install frame
    alloc_kernel_stack map_stack_pages vmm_clone_paging_context pmm_alloc_page alloc_loop
    trailing_ones vmm_map_pages paging_is_aligned remove_free_blocks remove_loop selects take_from
    new_node is_addr_in_range is_addr_ok_for_mode is_addr_in_user_range add_allocation insert
    kmalloc kmalloc_loop max_rounds write split relink vmm_clone_context clone_free_blocks
    clone_loop clone_allocations clone_allocation_tree elf_load load_headers vmm_find_allocation
    find_allocation elf_parse_header check_header read_header
run = (_, _, refl)

create_user_task-Launched_example :
    let parse = elf_parse_header (file_at 0xd000_0000 file) 1024 in
    (code parse.0 ≡ 0)
    × (header : Elf32Hdr) × (parse.1 ≡ some header)
    × Launched 0x100 0x200 0x300 header.entry 0xe000_2000 0xd000_aff0 run.0 boot.tasks run.1.tasks
create_user_task-Launched_example =
    create_user_task-Launched kernel zeros 0x100 0x200 0x300 0x50_0000 0xe000_2000 0xd000_0000
      0xd000_aff0 run.0 mapped.0 mapped.1 stack.0 boot run.1 mapped.2 stack.1 (omega arith)
      (omega arith) run.2

-- where the memory holds no zeros, the stack's first page leads to a stray pointer
run_dirty :
    init_create_user_task kernel (λ a. 7) 0x100 0x200 0x300 0x50_0000 0xe000_2000 boot ≡ fault
unfolding init_create_user_task fill_user_task map_user_stack task_create task_cr3 install frame
    alloc_kernel_stack map_stack_pages vmm_clone_paging_context pmm_alloc_page alloc_loop
    trailing_ones vmm_map_pages paging_is_aligned remove_free_blocks remove_loop selects take_from
    new_node is_addr_in_range is_addr_ok_for_mode is_addr_in_user_range add_allocation insert
    kmalloc kmalloc_loop max_rounds write split relink vmm_clone_context clone_free_blocks
    clone_loop clone_allocations clone_allocation_tree elf_load load_headers vmm_find_allocation
    find_allocation elf_parse_header check_header read_header
run_dirty = refl
