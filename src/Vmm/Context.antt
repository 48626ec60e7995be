-- ===== src/Vmm/Context.antt =====
-- The contexts of kernel/arch/i386/mm/vmm.c: an allocation tree and a list of free blocks, and the
-- operations of vmm.h on them. The kernel heap is passed through.
pub mod Map
pub mod Clone
use gubos.Prelude.{
  ℕ, ◌+◌, ◌-◌, ◌/◌, ◌^◌, ◌==◌, not, Bool, true, false, some, List, [], ◌∷◌, Outcome, done, ◌>>=◌,
  ◌>>◌, assert, unaligned_virtual, unaligned_physical, out_of_memory, bit_and, bit_or, u32, sub32,
}
use gubos.Kmalloc.{Heap, kernel_heap_virt_start, kernel_heap_phys_start, kernel_heap_size}
use gubos.Meminfo.{KernelMeminfo}
use gubos.Page.{
  page_size, page_flag_present, page_flag_write, page_flag_user, paging_page_count,
  paging_is_aligned,
}
use gubos.Vmm.Blocks.{FreeBlock, new_node, remove_free_blocks, add_free_blocks, clone_free_blocks}
use gubos.Vmm.Tree.{
  Allocation, allocation, no_allocation, AllocTree, null, node, tree_size, add_allocation,
  unmap_loop, find_allocation, clone_allocations,
}

-- struct vmm_context
pub record VmmContext : Type 0 where
  pub allocations : AllocTree
  pub free_blocks : List FreeBlock

abbrev pub context : AllocTree → List FreeBlock → VmmContext
context t bs = record { allocations = t; free_blocks = bs }

-- struct addr_space_entry
pub record AddrSpaceEntry : Type 0 where
  pub virtual_start : ℕ
  pub physical_start : ℕ
  pub page_count : ℕ
  pub flags : ℕ

abbrev pub entry : ℕ → ℕ → ℕ → ℕ → AddrSpaceEntry
entry v p n f = record { virtual_start = v; physical_start = p; page_count = n; flags = f }

unfoldable pub create_empty_ctx : Heap → Outcome (VmmContext × Heap)
unfolding new_node
create_empty_ctx h = do
  (p, h') ← new_node tree_size h
  done (context (node p (some 0) no_allocation null null) [], h')

-- `vmm_context->free_blocks` as a condition
abbrev pub has_blocks : List FreeBlock → Bool
has_blocks [] = false
has_blocks (b ∷ bs) = true

module _ (m : KernelMeminfo) where
  unfoldable pub vmm_map_pages :
      (v physical n flags : ℕ) → VmmContext → Heap → Outcome (ℕ × VmmContext × Heap)
  vmm_map_pages v physical n flags ctx h = do
    let is_userspace = not (bit_and flags page_flag_user == 0)
    assert (paging_is_aligned v) unaligned_virtual
    assert (paging_is_aligned physical) unaligned_physical
    assert (has_blocks ctx.free_blocks) out_of_memory
    (addr, blocks, h₁) ←
        remove_free_blocks m.higher_half_base m.virtual_start v n is_userspace ctx.free_blocks h
    (tree, h₂) ← add_allocation (allocation addr physical n flags) ctx.allocations h₁
    done (addr, context tree blocks, h₂)

  unfoldable pub vmm_unmap_pages : (v n : ℕ) → VmmContext → Heap → Outcome (VmmContext × Heap)
  vmm_unmap_pages v n ctx h = do
    assert (paging_is_aligned v) unaligned_virtual
    (blocks, h₁) ← add_free_blocks m.higher_half_base v n ctx.free_blocks h
    (tree, h₂) ← unmap_loop v n 0 ctx.allocations h₁
    done (context tree blocks, h₂)

  unfoldable pub map_entries : List AddrSpaceEntry → VmmContext → Heap → Outcome (VmmContext × Heap)
  unfolding vmm_map_pages
  map_entries [] ctx h = done (ctx, h)
  map_entries (e ∷ es) ctx h = do
    (_, ctx', h') ← vmm_map_pages e.virtual_start e.physical_start e.page_count e.flags ctx h
    map_entries es ctx' h'

  -- `entries` is the array ADDR_SPACE
  unfoldable pub vmm_new_context : List AddrSpaceEntry → Heap → Outcome (VmmContext × Heap)
  unfolding create_empty_ctx add_free_blocks map_entries
  vmm_new_context entries h = do
    (ctx, h₁) ← create_empty_ctx h
    let total_page_count = 2 ^ 32 / page_size
    let user_page_count = m.higher_half_base / page_size
    let kernel_page_count = total_page_count - user_page_count
    (user, h₂) ← add_free_blocks m.higher_half_base 0 user_page_count ctx.free_blocks h₁
    (both, h₃) ← add_free_blocks m.higher_half_base m.higher_half_base kernel_page_count user h₂
    map_entries entries (context ctx.allocations both) h₃

  -- `framebuffer_addr` is a 64-bit address, cut to 32 bits by the assignment
  unfoldable pub addr_space : (framebuffer_addr : ℕ) → List AddrSpaceEntry
  unfolding paging_page_count
  addr_space framebuffer_addr =
      let writable = bit_or page_flag_present page_flag_write in
      entry m.text_virtual_start m.text_physical_start
        (paging_page_count (sub32 m.text_virtual_end m.text_virtual_start)) page_flag_present
      ∷ entry m.rodata_virtual_start m.rodata_physical_start
          (paging_page_count (sub32 m.rodata_virtual_end m.rodata_virtual_start)) page_flag_present
      ∷ entry m.data_virtual_start m.data_physical_start
          (paging_page_count (sub32 m.data_virtual_end m.data_virtual_start)) writable
      ∷ entry m.bss_virtual_start m.bss_physical_start
          (paging_page_count (sub32 m.bss_virtual_end m.bss_virtual_start)) writable
      ∷ entry kernel_heap_virt_start kernel_heap_phys_start (paging_page_count kernel_heap_size)
          writable
      ∷ entry m.higher_half_base (u32 framebuffer_addr) 1 writable
      ∷ []

  unfoldable pub vmm_init : (framebuffer_addr : ℕ) → Heap → Outcome (VmmContext × Heap)
  unfolding addr_space vmm_new_context
  vmm_init framebuffer_addr h = vmm_new_context (addr_space framebuffer_addr) h

  unfoldable pub vmm_virtual_to_physical : ℕ → ℕ
  vmm_virtual_to_physical addr = sub32 addr m.higher_half_base

  unfoldable pub vmm_physical_to_virtual : ℕ → ℕ
  vmm_physical_to_virtual addr = u32 (addr + m.higher_half_base)

unfoldable pub vmm_find_allocation : VmmContext → ℕ → Outcome Allocation
unfolding find_allocation
vmm_find_allocation ctx v = find_allocation v ctx.allocations

-- `stale` is what the memory of the new tree nodes holds before anything is written to it.
unfoldable pub vmm_clone_context : (stale : ℕ → ℕ) → VmmContext → Heap → Outcome (VmmContext × Heap)
unfolding clone_free_blocks clone_allocations
vmm_clone_context stale ctx h = do
  (blocks, h₁) ← clone_free_blocks ctx.free_blocks h
  (tree, h₂) ← clone_allocations stale ctx.allocations h₁
  done (context tree blocks, h₂)
