-- ===== src/Paging.antt =====
-- The page directory and the page tables: kernel/arch/i386/mm/paging.c and
-- kernel/arch/i386/include/mm/paging.h.
pub mod Translate
pub mod Bootstrap
pub mod Frame
mod Tests
use gubos.Prelude.{
  ℕ, zero, suc, ◌+◌, ◌-◌, ◌*◌, ◌/◌, ◌^◌, ◌==◌, ltb, if◌then◌else◌, not, Outcome, done, hang, ◌>>=◌,
  ◌>>◌, assert, no_page_directory, no_page_tables, bit_and, bit_or, u32,
}
use gubos.Kmalloc.{kernel_heap_virt_start, kernel_heap_phys_start, kernel_heap_size}
use gubos.Meminfo.{KernelMeminfo}
use gubos.Page.{page_size, page_table_size, page_flag_present, page_flag_write}
use gubos.Vmm.Context.{vmm_virtual_to_physical}

-- struct paging_context: the two pointers, and the entries that they lead to
pub record PagingContext : Type 0 where
  pub directory_addr : ℕ
  pub tables_addr : ℕ
  pub page_directory : ℕ → ℕ
  pub page_tables : ℕ → ℕ → ℕ

abbrev pub page_directory_start : ℕ
page_directory_start = 22

abbrev pub page_table_start : ℕ
page_table_start = 12

unfoldable pub page_directory_index : ℕ → ℕ
page_directory_index vaddr = vaddr / 2 ^ page_directory_start

unfoldable pub page_table_index : ℕ → ℕ
page_table_index vaddr = bit_and (vaddr / 2 ^ page_table_start) 1023

abbrev pub set_entry : ℕ → ℕ → (ℕ → ℕ) → ℕ → ℕ
set_entry i v t j = if j == i then v else t j

abbrev pub set_table_entry : ℕ → ℕ → ℕ → (ℕ → ℕ → ℕ) → ℕ → ℕ → ℕ
set_table_entry i k v t j l = if j == i then set_entry k v (t j) l else t j l

module _ (m : KernelMeminfo) where
  -- the physical address of the table at an index; sizeof(page_table_t) is 4096
  unfoldable pub page_table_addr : ℕ → PagingContext → ℕ
  page_table_addr i ctx = vmm_virtual_to_physical m (u32 (ctx.tables_addr + i * 4096))

  unfoldable pub paging_map_virtual_to_physical :
      (v physical flags : ℕ) → PagingContext → PagingContext
  unfolding page_table_addr page_directory_index page_table_index
  paging_map_virtual_to_physical v physical flags ctx =
      let i = page_directory_index v in
      let k = page_table_index v in
      let page_start_addr = physical / 2 ^ 12 * 2 ^ 12 in
      record ctx {
        page_directory = set_entry i (bit_or (page_table_addr i ctx) flags) ctx.page_directory;
        page_tables = set_table_entry i k (bit_or page_start_addr flags) ctx.page_tables;
      }

  unfoldable pub paging_unmap_addr : (v : ℕ) → PagingContext → PagingContext
  unfolding page_table_addr page_directory_index page_table_index
  paging_unmap_addr v ctx =
      let i = page_directory_index v in
      let k = page_table_index v in
      record ctx {
        page_directory = set_entry i (page_table_addr i ctx) ctx.page_directory;
        page_tables = set_table_entry i k 0 ctx.page_tables;
      }

  -- The loops over the kernel and its heap; `i` is a uint64_t and does not wrap.
  unfoldable pub map_pages_loop :
      (fuel i vstart pstart size : ℕ) → PagingContext → Outcome PagingContext
  unfolding paging_map_virtual_to_physical
  map_pages_loop zero i vstart pstart size ctx = hang
  map_pages_loop (suc fuel) i vstart pstart size ctx =
      let ctx' =
        paging_map_virtual_to_physical (u32 (vstart + i * page_size)) (u32 (pstart + i * page_size))
          (bit_or page_flag_present page_flag_write) ctx in
      let rest = map_pages_loop fuel (i + 1) vstart pstart size ctx' in
      if ltb (i * page_size) size then rest else done ctx

  -- The pointers are not NULL at their use. `parameter_addr` is the address of the C parameter
  -- page_directory itself, which is what the code takes; the entries begin as 0. A 32-bit range has at
  -- most 2 ^ 20 pages.
  unfoldable pub paging_create_page_directory :
      (page_directory page_tables parameter_addr : ℕ) → Outcome PagingContext
  unfolding map_pages_loop
  paging_create_page_directory page_directory page_tables parameter_addr = do
    assert (not (page_directory == 0)) no_page_directory
    assert (not (page_tables == 0)) no_page_tables
    let clear : PagingContext = record {
      directory_addr = page_directory;
      tables_addr = page_tables;
      page_directory = λ i. 0;
      page_tables = λ i k. 0;
    }
    kernel ←
        map_pages_loop 0x10_0001 0 m.higher_half_base 0 (m.virtual_end - m.higher_half_base) clear
    heap ←
        map_pages_loop 0x10_0001 0 kernel_heap_virt_start kernel_heap_phys_start kernel_heap_size
          kernel
    let cr3 = vmm_virtual_to_physical m parameter_addr
    let last = bit_or (bit_or cr3 page_flag_present) page_flag_write
    done (record heap { page_directory = set_entry (page_table_size - 1) last heap.page_directory })

  -- (ACTIVE_PAGING_CTX, CR3)
  unfoldable pub init_paging :
      (page_directory page_tables parameter_addr : ℕ) → Outcome (PagingContext × ℕ)
  unfolding paging_create_page_directory
  init_paging page_directory page_tables parameter_addr = do
    ctx ← paging_create_page_directory page_directory page_tables parameter_addr
    done (ctx, vmm_virtual_to_physical m ctx.directory_addr)
