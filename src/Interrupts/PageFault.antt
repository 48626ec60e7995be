-- ===== src/Interrupts/PageFault.antt =====
-- The page fault handler: kernel/arch/i386/interrupts/page_fault.c. The address in CR2 is an argument, and
-- the debug output is left out.
pub mod Resolve
use gubos.Prelude.{
  ℕ, ◌==◌, if◌then◌else◌, not, Outcome, done, panic, ◌>>=◌, ◌>>◌, assert, user_protection_fault,
  kernel_protection_fault, invalid_vmm_state, bit_and,
}
use gubos.Meminfo.{KernelMeminfo}
use gubos.Page.{paging_align_addr}
use gubos.Paging.{PagingContext, paging_map_virtual_to_physical}
use gubos.Pmm.{Bitmap, pmm_alloc_page}
use gubos.Vmm.Tree.{Allocation}
use gubos.Vmm.Context.{VmmContext, vmm_find_allocation}

abbrev pub paging_err_code_p : ℕ
paging_err_code_p = 1

abbrev pub paging_err_code_us : ℕ
paging_err_code_us = 4

-- the contexts of the running task, and the bitmap of the physical pages
pub record FaultState : Type 0 where
  pub paging : PagingContext
  pub vmm : VmmContext
  pub bitmap : Bitmap

-- the physical address to map: the allocation's, or a page of its own
unfoldable pub physical_page : Allocation → Bitmap → Outcome (ℕ × Bitmap)
physical_page alloc bm =
    let fixed : ℕ × Bitmap = (alloc.physical_addr, bm) in
    let fresh = pmm_alloc_page bm in if alloc.physical_addr == 0 then fresh else done fixed

unfoldable pub page_fault_handler :
    KernelMeminfo → (addr err_code : ℕ) → FaultState → Outcome FaultState
page_fault_handler m addr err_code s =
    let aligned_vaddr = paging_align_addr addr in
    let resolved = vmm_find_allocation s.vmm aligned_vaddr >>= λ alloc.
    assert (not (alloc.page_count == 0)) invalid_vmm_state
    >> (physical_page alloc s.bitmap >>= λ (physical, bm). done (record s {
      paging = paging_map_virtual_to_physical m aligned_vaddr physical alloc.flags s.paging;
      bitmap = bm;
    })) in
    if bit_and err_code paging_err_code_p == 0
    then resolved
    else if bit_and err_code paging_err_code_us == 0
    then panic kernel_protection_fault
    else panic user_protection_fault
