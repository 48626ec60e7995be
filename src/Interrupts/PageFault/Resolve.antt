-- ===== src/Interrupts/PageFault/Resolve.antt =====
-- What the page fault handler does with a fault, by its cause.
use gubos.Prelude.{
  ℕ, ◌+◌, ◌*◌, ◌/◌, ◌%◌, ◌^◌, ◌<◌, ◌≡◌, ◌≢◌, refl, ap, ◌∙◌, ◌==◌, if◌then◌else◌, some, done, panic,
  user_protection_fault, kernel_protection_fault, bit_and, true, false, arith,
}
use gubos.Meminfo.{KernelMeminfo}
use gubos.Page.{paging_align_addr}
use gubos.Paging.{PagingContext, paging_map_virtual_to_physical}
use gubos.Paging.Translate.{translate, map-translate}
use gubos.Vmm.Tree.{Allocation}
use gubos.Vmm.Context.{vmm_find_allocation}
use gubos.Interrupts.PageFault.{FaultState, page_fault_handler, physical_page}

-- A fault on a page that is present halts the machine, with one message for the user and one for the kernel.
protection_fault :
    (m : KernelMeminfo) (addr err_code : ℕ) (s : FaultState)
    → bit_and err_code 1 ≢ 0
    → page_fault_handler m addr err_code s
      ≡ panic (if bit_and err_code 4 == 0 then kernel_protection_fault else user_protection_fault)
unfolding page_fault_handler
protection_fault m addr err_code s present = ground arith

align-start : (addr x : ℕ) → x + paging_align_addr addr % 2 ^ 12 ≡ x
unfolding paging_align_addr
align-start addr x = omega arith

-- A fault on a page that is not present (the lowest bit of the error code is clear), for which the context finds an
-- allocation that has pages, a physical address other than 0, and flags below 2^12 that say present, maps the page of
-- the fault to the allocation's first physical page, wherever in the allocation the fault was; the bitmap and the
-- allocations stay. The page tables and the higher half are at page boundaries, and the higher half is below 2^32.
pub fixed_page_fault :
    (m : KernelMeminfo) (addr err_code : ℕ) (s : FaultState) (a : Allocation)
    → bit_and err_code 1 ≡ 0
    → vmm_find_allocation s.vmm (paging_align_addr addr) ≡ done a
    → a.page_count ≢ 0
    → a.physical_addr ≢ 0
    → a.flags < 2 ^ 12
    → a.flags % 2 ≡ 1
    → s.paging.tables_addr % 2 ^ 12 ≡ 0
    → m.higher_half_base % 2 ^ 12 ≡ 0
    → m.higher_half_base < 2 ^ 32
    → (p : PagingContext) × (page_fault_handler m addr err_code s ≡ done (record s { paging = p }))
      × (translate m p (paging_align_addr addr) ≡ some (a.physical_addr / 2 ^ 12 * 2 ^ 12))
unfolding page_fault_handler physical_page
fixed_page_fault m addr err_code s a absent found counted fixed fits present ht hb small =
    let v = paging_align_addr addr in
    let p = paging_map_virtual_to_physical m v a.physical_addr a.flags s.paging in
    let e₁ : (bit_and err_code 1 == 0) ≡ true = ground arith in
    let e₂ : (a.page_count == 0) ≡ false = ground arith in
    let e₃ : (a.physical_addr == 0) ≡ false = ground arith in
    let run : page_fault_handler m addr err_code s ≡ done (record s { paging = p }) =
      rw (e₁, found, e₂, e₃) refl in
    (
      p,
      run,
      map-translate m v a.physical_addr a.flags s.paging ht hb small fits present
          ∙ ap (λ x. some x) (align-start addr (a.physical_addr / 2 ^ 12 * 2 ^ 12)),
    )
