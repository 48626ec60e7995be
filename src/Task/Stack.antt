-- ===== src/Task/Stack.antt =====
-- The kernel stacks of kernel/arch/i386/mm/addr_space.c.
use gubos.Prelude.{
  ℕ, zero, suc, ◌+◌, ◌-◌, ◌*◌, ◌/◌, ◌%◌, ◌^◌, ◌≤◌, ◌<◌, ◌≡◌, ◌≢◌, refl, ltb, Bool-cases, inl, inr,
  some, Outcome, done, panic, fault, hang, ◌>>=◌, no_physical_page, u32, arith,
}
use gubos.Kmalloc.{Heap}
use gubos.Meminfo.{KernelMeminfo}
use gubos.Page.{page_size}
use gubos.Paging.{PagingContext, paging_map_virtual_to_physical}
use gubos.Paging.Translate.{translate}
use gubos.Paging.Frame.{map-keeps, map-page}
use gubos.Pmm.{Bitmap, pmm_alloc_page, mem_bitmap_size}
use gubos.Pmm.Bitmap.{IsBitmap}
use gubos.Pmm.Alloc.{FirstFree, pmm_alloc_page-FirstFree}
use gubos.Vmm.Context.{VmmContext, vmm_map_pages}
use gubos.Task.{
  Space, map_stack_pages, alloc_kernel_stack, kernel_stack_page_count, kernel_stack_size,
}

module _ (m : KernelMeminfo) (half : m.higher_half_base % 2 ^ 12 ≡ 0)
    (small : m.higher_half_base < 2 ^ 32) (bottom : ℕ) (aligned : bottom % 2 ^ 12 ≡ 0)
    (room : bottom + kernel_stack_size ≤ 2 ^ 32) where
  -- the addresses of the pages from the second one up to number `i` lead somewhere
  abbrev pub StackMapped : (i : ℕ) → PagingContext → Type 0
  StackMapped i paging =
      (a : ℕ)
      → bottom + page_size ≤ a
      → a < bottom + i * page_size
      → (p : ℕ) × (translate m paging a ≡ some p)

  -- all pages but the lowest are mapped, or there was no page left
  abbrev pub OnStack : PagingContext → Outcome (PagingContext × Bitmap) → Type 0
  OnStack before (done (paging, bm)) =
      StackMapped kernel_stack_page_count paging
      × (paging.tables_addr ≡ before.tables_addr)
      × IsBitmap bm
  OnStack before (panic reason) = reason ≡ no_physical_page
  OnStack before fault = ⊥
  OnStack before hang = ⊥

  StackMapped-suc :
      (i physical : ℕ) (paging : PagingContext)
      → paging.tables_addr % 2 ^ 12 ≡ 0
      → i < kernel_stack_page_count
      → StackMapped i paging
      → StackMapped
          (i + 1)
          (paging_map_virtual_to_physical m (u32 (bottom + i * page_size)) physical 3 paging)
  StackMapped-suc i physical paging tables inside mapped a low high =
      let v = u32 (bottom + i * page_size) in
      let at : v ≡ bottom + i * page_size = omega arith in
      elim (Bool-cases (ltb a (bottom + i * page_size))) [
        | inl below ↦
            let (p, old) = mapped a low (ground arith) in
            let under : a < bottom + i * page_size = ground arith in
            let other : v / 2 ^ 12 ≢ a / 2 ^ 12 = omega arith in
            (p, map-keeps m v a physical 3 p paging tables half small (omega arith) refl other old)
        | inr here ↦
            let above : bottom + i * page_size ≤ a = ground arith in
            let same : v / 2 ^ 12 ≡ a / 2 ^ 12 = omega arith in
            (
              physical / 2 ^ 12 * 2 ^ 12 + a % 2 ^ 12,
              map-page m v a physical 3 paging tables half small (omega arith) refl same,
            )
      ]

  -- one round, whatever pmm_alloc_page does
  round-OnStack :
      (rounds i : ℕ) (paging : PagingContext) (bm : Bitmap) (o : Outcome (ℕ × Bitmap))
      → FirstFree mem_bitmap_size 0 bm o
      → ((physical : ℕ) (bm' : Bitmap)
          → IsBitmap bm'
          → OnStack paging (
              map_stack_pages m rounds
                (i + 1)
                bottom
                (paging_map_virtual_to_physical m (u32 (bottom + i * page_size)) physical 3 paging)
                bm'))
      → OnStack paging (
          o >>= λ r.
          map_stack_pages m rounds
            (i + 1)
            bottom
            (paging_map_virtual_to_physical m (u32 (bottom + i * page_size)) r.0 3 paging)
            r.1)
  round-OnStack rounds i paging bm (done (physical, bm')) f next = next physical bm' f.6
  round-OnStack rounds i paging bm (panic reason) f next = f.0
  round-OnStack rounds i paging bm fault f next = f
  round-OnStack rounds i paging bm hang f next = f

  map_stack_pages-OnStack :
      (rounds i : ℕ) (paging : PagingContext) (bm : Bitmap)
      → i + rounds ≡ kernel_stack_page_count
      → paging.tables_addr % 2 ^ 12 ≡ 0
      → IsBitmap bm
      → StackMapped i paging
      → OnStack paging (map_stack_pages m rounds i bottom paging bm)
  unfolding map_stack_pages paging_map_virtual_to_physical
  map_stack_pages-OnStack zero i paging bm count tables bytes mapped =
      ((λ a low high. mapped a low (omega arith)), refl, bytes)
  map_stack_pages-OnStack (suc rounds) i paging bm count tables bytes mapped =
      round-OnStack rounds i paging bm (pmm_alloc_page bm) (pmm_alloc_page-FirstFree bm bytes)
        (λ physical bm' bytes'.
          map_stack_pages-OnStack rounds (i + 1)
            (paging_map_virtual_to_physical m (u32 (bottom + i * page_size)) physical 3 paging) bm'
            (omega arith) tables bytes'
            (StackMapped-suc i physical paging tables (omega arith) mapped))

  -- What alloc_kernel_stack makes of the pages at `bottom`.
  abbrev pub StackReady : VmmContext → Outcome (ℕ × Space) → Type 0
  StackReady vmm (done (top, s')) =
      (top ≡ bottom + kernel_stack_size - 16)
      × (top % 16 ≡ 0)
      × StackMapped kernel_stack_page_count s'.paging
      × (s'.vmm ≡ vmm)
      × IsBitmap s'.bitmap
  StackReady vmm (panic reason) = reason ≡ no_physical_page
  StackReady vmm fault = ⊥
  StackReady vmm hang = ⊥

  ready :
      (before : PagingContext) (vmm : VmmContext) (h : Heap)
      → (o : Outcome (PagingContext × Bitmap)) → OnStack before o
      → StackReady vmm (
          o >>= λ r. done (
            u32 (bottom + kernel_stack_size - 16),
            record { paging = r.0; vmm = vmm; heap = h; bitmap = r.1 },
          ))
  ready before vmm h (done (paging, bm)) (mapped, _, bytes) =
      (omega arith, omega arith, mapped, refl, bytes)
  ready before vmm h (panic reason) f = f
  ready before vmm h fault f = f
  ready before vmm h hang f = f

  -- If vmm_map_pages gives ten pages at an aligned address whose end is in the address space,
  -- alloc_kernel_stack returns the address 16 bytes below their end, aligned to 16 bytes, with every
  -- address of the pages but the lowest one mapped, or it panics because no physical page is left.
  pub alloc_kernel_stack-StackReady :
      (physical : ℕ) (bm : Bitmap) (vmm : VmmContext) (h : Heap) (s : Space)
      → s.paging.tables_addr % 2 ^ 12 ≡ 0
      → IsBitmap bm
      → pmm_alloc_page s.bitmap ≡ done (physical, bm)
      → vmm_map_pages m 0 physical kernel_stack_page_count 3 s.vmm s.heap ≡ done (bottom, vmm, h)
      → StackReady vmm (alloc_kernel_stack m s)
  unfolding alloc_kernel_stack
  alloc_kernel_stack-StackReady physical bm vmm h s tables bytes page pages =
      let none : StackMapped 1 s.paging = λ a low high. absurd (omega arith) in
      rw (page, pages)
        (ready s.paging vmm h (map_stack_pages m 9 1 bottom s.paging bm)
          (map_stack_pages-OnStack 9 1 s.paging bm refl tables bytes none))
