-- ===== src/Kmalloc/Tests.antt =====
-- The kernel heap at concrete inputs.
use gubos.Prelude.{ℕ, ◌+◌, ◌-◌, ◌≡◌, [], ◌∷◌, done, arith}
use gubos.Kmalloc.{
  Heap, header, header_size, kernel_heap_virt_start, kernel_heap_size, kmalloc_init, kmalloc, kfree,
}
use gubos.Kmalloc.Regions.{Region, region, carve, All, InHeap, Apart}
use gubos.Kmalloc.Invariant.{IsHeap, Allocated, kmalloc_init-IsHeap, kmalloc-IsHeap}
use gubos.Kmalloc.Free.{kfree-IsHeap}
use gubos.Kmalloc.Reuse.{kfree-kmalloc}
use gubos.Kmalloc.Client.{Reach, Reach-Apart, kmalloc_total}

abbrev boot : Heap
boot = record { head = 0; cell = λ a. header 0 0 }

abbrev whole : Region
whole = region kernel_heap_virt_start (kernel_heap_size - header_size)

abbrev first : Region
first = region kernel_heap_virt_start 16

abbrev others : Region
others = region (kernel_heap_virt_start + 24) (kernel_heap_size - 32)

kmalloc-IsHeap_example :
    Allocated 16
      (kmalloc_init boot)
      (whole ∷ [])
      []
      (kmalloc 16 (kmalloc_init boot))
      (carve 16 (whole ∷ []))
kmalloc-IsHeap_example = kmalloc-IsHeap 16 (omega arith) (kmalloc_init-IsHeap boot)

taken :
    (h : Heap) × (kmalloc 16 (kmalloc_init boot) ≡ done (first.start + header_size, h))
    × IsHeap h (others ∷ []) (first ∷ [])
unfolding carve
taken = kmalloc-IsHeap 16 (omega arith) (kmalloc_init-IsHeap boot)

kfree-IsHeap_example : IsHeap (kfree (first.start + header_size) taken.0) (first ∷ others ∷ []) []
kfree-IsHeap_example = kfree-IsHeap [] first [] taken.2

kfree-kmalloc_example :
    (h : Heap) × (kmalloc 16 (kfree (first.start + header_size) taken.0)
      ≡ done (first.start + header_size, h))
    × IsHeap h (others ∷ []) (first ∷ [])
kfree-kmalloc_example = kfree-kmalloc [] first [] taken.2

Reach-Apart_example : Apart (first ∷ []) × All InHeap (first ∷ [])
Reach-Apart_example = Reach-Apart (
    Reach.alloc 16 (first.start + header_size) (Reach.init boot) (omega arith) taken.1
      (omega arith))

kmalloc_total_example : (p : ℕ) × (h : Heap) × (kmalloc 16 (kmalloc_init boot) ≡ done (p, h))
kmalloc_total_example = kmalloc_total 16 (omega arith) (Reach.init boot)
