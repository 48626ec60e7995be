-- ===== src/Kmalloc/Reuse.antt =====
-- Memory given back to kernel/kmalloc.c is handed out again.
use gubos.Prelude.{◌+◌, ◌<◌, ◌^◌, ◌≡◌, some, List, ◌∷◌, ◌++◌, done, arith}
use mathlib.Core.Path.{subst}
use gubos.Kmalloc.{Heap, header_size, kmalloc, kfree}
use gubos.Kmalloc.Regions.{Region, carve, All, InHeap}
use gubos.Kmalloc.Invariant.{IsHeap, Allocated, kmalloc-IsHeap}
use gubos.Kmalloc.Free.{kfree-IsHeap}

-- a first free region of the size asked for is taken whole
carve-first : (r : Region) (free : List Region) → carve r.size (r ∷ free) ≡ some (r.start, free)
unfolding carve
carve-first r free = ground arith

first-inside :
    (r : Region) (free : List Region) → All InHeap (r ∷ free) → r.size + header_size < 2 ^ 32
first-inside r free inside = omega (arith, inside.0)

-- On a heap that satisfies the invariant, after kfree of a live region a request for as many bytes as it has
-- returns the same address; the free regions are those of before, the region is live again, and the invariant
-- holds.
pub kfree-kmalloc :
    (xs : List Region) (r : Region) (ys : List Region) {h : Heap} {free : List Region}
    → IsHeap h free (xs ++ r ∷ ys)
    → (h' : Heap) × (kmalloc r.size (kfree (r.start + header_size) h)
        ≡ done (r.start + header_size, h'))
      × IsHeap h' free (r ∷ xs ++ ys)
kfree-kmalloc xs r ys {h} {free} v =
    let freed = kfree-IsHeap xs r ys v in
    let served = kmalloc-IsHeap r.size (first-inside r free freed.inside_free) freed in
    subst
      (λ o.
        Allocated r.size (kfree (r.start + header_size) h) (r ∷ free) (xs ++ ys)
          (kmalloc r.size (kfree (r.start + header_size) h)) o)
      (carve-first r free) served
