-- ===== src/Kmalloc/Invariant.antt =====
-- The invariant of the kernel heap (kernel/kmalloc.c), kept by kmalloc_init, kmalloc and kfree.
use gubos.Prelude.{
  ℕ, ◌+◌, ◌-◌, ◌*◌, ◌≤◌, ◌<◌, ◌^◌, ◌≡◌, refl, ◌∙◌, Option, none, some, Outcome, done, List, [], ◌∷◌,
  length, arith,
}
use gubos.Kmalloc.{
  Heap, header_size, kernel_heap_virt_start, kernel_heap_size, kmalloc_init, max_rounds, kmalloc,
}
use gubos.Kmalloc.Regions.{
  Region, region, carve, All, Off, Off-symm, InHeap, Apart, footprint, NoFit, Carved, carve-Carved,
  carve-none,
}
use gubos.Kmalloc.Chain.{Chain, Outside, Outside-Off, Taken, Walked}
use gubos.Kmalloc.Walk.{walk}

-- `free` is the chain of free regions, `live` what has been handed out. No two regions share a byte,
-- headers included, each lies in the heap, and together they fill it.
pub record IsHeap (h : Heap) (free live : List Region) : Type 0 where
  pub chain : Chain h.cell h.head free
  pub sizes : All (λ r. (h.cell r.start).size ≡ r.size) live
  pub inside_free : All InHeap free
  pub inside_live : All InHeap live
  pub apart_free : Apart free
  pub apart_live : Apart live
  pub cross : All (λ r. All (Off r) free) live
  pub total : footprint free + footprint live ≡ kernel_heap_size

pub kmalloc_init-IsHeap :
    (h : Heap)
    → IsHeap
        (kmalloc_init h)
        (record { start = kernel_heap_virt_start; size = kernel_heap_size - header_size } ∷ [])
        []
unfolding kmalloc_init
kmalloc_init-IsHeap h = record {
  chain = (refl, omega arith, refl, refl);
  sizes = tt;
  inside_free = (omega arith, tt);
  inside_live = tt;
  apart_free = (tt, tt);
  apart_live = tt;
  cross = tt;
  total = omega arith;
}

footprint_bound : (rs : List Region) → 8 * length rs ≤ footprint rs
footprint_bound [] = omega arith
footprint_bound (r ∷ rs) = omega (arith, footprint_bound rs)

rounds_enough : {h : Heap} {free live : List Region} → IsHeap h free live → length free < max_rounds
unfolding max_rounds
rounds_enough {free} v = omega (arith, v.total, footprint_bound free)

zero-Outside : (rs : List Region) → All InHeap rs → Outside 0 rs
zero-Outside [] i = tt
zero-Outside (r ∷ rs) i = (ground arith, zero-Outside rs i.1)

-- What a request for `n` bytes comes to, by the outcome of `carve`.
abbrev pub Allocated :
    ℕ → Heap → (free live : List Region) → Outcome (ℕ × Heap) → Option (ℕ × List Region) → Type 0
Allocated n h free live out none = (out ≡ done (0, h)) × All (NoFit n) free
Allocated n h free live out (some (a, left)) =
    (h' : Heap) × (out ≡ done (a + header_size, h')) × IsHeap h' left (region a n ∷ live)

-- The sizes in the headers of the live regions stay.
sizes-Taken :
    {n a prev : ℕ} {left free : List Region} {h h' : Heap}
    → Taken n a left h h' prev free
    → (live : List Region) → All (λ r. All (Off r) free) live
    → All (λ r. (h.cell r.start).size ≡ r.size) live
    → All (λ r. (h'.cell r.start).size ≡ r.size) live
sizes-Taken t [] cross sizes = tt
sizes-Taken {free} t (r ∷ live) cross sizes = (
  t.frame.sizes r.start (Outside-Off r.start r free (omega arith) (omega arith) cross.0) ∙ sizes.0,
  sizes-Taken t live cross.1 sizes.1,
)

module _ {n a : ℕ} {free left : List Region} (c : Carved n a free left) where
  cross-Carved :
      (live : List Region)
      → All (λ r. All (Off r) free) live
      → All (Off (region a n)) live × All (λ r. All (Off r) left) live
  cross-Carved [] x = (tt, tt)
  cross-Carved (r ∷ live) x =
      let (p, q) = c.keeps r x.0 in
      let (ps, qs) = cross-Carved live x.1 in ((Off-symm r (region a n) p, ps), (q, qs))

  Taken-IsHeap :
      {h h' : Heap} {live : List Region}
      → IsHeap h free live
      → Taken n a left h h' 0 free
      → IsHeap h' left (region a n ∷ live)
  Taken-IsHeap {live} v t =
      let (off, cross) = cross-Carved live v.cross in
      let (inside, inside_left) = c.inside v.inside_free in
      record {
        chain = t.chain;
        sizes = (t.size, sizes-Taken t live v.cross v.sizes);
        inside_free = inside_left;
        inside_live = (inside, v.inside_live);
        apart_free = c.apart;
        apart_live = (off, v.apart_live);
        cross = (c.off, cross);
        total = omega (arith, v.total, c.total);
      }

-- A request for `n` bytes, such that `n` and a header fit in 32 bits, on a heap that satisfies the invariant
-- returns. If no free region has the size or room for it and a header, the answer is NULL and the heap is as it
-- was; otherwise it is the address behind the header of the first one that does, which is taken whole or cut,
-- and the invariant holds with it among the live regions.
pub kmalloc-IsHeap :
    (n : ℕ) {h : Heap} {free live : List Region}
    → n + header_size < 2 ^ 32
    → IsHeap h free live
    → Allocated n h free live (kmalloc n h) (carve n free)
unfolding kmalloc
kmalloc-IsHeap n {h} {free} {live} small v = go (carve n free) refl (
    walk n small h max_rounds 0 h.head free (rounds_enough v) refl v.chain
      (zero-Outside free v.inside_free) v.inside_free v.apart_free)
  where
    go :
        (o : Option (ℕ × List Region))
        → carve n free ≡ o
        → Walked n h 0 free (kmalloc n h) o
        → Allocated n h free live (kmalloc n h) o
    go none e w = (w, carve-none n free e)
    go (some (a, left)) e (h', out, t) =
        (h', out, Taken-IsHeap (carve-Carved n free v.apart_free e) v t)
