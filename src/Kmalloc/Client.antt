-- ===== src/Kmalloc/Client.antt =====
-- A client of kernel/kmalloc.c: any sequence of calls of kmalloc and of kfree on what it was handed
-- and has not given back, from kmalloc_init on.
use mathlib.Core.Path.{subst}
use gubos.Prelude.{
  ℕ, ◌+◌, ◌-◌, ◌<◌, ◌^◌, ◌≡◌, ◌≢◌, Option, none, some, done, List, [], ◌∷◌, ◌++◌, arith,
}
use gubos.Kmalloc.{Heap, header_size, kmalloc_init, kmalloc, kfree}
use gubos.Kmalloc.Regions.{Region, region, carve, All, InHeap, Apart}
use gubos.Kmalloc.Invariant.{IsHeap, Allocated, kmalloc_init-IsHeap, kmalloc-IsHeap}
use gubos.Kmalloc.Free.{kfree-IsHeap}

-- the heap, with the regions that the client holds
pub data Reach : Heap → List Region → Type 0 where
  init : (h : Heap) → Reach (kmalloc_init h) []
  alloc :
      {h h' : Heap} {live : List Region} (n p : ℕ)
      → Reach h live
      → n + header_size < 2 ^ 32
      → kmalloc n h ≡ done (p, h')
      → p ≢ 0
      → Reach h' (region (p - header_size) n ∷ live)
  refused :
      {h h' : Heap} {live : List Region} (n : ℕ)
      → Reach h live
      → n + header_size < 2 ^ 32
      → kmalloc n h ≡ done (0, h')
      → Reach h' live
  release :
      {h : Heap} (xs : List Region) (r : Region) (ys : List Region)
      → Reach h (xs ++ r ∷ ys)
      → Reach (kfree (r.start + header_size) h) (xs ++ ys)

module _ (n : ℕ) (h : Heap) (free live : List Region) where
  Allocated-served :
      (p : ℕ) (h' : Heap)
      → kmalloc n h ≡ done (p, h')
      → p ≢ 0
      → (o : Option (ℕ × List Region)) → Allocated n h free live (kmalloc n h) o
      → (left : List Region) × IsHeap h' left (region (p - header_size) n ∷ live)
  Allocated-served p h' e ne none (out, no_fit) = let zero_p : 0 ≡ p = cc in absurd (omega arith)
  Allocated-served p h' e ne (some (a, left)) (g, out, v) =
      let same : g ≡ h' = cc in
      let at : a + header_size ≡ p = cc in
      let back : a ≡ p - header_size = omega arith in
      (
        left,
        subst (λ a. IsHeap h' left (region a n ∷ live)) back
            (subst (λ k. IsHeap k left (region a n ∷ live)) same v),
      )

  Allocated-refused :
      (h' : Heap)
      → kmalloc n h ≡ done (0, h')
      → (o : Option (ℕ × List Region)) → Allocated n h free live (kmalloc n h) o
      → h ≡ h'
  Allocated-refused h' e none (out, no_fit) = cc
  Allocated-refused h' e (some (a, left)) (g, out, v) =
      let at : a + header_size ≡ 0 = cc in absurd (omega arith)

  Allocated-done :
      (o : Option (ℕ × List Region))
      → Allocated n h free live (kmalloc n h) o
      → (p : ℕ) × (h' : Heap) × (kmalloc n h ≡ done (p, h'))
  Allocated-done none (out, no_fit) = (0, h, out)
  Allocated-done (some (a, left)) (g, out, v) = (a + header_size, g, out)

-- Every heap that calls reach satisfies the invariant.
Reach-IsHeap :
    {h : Heap} {live : List Region} → Reach h live → (free : List Region) × IsHeap h free live
Reach-IsHeap (init h) = (_, kmalloc_init-IsHeap h)
Reach-IsHeap (alloc {h} {h'} {live} n p r small e ne) =
    let (rs, v) = Reach-IsHeap r in
    Allocated-served n h rs live p h' e ne (carve n rs) (kmalloc-IsHeap n small v)
Reach-IsHeap (refused {h} {h'} {live} n r small e) =
    let (rs, v) = Reach-IsHeap r in
    (
      rs,
      subst (λ k. IsHeap k rs live)
          (Allocated-refused n h rs live h' e (carve n rs) (kmalloc-IsHeap n small v)) v,
    )
Reach-IsHeap (release xs r ys reach) =
    let (left, v) = Reach-IsHeap reach in (r ∷ left, kfree-IsHeap xs r ys v)

-- Whatever calls a client makes (of kmalloc with sizes that fit in 32 bits with a header, of kfree on what it
-- holds), the regions that it holds share no byte with one another and lie in the heap, headers included.
pub Reach-Apart : {h : Heap} {live : List Region} → Reach h live → Apart live × All InHeap live
Reach-Apart r = let (rs, v) = Reach-IsHeap r in (v.apart_live, v.inside_live)

-- After any calls of a client, kmalloc of `n` bytes, such that `n` and a header fit in 32 bits, returns: it does
-- not loop for ever.
pub kmalloc_total :
    (n : ℕ) {h : Heap} {live : List Region}
    → n + header_size < 2 ^ 32
    → Reach h live
    → (p : ℕ) × (h' : Heap) × (kmalloc n h ≡ done (p, h'))
kmalloc_total n {h} {live} small r =
    let (rs, v) = Reach-IsHeap r in
    Allocated-done n h rs live (carve n rs) (kmalloc-IsHeap n small v)
