-- ===== src/Kmalloc/Free.antt =====
-- kfree (kernel/kmalloc.c) puts a region that had been handed out back in front of the free ones.
use mathlib.Core.Path.{subst}
use gubos.Prelude.{ℕ, ◌+◌, ◌≡◌, refl, sym, ap, ◌∙◌, List, [], ◌∷◌, ◌++◌, sub32, arith}
use gubos.Kmalloc.{Heap, Header, header, header_size, write, kfree}
use gubos.Kmalloc.Regions.{Region, All, Off, Off-symm, InHeap, Apart, footprint}
use gubos.Kmalloc.Chain.{Chain, Chain-write, Outside-Off}
use gubos.Kmalloc.Invariant.{IsHeap}

All-remove {ℓ κ} :
    {A : Type ℓ} (P : A → Type κ) (xs : List A) (x : A) (ys : List A)
    → All P (xs ++ x ∷ ys)
    → P x × All P (xs ++ ys)
All-remove P [] x ys h = h
All-remove P (w ∷ xs) x ys h = let (p, q) = All-remove P xs x ys h.1 in (p, (h.0, q))

Apart-remove :
    (xs : List Region) (r : Region) (ys : List Region)
    → Apart (xs ++ r ∷ ys)
    → All (Off r) (xs ++ ys) × Apart (xs ++ ys)
Apart-remove [] r ys h = h
Apart-remove (w ∷ xs) r ys h =
    let (p, q) = All-remove (Off w) xs r ys h.0 in
    let (off, apart) = Apart-remove xs r ys h.1 in ((Off-symm w r p, off), (q, apart))

footprint-remove :
    (xs : List Region) (r : Region) (ys : List Region)
    → footprint (xs ++ r ∷ ys) ≡ header_size + r.size + footprint (xs ++ ys)
footprint-remove [] r ys = refl
footprint-remove (w ∷ xs) r ys = omega (arith, footprint-remove xs r ys)

cross-cons :
    (r : Region) (free live : List Region)
    → All (Off r) live
    → All (λ s. All (Off s) free) live
    → All (λ s. All (Off s) (r ∷ free)) live
cross-cons r free [] off cross = tt
cross-cons r free (s ∷ live) off cross =
    ((Off-symm r s off.0, cross.0), cross-cons r free live off.1 cross.1)

-- Only the header of the region is written, and its size stays.
sizes-write :
    (h : Heap) (r : Region) (p : ℕ) (live : List Region)
    → All (Off r) live
    → All (λ s. (h.cell s.start).size ≡ s.size) live
    → All
        (λ s. ((write h r.start (header (h.cell r.start).size p)).cell s.start).size ≡ s.size)
        live
unfolding write
sizes-write h r p [] off sizes = tt
sizes-write h r p (s ∷ live) off sizes = (ground arith, sizes-write h r p live off.1 sizes.1)

-- On a heap that satisfies the invariant, kfree of a live region makes it the first free one, takes it from the
-- live ones, and keeps the invariant.
pub kfree-IsHeap :
    (xs : List Region) (r : Region) (ys : List Region) {h : Heap} {free : List Region}
    → IsHeap h free (xs ++ r ∷ ys)
    → IsHeap (kfree (r.start + header_size) h) (r ∷ free) (xs ++ ys)
unfolding kfree
kfree-IsHeap xs r ys {h} {free} v =
    let (size, sizes) = All-remove (λ s. (h.cell s.start).size ≡ s.size) xs r ys v.sizes in
    let (inside, inside_live) = All-remove InHeap xs r ys v.inside_live in
    let (off, apart) = Apart-remove xs r ys v.apart_live in
    let (off_free, cross) = All-remove (λ s. All (Off s) free) xs r ys v.cross in
    let back : sub32 (r.start + header_size) header_size ≡ r.start = omega arith in
    let w = header (h.cell r.start).size h.head in
    let got : (write h r.start w).cell r.start ≡ w = unfold write in ground arith in
    rw back (record {
      chain = (
        refl,
        omega arith,
        ap (λ (c : Header). c.size) got ∙ size,
        subst (λ (c : Header). Chain (write h r.start w).cell c.next free) (sym got)
            (Chain-write h r.start w h.head free
              (Outside-Off r.start r free (omega arith) (omega arith) off_free) v.chain),
      );
      sizes = sizes-write h r h.head (xs ++ ys) off sizes;
      inside_free = (inside, v.inside_free);
      inside_live = inside_live;
      apart_free = (off_free, v.apart_free);
      apart_live = apart;
      cross = cross-cons r free (xs ++ ys) off cross;
      total = omega (arith, v.total, footprint-remove xs r ys);
    })
