-- ===== src/Vmm/Tree/Search.antt =====
-- Search trees of allocations (kernel/arch/i386/mm/vmm.c), and where vmm_find_allocation looks.
use gubos.Prelude.{ℕ, suc, ◌+◌, ◌*◌, ◌≤◌, ◌<◌, ◌^◌, ◌≡◌, refl, ◌⊎◌, inl, inr, done, arith}
use gubos.Page.{page_size}
use gubos.Vmm.Tree.{Allocation, no_allocation, AllocTree, null, wild, node, find_allocation}

abbrev pub end_of : Allocation → ℕ
end_of a = a.virtual_addr + a.page_count * page_size

-- No pointer is wild, no allocation is empty, and they lie between `lo` and `hi` in order, without
-- overlap.
abbrev pub IsTree : (lo hi : ℕ) → AllocTree → Type 0
IsTree lo hi null = lo ≤ hi
IsTree lo hi wild = ⊥
IsTree lo hi (node self parent a left right) =
    (0 < a.page_count) × IsTree lo a.virtual_addr left × IsTree (end_of a) hi right

-- `a` is one of the allocations
abbrev pub Holds : Allocation → AllocTree → Type 0
Holds a null = ⊥
Holds a wild = ⊥
Holds a (node self parent b left right) = (a ≡ b) ⊎ (Holds a left ⊎ Holds a right)

unfoldable pub size : AllocTree → ℕ
size null = 0
size wild = 0
size (node self parent a left right) = suc (size left + size right)

pub IsTree-le : (lo hi : ℕ) (t : AllocTree) → IsTree lo hi t → lo ≤ hi
IsTree-le lo hi null s = s
IsTree-le lo hi wild s = absurd s
IsTree-le lo hi (node self parent a l r) s =
    omega (arith, IsTree-le lo a.virtual_addr l s.1, IsTree-le (end_of a) hi r s.2)

-- An address outside the bounds of a tree is not found.
pub find-outside :
    (lo hi w : ℕ) (t : AllocTree)
    → IsTree lo hi t
    → hi < 2 ^ 32
    → (w < lo) ⊎ (hi ≤ w)
    → find_allocation w t ≡ done no_allocation
unfolding find_allocation
find-outside lo hi w null s top out = refl
find-outside lo hi w wild s top out = absurd s
find-outside lo hi w (node self parent a l r) s top out =
    let below = IsTree-le lo a.virtual_addr l s.1 in
    let above = IsTree-le (end_of a) hi r s.2 in
    ground (
      arith,
      find-outside lo a.virtual_addr w l s.1 (omega arith),
      find-outside (end_of a) hi w r s.2 top,
    )

pub Holds-bounds :
    (a : Allocation) (lo hi : ℕ) (t : AllocTree)
    → IsTree lo hi t
    → Holds a t
    → (lo ≤ a.virtual_addr) × (end_of a ≤ hi) × (0 < a.page_count)
Holds-bounds a lo hi null s m = absurd m
Holds-bounds a lo hi wild s m = absurd m
Holds-bounds a lo hi (node self parent b l r) s (inl e) =
    rw e (IsTree-le lo b.virtual_addr l s.1, IsTree-le (end_of b) hi r s.2, s.0)
Holds-bounds a lo hi (node self parent b l r) s (inr (inl m)) =
    omega (arith, Holds-bounds a lo b.virtual_addr l s.1 m, IsTree-le (end_of b) hi r s.2)
Holds-bounds a lo hi (node self parent b l r) s (inr (inr m)) =
    omega (arith, Holds-bounds a (end_of b) hi r s.2 m, IsTree-le lo b.virtual_addr l s.1)

-- In a search tree that ends below 4 GiB, vmm_find_allocation finds each allocation of the tree at every address
-- of its pages.
pub find-Holds :
    (a : Allocation) (lo hi w : ℕ) (t : AllocTree)
    → IsTree lo hi t
    → hi < 2 ^ 32
    → Holds a t
    → a.virtual_addr ≤ w
    → w < end_of a
    → find_allocation w t ≡ done a
unfolding find_allocation
find-Holds a lo hi w null s top m from until = absurd m
find-Holds a lo hi w wild s top m from until = absurd m
find-Holds a lo hi w (node self parent b l r) s top (inl e) from until =
    let above = IsTree-le (end_of b) hi r s.2 in ground arith
find-Holds a lo hi w (node self parent b l r) s top (inr (inl m)) from until =
    let (p, q, z) = Holds-bounds a lo b.virtual_addr l s.1 m in
    let above = IsTree-le (end_of b) hi r s.2 in
    ground (arith, find-Holds a lo b.virtual_addr w l s.1 (omega arith) m from until)
find-Holds a lo hi w (node self parent b l r) s top (inr (inr m)) from until =
    let (p, q, z) = Holds-bounds a (end_of b) hi r s.2 m in
    ground (arith, find-Holds a (end_of b) hi w r s.2 top m from until)
