-- ===== src/Vmm/Tree/Unmap.antt =====
-- The loop of vmm_unmap_pages (kernel/arch/i386/mm/vmm.c) on a search tree.
use gubos.Prelude.{
  ℕ, ◌+◌, ◌-◌, ◌*◌, ◌≤◌, ◌<◌, ◌^◌, ◌≡◌, refl, inl, inr, if◌then◌else◌, Option, Outcome, done, arith,
}
use mathlib.Core.Path.{subst}
use gubos.Kmalloc.{Heap}
use gubos.Page.{page_size}
use gubos.Vmm.Blocks.Cover.{in_pages}
use gubos.Vmm.Tree.{
  Allocation, allocation, no_allocation, AllocTree, null, wild, node, unmap_loop, find_allocation,
}
use gubos.Vmm.Tree.Search.{IsTree, IsTree-le, Holds, Holds-bounds, end_of, find-outside, size}

module _ (a : Allocation) (n : ℕ) (h : Heap) (some_left : n ≤ a.page_count)
    (low : n < a.virtual_addr) where
  -- what is left of `a` when its first `n` pages are unmapped
  abbrev pub rest : Allocation
  rest = allocation (a.virtual_addr + n * page_size) a.physical_addr (a.page_count - n) a.flags

  -- The node of `a` stays in the tree and holds what is left; the unmapped pages are not found, and every
  -- other address is found as before.
  abbrev pub Unmapped : (t : AllocTree) → Outcome (AllocTree × Heap) → Type 0
  Unmapped t out =
      (t' : AllocTree) × (out ≡ done (t', h))
      × (size t' ≡ size t)
      × ((w : ℕ)
          → find_allocation w t' ≡ (
              if in_pages w a.virtual_addr n
              then done no_allocation
              else if in_pages w rest.virtual_addr rest.page_count
              then done rest
              else find_allocation w t))

  unmap_loop-here :
      (lo hi up self : ℕ) (parent : Option ℕ) (l r : AllocTree)
      → IsTree lo hi (node self parent a l r)
      → hi < 2 ^ 32
      → Unmapped
          (node self parent a l r)
          (unmap_loop a.virtual_addr n up (node self parent a l r) h)
  unfolding unmap_loop find_allocation size
  unmap_loop-here lo hi up self parent l r s top =
      let above = IsTree-le (end_of a) hi r s.2 in
      (
        node self parent rest l r,
        ground (arith, above),
        refl,
        λ w. ground (
          arith,
          above,
          find-outside lo a.virtual_addr w l s.1 (omega arith),
          find-outside (end_of a) hi w r s.2 top,
        ),
      )

  -- Unmapping the first `n` pages of an allocation of a search tree, at most all of them and fewer than its
  -- address, shifts its node, whose physical address stays. No node is removed, not even when all its pages
  -- go; the pages are no longer found, and every other address is found as before.
  pub unmap_loop-Unmapped :
      (lo hi up : ℕ) (t : AllocTree)
      → IsTree lo hi t
      → hi < 2 ^ 32
      → Holds a t
      → Unmapped t (unmap_loop a.virtual_addr n up t h)
  unfolding unmap_loop find_allocation size
  unmap_loop-Unmapped lo hi up null s top m = absurd m
  unmap_loop-Unmapped lo hi up wild s top m = absurd m
  unmap_loop-Unmapped lo hi up (node self parent b l r) s top (inl e) =
      subst
        (λ b.
          IsTree lo hi (node self parent b l r)
          → Unmapped (node self parent b l r)
              (unmap_loop a.virtual_addr n up (node self parent b l r) h))
        e (λ t. unmap_loop-here lo hi up self parent l r t top) s
  unmap_loop-Unmapped lo hi up (node self parent b l r) s top (inr (inl m)) =
      let (p, q, z) = Holds-bounds a lo b.virtual_addr l s.1 m in
      let above = IsTree-le (end_of b) hi r s.2 in
      let (l', e, same, found) = unmap_loop-Unmapped lo b.virtual_addr self l s.1 (omega arith) m in
      (node self parent b l' r, ground (arith, e), omega arith, λ w. ground (arith, found w))
  unmap_loop-Unmapped lo hi up (node self parent b l r) s top (inr (inr m)) =
      let (p, q, z) = Holds-bounds a (end_of b) hi r s.2 m in
      let (r', e, same, found) = unmap_loop-Unmapped (end_of b) hi self r s.2 top m in
      (node self parent b l r', ground (arith, e), omega arith, λ w. ground (arith, found w))
