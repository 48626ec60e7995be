-- ===== src/Vmm/Tree/Insert.antt =====
-- add_allocation (kernel/arch/i386/mm/vmm.c) on a search tree.
use gubos.Prelude.{
  ℕ, ◌≤◌, ◌<◌, ◌^◌, ◌≡◌, ◌≢◌, refl, ◌⊎◌, inl, inr, Bool-cases, ◌==◌, ltb, if◌then◌else◌, false,
  some, Outcome, done, arith,
}
use gubos.Kmalloc.{Heap}
use gubos.Vmm.Blocks.{new_node}
use gubos.Vmm.Blocks.Cover.{in_pages}
use gubos.Vmm.Tree.{
  Allocation, AllocTree, null, wild, node, tree_size, insert, add_allocation, find_allocation,
}
use gubos.Vmm.Tree.Search.{IsTree, IsTree-le, end_of}

-- `x` shares no page with an allocation of the tree
abbrev pub Clear : Allocation → AllocTree → Type 0
Clear x null = Unit
Clear x wild = Unit
Clear x (node self parent a left right) =
    ((end_of x ≤ a.virtual_addr) ⊎ (end_of a ≤ x.virtual_addr)) × Clear x left × Clear x right

module _ (x : Allocation) (p : ℕ) (h h₁ : Heap) (pos : 0 < x.page_count)
    (memory : new_node tree_size h ≡ done (p, h₁)) where
  -- The new tree is in order, finds `x` on its pages, and finds on all others what the old one did.
  abbrev pub Inserted : (lo hi : ℕ) → AllocTree → Outcome (AllocTree × Heap) → Type 0
  Inserted lo hi t out =
      (t' : AllocTree) × (out ≡ done (t', h₁))
      × IsTree lo hi t'
      × ((w : ℕ)
          → find_allocation w t'
            ≡ (if in_pages w x.virtual_addr x.page_count then done x else find_allocation w t))

  insert-Inserted :
      (prev lo hi : ℕ) (t : AllocTree)
      → IsTree lo hi t
      → hi < 2 ^ 32
      → lo ≤ x.virtual_addr
      → end_of x ≤ hi
      → Clear x t
      → Inserted lo hi t (insert prev x t h)
  unfolding insert find_allocation
  insert-Inserted prev lo hi null s top from until c =
      (node p (some prev) x null null, rw memory, (pos, from, until), λ w. ground arith)
  insert-Inserted prev lo hi wild s top from until c = absurd s
  insert-Inserted prev lo hi (node self parent a l r) s top from until c =
      let above = IsTree-le (end_of a) hi r s.2 in
      elim (Bool-cases (ltb x.virtual_addr a.virtual_addr)) [
        | inl less ↦
            let (l', e, s', found) =
              insert-Inserted self lo a.virtual_addr l s.1 (omega arith) from (ground arith) c.1 in
            rw less (node self parent a l' r, rw e, (s.0, s', s.2), λ w. ground (arith, found w))
        | inr more ↦
            let (r', e, s', found) =
              insert-Inserted self (end_of a) hi r s.2 top (ground arith) until c.2 in
            rw more (node self parent a l r', rw e, (s.0, s.1, s'), λ w. ground (arith, found w))
      ]

  -- Adding an allocation that overlaps none of a search tree that is not empty: the tree stays in order,
  -- the allocation is found on each of its pages, and every other address is found as before.
  pub add_allocation_lem :
      (lo hi : ℕ) (t : AllocTree)
      → IsTree lo hi t
      → t ≢ null
      → hi < 2 ^ 32
      → lo ≤ x.virtual_addr
      → end_of x ≤ hi
      → Clear x t
      → Inserted lo hi t (add_allocation x t h)
  unfolding add_allocation
  add_allocation_lem lo hi null s ne top from until c = absurd (ne refl)
  add_allocation_lem lo hi wild s ne top from until c = absurd s
  add_allocation_lem lo hi (node self parent a l r) s ne top from until c =
      let full : (a.page_count == 0) ≡ false = ground (arith, s.0) in
      rw full (insert-Inserted 0 lo hi (node self parent a l r) s top from until c)
