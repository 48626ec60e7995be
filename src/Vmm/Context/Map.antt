-- ===== src/Vmm/Context/Map.antt =====
-- vmm_map_pages (kernel/arch/i386/mm/vmm.c) on a context whose free blocks and allocations fit together.
use native.Mathlib.Decide.{dec_le}
use gubos.Prelude.{
  ℕ, ◌+◌, ◌*◌, ◌%◌, ◌≤◌, ◌<◌, ◌^◌, ◌≡◌, ◌≢◌, refl, ◌⊎◌, inl, inr, ◌==◌, if◌then◌else◌, ◌&&◌, not,
  Bool, true, List, [], ◌∷◌, Outcome, done, bit_and, arith,
}
use gubos.Prelude.Bits.{bit_and_page}
use gubos.Kmalloc.{Heap}
use gubos.Meminfo.{KernelMeminfo}
use gubos.Page.{page_size, page_flag_user, paging_is_aligned}
use gubos.Vmm.Blocks.{FreeBlock, block_size, new_node, remove_free_blocks}
use gubos.Vmm.Blocks.Cover.{covers, in_pages, IsFreeList, fits}
use gubos.Vmm.Blocks.Remove.{Served, remove_free_blocks_lem}
use gubos.Vmm.Tree.{
  Allocation, allocation, no_allocation, AllocTree, null, wild, node, tree_size, add_allocation,
  find_allocation,
}
use gubos.Vmm.Tree.Search.{IsTree, Holds, end_of, find-Holds}
use gubos.Vmm.Tree.Insert.{Clear, Inserted, add_allocation_lem}
use gubos.Vmm.Context.{VmmContext, context, has_blocks, vmm_map_pages, vmm_find_allocation}

-- The blocks and the tree are in order, no allocation ends above `hi`, and no address is both free and
-- allocated.
pub record IsContext (hi : ℕ) (ctx : VmmContext) : Type 0 where
  pub blocks : IsFreeList 0 ctx.free_blocks
  pub tree : IsTree 0 hi ctx.allocations
  pub rooted : ctx.allocations ≢ null
  pub top : hi < 2 ^ 32
  pub apart :
      (w : ℕ)
      → covers w ctx.free_blocks ≡ true
      → find_allocation w ctx.allocations ≡ done no_allocation

pub aligned_iff : (v : ℕ) → v % page_size ≡ 0 → paging_is_aligned v ≡ true
unfolding paging_is_aligned
aligned_iff v e = ground (arith, bit_and_page v)

ne-null :
    (t : AllocTree) (x : Allocation) (w : ℕ)
    → 0 < x.page_count
    → find_allocation w t ≡ done x
    → t ≢ null
unfolding find_allocation
ne-null null x w pos f e = ground arith
ne-null wild x w pos f e = cc
ne-null (node self parent a l r) x w pos f e = cc

-- a block that serves a request covers its pages
fits-covers :
    (v n w : ℕ) (bs : List FreeBlock)
    → fits v n bs ≡ true
    → in_pages w v n ≡ true
    → covers w bs ≡ true
unfolding fits covers
fits-covers v n w [] f i = cc
fits-covers v n w (b ∷ bs) f i = ground (arith, fits-covers v n w bs)

fits-has : (v n : ℕ) (bs : List FreeBlock) → fits v n bs ≡ true → has_blocks bs ≡ true
unfolding fits
fits-has v n [] f = cc
fits-has v n (b ∷ bs) f = refl

-- Where nothing is found on the pages of `x`, no allocation of the tree shares one with it.
module _ (x : Allocation) (lo hi : ℕ) (whole : AllocTree) (s : IsTree lo hi whole)
    (top : hi < 2 ^ 32) (pos : 0 < x.page_count)
    (free : (w : ℕ)
      → in_pages w x.virtual_addr x.page_count ≡ true
      → find_allocation w whole ≡ done no_allocation) where
  Clear-one :
      (a : Allocation)
      → 0 < a.page_count
      → Holds a whole
      → (end_of x ≤ a.virtual_addr) ⊎ (end_of a ≤ x.virtual_addr)
  Clear-one a pa m = elim (dec_le (end_of x) a.virtual_addr) [
    | yes p ↦ inl p
    | no p ↦ elim (dec_le (end_of a) x.virtual_addr) [
      | yes q ↦ inr q
      | no q ↦ elim (dec_le a.virtual_addr x.virtual_addr) [
        | yes le ↦ ground (
          arith,
          find-Holds a lo hi x.virtual_addr whole s top m (omega arith) (omega arith),
          free x.virtual_addr,
        )
        | no gt ↦ ground (
          arith,
          find-Holds a lo hi a.virtual_addr whole s top m (omega arith) (omega arith),
          free a.virtual_addr,
        )
      ]
    ]
  ]

  Clear-all :
      (l h : ℕ) (t : AllocTree)
      → IsTree l h t
      → ((a : Allocation) → Holds a t → Holds a whole)
      → Clear x t
  Clear-all l h null st sub = tt
  Clear-all l h wild st sub = tt
  Clear-all l h (node self parent a left right) st sub = (
    Clear-one a st.0 (sub a (inl refl)),
    Clear-all l a.virtual_addr left st.1 (λ b m. sub b (inr (inl m))),
    Clear-all (end_of a) h right st.2 (λ b m. sub b (inr (inr m))),
  )

module _ (m : KernelMeminfo) (v physical n flags hi p : ℕ) (ctx : VmmContext) (h h₁ : Heap) where
  abbrev pub mapped : Allocation
  mapped = allocation v physical n flags

  abbrev pub user : Bool
  user = not (bit_and flags page_flag_user == 0)

  -- The call returns `v`. The context still fits together, the pages are free no more and belong to the
  -- new allocation, and nothing else has changed.
  abbrev pub Mapped : Outcome (ℕ × VmmContext × Heap) → Type 0
  Mapped out =
      (ctx' : VmmContext) × (h' : Heap) × (out ≡ done (v, ctx', h'))
      × IsContext hi ctx'
      × ((w : ℕ) → covers w ctx'.free_blocks ≡ (covers w ctx.free_blocks && not (in_pages w v n)))
      × ((w : ℕ)
          → vmm_find_allocation ctx' w
            ≡ (if in_pages w v n then done mapped else vmm_find_allocation ctx w))

  -- On a context whose blocks and allocations fit together, mapping `n` > 0 pages at a page-aligned address that is
  -- not 0 and that one free block holds, with memory for the two nodes, returns the address. The new context
  -- fits together, exactly those pages are free no more, they belong to the new allocation, and every other
  -- address is found as before.
  pub vmm_map_pages_lem :
      IsContext hi ctx
      → v ≢ 0
      → 0 < n
      → v % page_size ≡ 0
      → physical % page_size ≡ 0
      → v + n * page_size ≤ hi
      → fits v n ctx.free_blocks ≡ true
      → new_node block_size h ≡ done (p, h₁)
      → ((bs : List FreeBlock) (k : Heap)
          → remove_free_blocks m.higher_half_base m.virtual_start v n user ctx.free_blocks h
            ≡ done (v, bs, k)
          → (q : ℕ) × (k' : Heap) × (new_node tree_size k ≡ done (q, k')))
      → Mapped (vmm_map_pages m v physical n flags ctx h)
  unfolding vmm_map_pages vmm_find_allocation
  vmm_map_pages_lem c ne pos al alp bound fit mem mem_tree =
      let (bs, k, removed, list, cov) : Served v n 0 ctx.free_blocks
          (remove_free_blocks m.higher_half_base m.virtual_start v n user ctx.free_blocks h) =
        remove_free_blocks_lem m.higher_half_base m.virtual_start v n p user h h₁ al ne mem 0
          ctx.free_blocks c.blocks fit in
      let (q, k', got) = mem_tree bs k removed in
      let clear : Clear mapped ctx.allocations =
        Clear-all mapped 0 hi ctx.allocations c.tree c.top pos
          (λ w i. c.apart w (fits-covers v n w ctx.free_blocks fit i)) 0 hi ctx.allocations c.tree
          (λ a x. x) in
      let (t', added, s', found) : Inserted mapped q k k' pos got 0 hi ctx.allocations
          (add_allocation mapped ctx.allocations k) =
        add_allocation_lem mapped q k k' pos got 0 hi ctx.allocations c.tree c.rooted c.top
          (omega arith) bound clear in
      (
        context t' bs,
        k',
        rw (
          aligned_iff v al,
          aligned_iff physical alp,
          fits-has v n ctx.free_blocks fit,
          removed,
          added,
        ),
        record {
          blocks = list;
          tree = s';
          rooted = ne-null t' mapped v pos (ground (arith, found v));
          top = c.top;
          apart = λ w e. ground (arith, found w, cov w, c.apart w);
        },
        cov,
        found,
      )
