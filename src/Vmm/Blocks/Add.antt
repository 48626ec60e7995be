-- ===== src/Vmm/Blocks/Add.antt =====
-- add_free_blocks (kernel/arch/i386/mm/vmm.c) where the pages lie on the same side of the kernel's base
-- as every free block.
use gubos.Prelude.{
  ℕ, ◌+◌, ◌*◌, ◌%◌, ◌≤◌, ◌<◌, ◌^◌, ◌≡◌, ◌≢◌, refl, ◌⊎◌, inl, inr, Bool-cases, ◌==◌, ltb, false,
  ◌||◌, List, [], ◌∷◌, length, Outcome, done, ◌>>=◌, u32, arith,
}
use gubos.Kmalloc.{Heap}
use gubos.Page.{page_size}
use gubos.Vmm.Blocks.{
  FreeBlock, block, block_size, new_node, is_addr_in_user_range, insert_after,
  merge_or_insert_free_blocks, add_loop, add_free_blocks,
}
use gubos.Vmm.Blocks.Cover.{covers, in_pages, end_of, IsFreeList}

-- no free block shares a page with the `n` pages from `v` on
abbrev pub Disjoint : (v n : ℕ) → List FreeBlock → Type 0
Disjoint v n [] = Unit
Disjoint v n (b ∷ bs) =
    (((b.virtual_addr < v) × (end_of b ≤ v)) ⊎ (v + n * page_size ≤ b.virtual_addr))
    × Disjoint v n bs

-- the pages do not end where the first free block begins
abbrev pub Detached : (v n : ℕ) → List FreeBlock → Type 0
Detached v n [] = Unit
Detached v n (b ∷ bs) = v + n * page_size ≢ b.virtual_addr

-- each block is a user block exactly when the pages are user pages
abbrev pub SameSide : (base v n : ℕ) → List FreeBlock → Type 0
SameSide base v n [] = Unit
SameSide base v n (b ∷ bs) =
    (is_addr_in_user_range base b.virtual_addr b.page_count ≡ is_addr_in_user_range base v n)
    × SameSide base v n bs

-- The call returns; the list stays in order, and exactly the `n` pages from `v` on are free besides.
-- No block is merged: there is one more.
abbrev pub Added : (v n lo : ℕ) → List FreeBlock → Heap → Outcome (List FreeBlock × Heap) → Type 0
Added v n lo bs h₁ out =
    (bs' : List FreeBlock) × (out ≡ done (bs', h₁))
    × IsFreeList lo bs'
    × ((a : ℕ) → covers a bs' ≡ (covers a bs || in_pages a v n))
    × (length bs' ≡ length bs + 1)

module _ (base v n p : ℕ) (h h₁ : Heap) (aligned : v % page_size ≡ 0)
    (bound : v + n * page_size ≤ 2 ^ 32) (memory : new_node block_size h ≡ done (p, h₁)) where
  -- A node in front of the blocks above the pages.
  front :
      (lo : ℕ) (bs : List FreeBlock)
      → lo ≤ v
      → IsFreeList (v + n * page_size) bs
      → IsFreeList lo (block p v n ∷ bs)
  front lo bs le list = (le, aligned, list)

  abbrev Above : List FreeBlock → Type 0
  Above bs = IsFreeList (v + n * page_size) bs

  -- The blocks from the first that does not begin below `v`.
  above : (lo : ℕ) (bs : List FreeBlock) → IsFreeList lo bs → Disjoint v n bs → v ≤ lo → Above bs
  above lo [] list d le = bound
  above lo (b ∷ bs) list d le = (ground arith, list.1, list.2)

  insert_after-Added :
      (prev : FreeBlock) (rest : List FreeBlock) (lo : ℕ)
      → IsFreeList lo (prev ∷ rest)
      → end_of prev ≤ v
      → Above rest
      → Added v n lo (prev ∷ rest) h₁ (insert_after prev rest v n h)
  unfolding insert_after covers
  insert_after-Added prev rest lo list before ab = (
    prev ∷ block p v n ∷ rest,
    rw memory,
    (list.0, list.1, front (end_of prev) rest before ab),
    λ a. ground arith,
    omega arith,
  )

  merge_or_insert-Added :
      (prev : FreeBlock) (rest : List FreeBlock) (lo : ℕ)
      → IsFreeList lo (prev ∷ rest)
      → is_addr_in_user_range base prev.virtual_addr prev.page_count
        ≡ is_addr_in_user_range base v n
      → end_of prev ≤ v
      → Above rest
      → Added v n lo (prev ∷ rest) h₁ (merge_or_insert_free_blocks base prev rest v n h)
  merge_or_insert-Added prev rest lo list side before ab =
      let e : merge_or_insert_free_blocks base prev rest v n h ≡ insert_after prev rest v n h =
        inserts in
      rw e (insert_after-Added prev rest lo list before ab)
    where
      inserts : merge_or_insert_free_blocks base prev rest v n h ≡ insert_after prev rest v n h
      inserts = unfold merge_or_insert_free_blocks in ground arith

  Added-cons :
      (b : FreeBlock) (rest : List FreeBlock) (lo : ℕ)
      → lo ≤ b.virtual_addr
      → b.virtual_addr % page_size ≡ 0
      → (out : Outcome (List FreeBlock × Heap)) → Added v n (end_of b) rest h₁ out
      → Added v n lo (b ∷ rest) h₁ (do (rest', h') ← out; done (b ∷ rest', h'))
  unfolding covers
  Added-cons b rest lo le al out (rest', e, list, cov, len) =
      (b ∷ rest', rw e, (le, al, list), λ a. ground (arith, cov a), omega arith)

  add_loop-Added :
      (prev : FreeBlock) (rest : List FreeBlock) (lo : ℕ)
      → IsFreeList lo (prev ∷ rest)
      → prev.virtual_addr < v
      → Disjoint v n (prev ∷ rest)
      → SameSide base v n (prev ∷ rest)
      → Added v n lo (prev ∷ rest) h₁ (add_loop base prev rest v n h)
  unfolding add_loop
  add_loop-Added prev [] lo list lt d side =
      merge_or_insert-Added prev [] lo list side.0 (ground arith) bound
  add_loop-Added prev (b ∷ rest) lo list lt d side = elim (Bool-cases (ltb b.virtual_addr v)) [
    | inl more ↦ rw more (
        Added-cons prev (b ∷ rest) lo list.0 list.1 _
          (add_loop-Added b rest (end_of prev) list.2 (ground arith) d.1 side.1))
    | inr stop ↦ rw stop (
        merge_or_insert-Added prev (b ∷ rest) lo list side.0 (ground arith)
          (ground arith, list.2.1, list.2.2))
  ]

  -- Freeing `n` pages from the page-aligned address `v` on, when they overlap no free block, do not end
  -- where the first begins, and lie on the same side of the kernel base as every block, adds exactly
  -- those pages to the list, as one more block in order, when there is memory for its node.
  pub add_free_blocks_lem :
      (lo : ℕ) (bs : List FreeBlock)
      → IsFreeList lo bs
      → lo ≤ v
      → Disjoint v n bs
      → Detached v n bs
      → SameSide base v n bs
      → Added v n lo bs h₁ (add_free_blocks base v n bs h)
  unfolding add_free_blocks covers
  add_free_blocks_lem lo [] list le d det side =
      (block p v n ∷ [], rw memory, (le, aligned, bound), λ a. ground arith, refl)
  add_free_blocks_lem lo (b ∷ rest) list le d det side = elim (Bool-cases (ltb b.virtual_addr v)) [
    | inl more ↦ rw more (add_loop-Added b rest lo list (ground arith) d side)
    | inr stop ↦
        let apart : (u32 (v + n * page_size) == b.virtual_addr) ≡ false = ground arith in
        rw (stop, apart, memory)
          (
            block p v n ∷ b ∷ rest,
            refl,
            front lo (b ∷ rest) le (ground arith, list.1, list.2),
            λ a. ground arith,
            omega arith,
          )
  ]
