-- ===== src/Vmm/Blocks/Remove.antt =====
-- remove_free_blocks (kernel/arch/i386/mm/vmm.c) at a requested address.
use gubos.Prelude.{
  ℕ, ◌+◌, ◌-◌, ◌*◌, ◌/◌, ◌%◌, ◌≤◌, ◌<◌, ◌^◌, ◌≡◌, ◌≢◌, inl, inr, Bool-cases, ltb, leb, Bool, true,
  false, not, ◌&&◌, List, [], ◌∷◌, Outcome, done, ◌>>=◌, u32, sub32, arith,
}
use native.Mathlib.Decide.{ℕ_discrete}
use gubos.Kmalloc.{Heap, kfree}
use gubos.Page.{page_size}
use gubos.Vmm.Blocks.{
  FreeBlock, block, block_size, new_node, take_from, selects, remove_loop, remove_free_blocks,
}
use gubos.Vmm.Blocks.Cover.{
  covers, in_pages, end_of, IsFreeList, fits, IsFreeList-le, covers-below, fits-below,
  IsFreeList-weaken,
}

-- The request is served: it returns `v`, the list stays in order, and exactly the `n` pages from `v` on
-- are no longer free.
abbrev pub Served : (v n lo : ℕ) → List FreeBlock → Outcome (ℕ × List FreeBlock × Heap) → Type 0
Served v n lo bs out =
    (bs' : List FreeBlock) × (h' : Heap) × (out ≡ done (v, bs', h'))
    × IsFreeList lo bs'
    × ((a : ℕ) → covers a bs' ≡ (covers a bs && not (in_pages a v n)))

module _ (b : FreeBlock) (rest : List FreeBlock) (v n lo p : ℕ) (h h₁ : Heap)
    (list : IsFreeList lo (b ∷ rest)) (aligned : v % page_size ≡ 0) (ne : v ≢ 0)
    (from : b.virtual_addr ≤ v) (inside : v < end_of b) (until : v + n * page_size ≤ end_of b)
    (memory : new_node block_size h ≡ done (p, h₁)) where
  top : end_of b ≤ 2 ^ 32
  top = IsFreeList-le (end_of b) rest list.2

  -- The whole block goes.
  take-whole : b.page_count ≡ n → Served v n lo (b ∷ rest) (take_from b rest v n h)
  unfolding take_from covers
  take-whole e = (
    rest,
    kfree b.node h,
    ground arith,
    IsFreeList-weaken (end_of b) lo rest (omega arith) list.2,
    λ a. ground (arith, covers-below a (end_of b) rest list.2),
  )

  -- The pages at the beginning of the block go.
  take-front :
      n < b.page_count → v ≡ b.virtual_addr → Served v n lo (b ∷ rest) (take_from b rest v n h)
  unfolding take_from covers
  take-front lt e = (
    block b.node (u32 (b.virtual_addr + n * page_size)) (b.page_count - n) ∷ rest,
    h,
    ground (arith, top),
    (
      omega (arith, top),
      omega (arith, top),
      IsFreeList-weaken (end_of b) _ rest (omega (arith, top)) list.2,
    ),
    λ a. ground (arith, top, covers-below a (end_of b) rest list.2),
  )

  module _ (lt : n < b.page_count) (later : v ≢ b.virtual_addr) where
    offset : sub32 v b.virtual_addr / page_size * page_size + b.virtual_addr ≡ v
    offset = omega (arith, top)

    -- The pages at the end of the block go.
    take-back : v + n * page_size ≡ end_of b → Served v n lo (b ∷ rest) (take_from b rest v n h)
    unfolding take_from covers
    take-back e = (
      block b.node b.virtual_addr (b.page_count - n) ∷ rest,
      h,
      ground (arith, top, offset),
      (omega arith, omega arith, IsFreeList-weaken (end_of b) _ rest (omega (arith, top)) list.2),
      λ a. ground (arith, top, covers-below a (end_of b) rest list.2),
    )

    off : ℕ
    off = sub32 v b.virtual_addr / page_size

    wrap_count : v + n * page_size < end_of b → u32 (off + n) ≡ off + n
    unfolding off
    wrap_count e = omega (arith, top)

    wrap_addr :
        v + n * page_size < end_of b
        → u32 (b.virtual_addr + (off + n) * page_size) ≡ v + n * page_size
    unfolding off
    wrap_addr e = omega (arith, top)

    -- The block is cut in two.
    take-middle : v + n * page_size < end_of b → Served v n lo (b ∷ rest) (take_from b rest v n h)
    unfolding covers off
    take-middle e = (
      block b.node b.virtual_addr off
          ∷ block p (v + n * page_size) (b.page_count - (off + n))
          ∷ rest,
      h₁,
      take,
      (
        omega arith,
        omega arith,
        (
          omega (arith, top),
          omega arith,
          IsFreeList-weaken (end_of b) _ rest (omega (arith, top)) list.2,
        ),
      ),
      λ a. ground (arith, top, covers-below a (end_of b) rest list.2),
    )
      where
        take :
            take_from b rest v n h
            ≡ done (
              v,
              block b.node b.virtual_addr off
                  ∷ block p (v + n * page_size) (b.page_count - (off + n))
                  ∷ rest,
              h₁,
            )
        take = unfold take_from in ground (arith, top, wrap_count e, wrap_addr e)

  take-Served : Served v n lo (b ∷ rest) (take_from b rest v n h)
  take-Served = elim (ℕ_discrete b.page_count n) [
    | yes e ↦ take-whole e
    | no ne_count ↦ elim (ℕ_discrete v b.virtual_addr) [
      | yes e ↦ take-front (omega arith) e
      | no later ↦ elim (ℕ_discrete (v + n * page_size) (end_of b)) [
        | yes e ↦ take-back (omega arith) later e
        | no before ↦ take-middle (omega arith) later (omega arith)
      ]
    ]
  ]

module _ (base virtual_start v n p : ℕ) (is_userspace : Bool) (h h₁ : Heap)
    (aligned : v % page_size ≡ 0) (ne : v ≢ 0) (memory : new_node block_size h ≡ done (p, h₁)) where
  Served-cons :
      (b : FreeBlock) (rest : List FreeBlock) (lo : ℕ)
      → lo ≤ b.virtual_addr
      → b.virtual_addr % page_size ≡ 0
      → end_of b ≤ v
      → (out : Outcome (ℕ × List FreeBlock × Heap)) → Served v n (end_of b) rest out
      → Served v n lo (b ∷ rest) (do (addr, rest', h') ← out; done (addr, b ∷ rest', h'))
  unfolding covers
  Served-cons b rest lo le al before out (rest', h', e, list, cov) =
      (b ∷ rest', h', rw e, (le, al, list), λ a. ground (arith, cov a))

  remove_loop-Served :
      (lo : ℕ) (bs : List FreeBlock)
      → IsFreeList lo bs
      → fits v n bs ≡ true
      → Served v n lo bs (remove_loop base virtual_start v n is_userspace bs h)
  unfolding remove_loop fits
  remove_loop-Served lo [] list fit = cc
  remove_loop-Served lo (b ∷ rest) list fit =
      elim (Bool-cases
        (leb b.virtual_addr v && ltb v (end_of b) && leb (v + n * page_size) (end_of b))) [
          | inl here ↦
              let sel : selects base virtual_start v n is_userspace b ≡ true = ground arith in
              rw sel (
                take-Served b rest v n lo p h h₁ list aligned ne (ground arith) (ground arith)
                  (ground arith) memory)
          | inr not_here ↦
              let later : fits v n rest ≡ true = ground arith in
              let after : end_of b ≤ v = ground (arith, fits-below v n (end_of b) rest list.2) in
              let sel : selects base virtual_start v n is_userspace b ≡ false = ground arith in
              rw sel (
                Served-cons b rest lo list.0 list.1 after _
                  (remove_loop-Served (end_of b) rest list.2 later))
        ]

  -- A request for `n` pages at the page-aligned address `v` that one free block holds is served when there is
  -- memory for a new node: exactly those pages leave the list, which stays in order.
  pub remove_free_blocks_lem :
      (lo : ℕ) (bs : List FreeBlock)
      → IsFreeList lo bs
      → fits v n bs ≡ true
      → Served v n lo bs (remove_free_blocks base virtual_start v n is_userspace bs h)
  unfolding remove_free_blocks fits
  remove_free_blocks_lem lo [] list fit = cc
  remove_free_blocks_lem lo (b ∷ rest) list fit = remove_loop-Served lo (b ∷ rest) list fit
