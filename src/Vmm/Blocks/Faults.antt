-- ===== src/Vmm/Blocks/Faults.antt =====
-- Requests that the list of free blocks of kernel/arch/i386/mm/vmm.c does not serve as meant.
use gubos.Prelude.{
  ℕ, ◌+◌, ◌-◌, ◌*◌, ◌≤◌, ◌<◌, ◌^◌, ◌≡◌, Bool, true, false, List, ◌∷◌, done, u32, arith,
}
use gubos.Kmalloc.{Heap, kfree}
use gubos.Page.{page_size}
use gubos.Vmm.Blocks.{FreeBlock, block, take_from, selects, remove_free_blocks, add_free_blocks}
use gubos.Vmm.Blocks.Cover.{covers, in_pages, end_of, IsFreeList, IsFreeList-le, covers-below}

module _ (base virtual_start n : ℕ) (is_userspace : Bool) (b : FreeBlock) (rest : List FreeBlock)
    (h : Heap) where
  -- A request for `n` pages anywhere, met by a first block of exactly `n` pages that suits the caller's
  -- mode, removes that block and returns 0, not the address of the block.
  pub remove_exact_anywhere :
      (0 < n)
      → selects base virtual_start 0 n is_userspace b ≡ true
      → b.page_count ≡ n
      → remove_free_blocks base virtual_start 0 n is_userspace (b ∷ rest) h
        ≡ done (0, rest, kfree b.node h)
  unfolding remove_free_blocks
  remove_exact_anywhere pos sel e = rw sel (unfold take_from in ground arith)

module _ (base virtual_start v n : ℕ) (is_userspace : Bool) (b : FreeBlock) (rest : List FreeBlock)
    (h : Heap) where
  -- A request for `n` pages at an address inside a block of exactly `n` pages, but not at its beginning,
  -- is served: the whole block is removed, so its first page is lost, and the pages handed out go on
  -- past its end.
  pub remove_exact_inside :
      (lo : ℕ)
      → IsFreeList lo (b ∷ rest)
      → b.virtual_addr < v
      → v < end_of b
      → b.page_count ≡ n
      → (remove_free_blocks base virtual_start v n is_userspace (b ∷ rest) h
          ≡ done (v, rest, kfree b.node h))
        × (covers b.virtual_addr rest ≡ false)
        × (in_pages b.virtual_addr v n ≡ false)
        × (end_of b < v + n * page_size)
  unfolding remove_free_blocks
  remove_exact_inside lo list lt inside e = (
    served,
    covers-below b.virtual_addr (end_of b) rest list.2 (omega arith),
    ground arith,
    ground arith,
  )
    where
      served :
          remove_free_blocks base virtual_start v n is_userspace (b ∷ rest) h
          ≡ done (v, rest, kfree b.node h)
      served = unfold remove_free_blocks in ground arith

-- A kernel request for `n` pages anywhere, when a larger free block begins at address 0, is served with
-- the pages from 0 on: the user page at NULL, not a kernel page.
pub remove_kernel_null :
    (base virtual_start n : ℕ) (b : FreeBlock) (rest : List FreeBlock) (h : Heap)
    → b.virtual_addr ≡ 0
    → 0 < n
    → n < b.page_count
    → end_of b ≤ 2 ^ 32
    → remove_free_blocks base virtual_start 0 n false (b ∷ rest) h
      ≡ done (0, block b.node (n * page_size) (b.page_count - n) ∷ rest, h)
unfolding remove_free_blocks
remove_kernel_null base virtual_start n b rest h start pos lt top = ground arith

-- Freeing `n` pages that end where the first free block begins lengthens that block at its other end: the
-- pages freed do not become free, and the page behind the block does.
pub add_before_first :
    (base v n lo : ℕ) (b : FreeBlock) (rest : List FreeBlock) (h : Heap)
    → IsFreeList lo (b ∷ rest)
    → 0 < n
    → v + n * page_size ≡ b.virtual_addr
    → end_of b < 2 ^ 32
    → (bs' : List FreeBlock) × (add_free_blocks base v n (b ∷ rest) h ≡ done (bs', h))
      × (covers v bs' ≡ false)
      × (covers (end_of b) bs' ≡ true)
unfolding add_free_blocks covers
add_before_first base v n lo b rest h list pos e top = (
  record b { page_count = u32 (b.page_count + n) } ∷ rest,
  ground arith,
  ground (arith, covers-below v (end_of b) rest list.2),
  ground (arith, IsFreeList-le (end_of b) rest list.2),
)
