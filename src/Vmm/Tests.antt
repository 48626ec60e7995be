-- ===== src/Vmm/Tests.antt =====
-- The virtual memory manager at concrete inputs.
use gubos.Prelude.{
  if◌then◌else◌, ◌==◌, ◌%◌, ℕ, ◌≡◌, ◌≢◌, refl, true, false, inl, inr, some, List, [], ◌∷◌, done,
  arith,
}
use mathlib.Core.Path.{subst}
use gubos.Kmalloc.{
  Heap, header, write, kmalloc_init, relink, split, kmalloc_loop, max_rounds, kmalloc,
}
use gubos.Meminfo.Sample.{kernel}
use gubos.Vmm.Blocks.{
  FreeBlock, block, block_size, new_node, is_addr_in_range, is_addr_in_user_range,
  is_addr_ok_for_mode, take_from, selects, remove_loop, remove_free_blocks, add_free_blocks,
}
use gubos.Vmm.Blocks.Cover.{covers, IsFreeList, fits}
use gubos.Vmm.Blocks.Remove.{Served, remove_free_blocks_lem}
use gubos.Vmm.Blocks.Add.{Added, add_free_blocks_lem}
use gubos.Vmm.Tree.{
  Allocation, allocation, no_allocation, AllocTree, null, node, tree_size, add_allocation,
  unmap_loop, find_allocation, clone_allocations,
}
use gubos.Vmm.Tree.Search.{size}
use gubos.Vmm.Tree.Insert.{Inserted, add_allocation_lem}
use gubos.Vmm.Tree.Unmap.{Unmapped, unmap_loop-Unmapped}
use gubos.Vmm.Tree.Clone.{Copied, clone_allocations-Copied}
use gubos.Vmm.Context.Clone.{BlockSupply}
use gubos.Vmm.Context.{VmmContext, context, vmm_map_pages}
use gubos.Vmm.Context.Map.{IsContext, Mapped, vmm_map_pages_lem}

abbrev boot : Heap
boot = kmalloc_init (record { head = 0; cell = λ a. header 0 0 })

-- the heap after kmalloc has cut `n` bytes from the free region at `p`
abbrev after : ℕ → ℕ → Heap → Heap
after n p h = split h n 0 p

memory : new_node block_size boot ≡ done (0xe000_0008, after block_size 0xe000_0000 boot)
unfolding new_node kmalloc kmalloc_loop max_rounds kmalloc_init write
memory = refl

memory_tree : new_node tree_size boot ≡ done (0xe000_0008, after tree_size 0xe000_0000 boot)
unfolding new_node kmalloc kmalloc_loop max_rounds kmalloc_init write
memory_tree = refl

abbrev second : Heap
second = after block_size 0xe000_0000 boot

memory_second : new_node tree_size second ≡ done (0xe000_001c, after tree_size 0xe000_0014 second)
unfolding new_node kmalloc kmalloc_loop max_rounds kmalloc_init write split relink
memory_second = refl

abbrev base : ℕ
base = 0xc000_0000

abbrev kernel_start : ℕ
kernel_start = 0xc010_0000

-- a free block of 16 pages
abbrev blocks : List FreeBlock
blocks = block 0xe000_1000 0x1_0000 16 ∷ []

blocks-IsFreeList : IsFreeList 0 blocks
blocks-IsFreeList = (omega arith, refl, omega arith)

blocks-fits : fits 0x1_2000 2 blocks ≡ true
unfolding fits
blocks-fits = refl

remove_free_blocks_lem_example :
    Served 0x1_2000 2 0 blocks (remove_free_blocks base kernel_start 0x1_2000 2 true blocks boot)
remove_free_blocks_lem_example =
    remove_free_blocks_lem base kernel_start 0x1_2000 2 0xe000_0008 true boot second refl
      (omega arith) memory 0 blocks blocks-IsFreeList blocks-fits

same_side : is_addr_in_user_range base 0x1_0000 16 ≡ is_addr_in_user_range base 0x4000 2
unfolding is_addr_in_user_range
same_side = refl

add_free_blocks_lem_example :
    Added 0x4000 2 0 blocks second (add_free_blocks base 0x4000 2 blocks boot)
add_free_blocks_lem_example =
    add_free_blocks_lem base 0x4000 2 0xe000_0008 boot second refl (omega arith) memory 0 blocks
      blocks-IsFreeList (omega arith) (inr (omega arith), tt) (omega arith) (same_side, tt)

selected : selects base kernel_start 0 16 true (block 0xe000_1000 0x1_0000 16) ≡ true
unfolding selects is_addr_ok_for_mode is_addr_in_user_range is_addr_in_range
selected = refl

-- the user half, as vmm_new_context leaves it
abbrev user_half : FreeBlock
user_half = block 0xe000_1000 0 0xc_0000

-- one allocation of two pages
abbrev pages : Allocation
pages = allocation 0x4000 0x80_0000 2 1

abbrev tree : AllocTree
tree = node 0xe000_2000 (some 0) pages null null

abbrev hi : ℕ
hi = 0xc000_0000

abbrev more : Allocation
more = allocation 0x1_2000 0x90_0000 2 1

node-null : tree ≢ null
node-null e = cc

add_allocation_lem_example :
    Inserted more 0xe000_0008 boot
      (after tree_size 0xe000_0000 boot)
      (omega arith)
      memory_tree
      0
      hi
      tree
      (add_allocation more tree boot)
add_allocation_lem_example =
    add_allocation_lem more 0xe000_0008 boot (after tree_size 0xe000_0000 boot) (omega arith)
      memory_tree 0 hi tree (omega arith, omega arith, omega arith) node-null (omega arith)
      (omega arith) (omega arith) (inr (omega arith), tt, tt)

unmap_loop-Unmapped_example :
    Unmapped pages 1 boot (omega arith) (omega arith) tree (unmap_loop 0x4000 1 0 tree boot)
unmap_loop-Unmapped_example =
    unmap_loop-Unmapped pages 1 boot (omega arith) (omega arith) 0 hi 0 tree
      (omega arith, omega arith, omega arith) (omega arith) (inl refl)

-- memory that holds 7 at every other word
abbrev dirt : ℕ → ℕ
dirt a = if a % 8 == 0 then 7 else 0

clone_allocations-Copied_example :
    (t : AllocTree) × (h : Heap) × (clone_allocations dirt tree boot ≡ done (t, h))
    × Copied dirt 0 hi tree t
unfolding size
clone_allocations-Copied_example =
    clone_allocations-Copied dirt tree 0 hi boot (omega arith, omega arith, omega arith) node-null
      (0xe000_0008, after tree_size 0xe000_0000 boot, memory_tree, tt)

abbrev ctx : VmmContext
ctx = context tree blocks

ctx-apart : (w : ℕ) → covers w blocks ≡ true → find_allocation w tree ≡ done no_allocation
unfolding covers find_allocation
ctx-apart w free = ground arith

ctx-IsContext : IsContext hi ctx
ctx-IsContext = record {
  blocks = blocks-IsFreeList;
  tree = (omega arith, omega arith, omega arith);
  rooted = node-null;
  top = omega arith;
  apart = ctx-apart;
}

-- the request takes the middle of the block, with a new node for the pages behind
removed :
    remove_free_blocks 0xc000_0000 0xc010_0000 0x1_2000 2 false blocks boot
    ≡ done (0x1_2000, block 0xe000_1000 0x1_0000 2 ∷ block 0xe000_0008 0x1_4000 12 ∷ [], second)
unfolding remove_free_blocks remove_loop selects take_from new_node kmalloc kmalloc_loop max_rounds
    kmalloc_init write is_addr_in_range
removed = refl

node_memory :
    (bs : List FreeBlock) (k : Heap)
    → remove_free_blocks 0xc000_0000 0xc010_0000 0x1_2000 2 false blocks boot
      ≡ done (0x1_2000, bs, k)
    → (q : ℕ) × (k' : Heap) × (new_node tree_size k ≡ done (q, k'))
node_memory bs k e =
    let ran = removed in
    let same : second ≡ k = cc in
    (
      0xe000_001c,
      after tree_size 0xe000_0014 second,
      subst (λ x. new_node tree_size x ≡ done (0xe000_001c, after tree_size 0xe000_0014 second))
          same memory_second,
    )

vmm_map_pages_lem_example :
    Mapped kernel 0x1_2000 0x80_0000 2 1 hi 0xe000_0008 ctx boot second
      (vmm_map_pages kernel 0x1_2000 0x80_0000 2 1 ctx boot)
vmm_map_pages_lem_example =
    vmm_map_pages_lem kernel 0x1_2000 0x80_0000 2 1 hi 0xe000_0008 ctx boot second ctx-IsContext
      (omega arith) (omega arith) refl refl (omega arith) blocks-fits memory node_memory

-- memory for the copies of the block and of the tree's node, with the block that is taken in vain
block_copies : (end : Heap) × BlockSupply blocks boot end
unfolding kmalloc kmalloc_loop max_rounds kmalloc_init write split relink
block_copies = (_, (0xe000_0008, _, refl, (omega arith, 0xe000_001c, _, refl, refl)))
