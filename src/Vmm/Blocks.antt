-- ===== src/Vmm/Blocks.antt =====
-- The list of free blocks of kernel/arch/i386/mm/vmm.c. The list is in the order of the `next`
-- fields; a node keeps its address, which is what kfree is given.
pub mod Add
pub mod Cover
pub mod Faults
pub mod Remove
use gubos.Prelude.{
  ℕ, ◌+◌, ◌-◌, ◌*◌, ◌/◌, ◌==◌, ltb, leb, if◌then◌else◌, Bool, not, xor, ◌&&◌, ◌||◌, List, [], ◌∷◌,
  Outcome, done, panic, fault, ◌>>=◌, out_of_memory, no_free_blocks, no_free_range, u32, sub32,
}
use gubos.Kmalloc.{Heap, kmalloc, kfree}
use gubos.Page.{page_size}

-- struct vmm_free_blocks
pub record FreeBlock : Type 0 where
  pub node : ℕ
  pub virtual_addr : ℕ
  pub page_count : ℕ

abbrev pub block : ℕ → ℕ → ℕ → FreeBlock
block p v n = record { node = p; virtual_addr = v; page_count = n }

-- sizeof(vmm_free_blocks_t)
abbrev pub block_size : ℕ
block_size = 12

-- `p = kmalloc(size); *p = ...`: the write faults if there is no memory.
unfoldable pub new_node : ℕ → Heap → Outcome (ℕ × Heap)
new_node size h = do (p, h') ← kmalloc size h; if p == 0 then fault else done (p, h')

-- in 64 bits, so that nothing wraps
unfoldable pub is_addr_in_range : ℕ → FreeBlock → Bool
is_addr_in_range v b = leb b.virtual_addr v && ltb v (b.virtual_addr + b.page_count * page_size)

-- `base` is KERNEL_MEMINFO.higher_half_base
unfoldable pub is_addr_in_user_range : (base v n : ℕ) → Bool
is_addr_in_user_range base v n = ltb (v + n * page_size) base

unfoldable pub is_addr_ok_for_mode : (base virtual_start v n : ℕ) → Bool → Bool
unfolding is_addr_in_user_range
is_addr_ok_for_mode base virtual_start v n is_userspace =
    if is_userspace then is_addr_in_user_range base v n else leb virtual_start v

-- What is done with the block that the loop of remove_free_blocks stops at; `rest` follows it.
unfoldable pub take_from :
    FreeBlock → List FreeBlock → (v n : ℕ) → Heap → Outcome (ℕ × List FreeBlock × Heap)
take_from b rest v n h =
    let page_offset = if v == 0 then 0 else sub32 v b.virtual_addr / page_size in
    let new_block_page_offset = u32 (page_offset + n) in
    if b.page_count == n
    then done (v, rest, kfree b.node h)
    else if not (ltb n b.page_count)
    then done (v, b ∷ rest, h)
    else if ltb (sub32 b.page_count page_offset) n
    then panic out_of_memory
    else if v == 0 || v == b.virtual_addr
    then done (
      b.virtual_addr,
      block b.node (u32 (b.virtual_addr + n * page_size)) (b.page_count - n) ∷ rest,
      h,
    )
    else if ltb new_block_page_offset b.page_count
    then (do
      (p, h') ← new_node block_size h
      let after = u32 (b.virtual_addr + new_block_page_offset * page_size)
      done (
        v,
        block b.node b.virtual_addr page_offset
            ∷ block p after (b.page_count - new_block_page_offset)
            ∷ rest,
        h',
      ))
    else done (v, block b.node b.virtual_addr (b.page_count - n) ∷ rest, h)

module _ (base virtual_start : ℕ) where
  -- the test of the loop of remove_free_blocks
  unfoldable pub selects : (v n : ℕ) → Bool → FreeBlock → Bool
  unfolding is_addr_in_range is_addr_ok_for_mode
  selects v n is_userspace b =
      ((v == 0 && is_addr_ok_for_mode base virtual_start b.virtual_addr n is_userspace)
        || is_addr_in_range v b)
      && leb n b.page_count

  unfoldable pub remove_loop :
      (v n : ℕ) → Bool → List FreeBlock → Heap → Outcome (ℕ × List FreeBlock × Heap)
  unfolding selects take_from
  remove_loop v n is_userspace [] h = panic no_free_range
  remove_loop v n is_userspace (b ∷ rest) h =
      let later : Outcome (ℕ × List FreeBlock × Heap) = (do
        (addr, rest', h') ← remove_loop v n is_userspace rest h
        done (addr, b ∷ rest', h')) in
      if selects v n is_userspace b then take_from b rest v n h else later

  unfoldable pub remove_free_blocks :
      (v n : ℕ) → Bool → List FreeBlock → Heap → Outcome (ℕ × List FreeBlock × Heap)
  unfolding remove_loop
  remove_free_blocks v n is_userspace [] h = panic no_free_blocks
  remove_free_blocks v n is_userspace (b ∷ rest) h = remove_loop v n is_userspace (b ∷ rest) h

-- `*new_block = ...; prev->next = new_block`
unfoldable pub insert_after :
    FreeBlock → List FreeBlock → (v n : ℕ) → Heap → Outcome (List FreeBlock × Heap)
insert_after prev rest v n h = do
  (p, h') ← new_node block_size h
  done (prev ∷ block p v n ∷ rest, h')

-- the second merge of merge_or_insert_free_blocks, with the block that follows `prev`; `grown` is
-- `prev` after the first, and `merged` says whether that was made
unfoldable pub merge_next :
    (prev grown : FreeBlock)
    → Bool
    → List FreeBlock
    → (v n : ℕ) → Heap
    → Outcome (List FreeBlock × Heap)
unfolding insert_after
merge_next prev grown merged [] v n h =
    if merged then done (grown ∷ [], h) else insert_after grown [] v n h
merge_next prev grown merged (b ∷ rest) v n h =
    if u32 (prev.virtual_addr + n * page_size) == b.virtual_addr
    then done
        (record grown { page_count = u32 (grown.page_count + b.page_count) } ∷ rest, kfree b.node h)
    else if merged
    then done (grown ∷ b ∷ rest, h)
    else insert_after grown (b ∷ rest) v n h

module _ (base : ℕ) where
  unfoldable pub merge_or_insert_free_blocks :
      FreeBlock → List FreeBlock → (v n : ℕ) → Heap → Outcome (List FreeBlock × Heap)
  unfolding is_addr_in_user_range insert_after merge_next
  merge_or_insert_free_blocks prev rest v n h =
      let is_userspace_block = is_addr_in_user_range base prev.virtual_addr prev.page_count in
      let is_userspace_addr = is_addr_in_user_range base v n in
      let contiguous = u32 (prev.virtual_addr + n * page_size) == v in
      let grown =
        if contiguous then record prev { page_count = u32 (prev.page_count + n) } else prev in
      if not (xor is_userspace_block is_userspace_addr)
      then insert_after prev rest v n h
      else merge_next prev grown contiguous rest v n h

  -- the loop of add_free_blocks once it has passed `prev`
  unfoldable pub add_loop :
      FreeBlock → List FreeBlock → (v n : ℕ) → Heap → Outcome (List FreeBlock × Heap)
  unfolding merge_or_insert_free_blocks
  add_loop prev [] v n h = merge_or_insert_free_blocks prev [] v n h
  add_loop prev (b ∷ rest) v n h =
      let later : Outcome (List FreeBlock × Heap) = (do
        (rest', h') ← add_loop b rest v n h
        done (prev ∷ rest', h')) in
      if ltb b.virtual_addr v then later else merge_or_insert_free_blocks prev (b ∷ rest) v n h

  unfoldable pub add_free_blocks :
      (v n : ℕ) → List FreeBlock → Heap → Outcome (List FreeBlock × Heap)
  unfolding add_loop
  add_free_blocks v n [] h = do (p, h') ← new_node block_size h; done (block p v n ∷ [], h')
  add_free_blocks v n (b ∷ rest) h =
      if ltb b.virtual_addr v
      then add_loop b rest v n h
      else if u32 (v + n * page_size) == b.virtual_addr
      then done (record b { page_count = u32 (b.page_count + n) } ∷ rest, h)
      else (do (p, h') ← new_node block_size h; done (block p v n ∷ b ∷ rest, h'))

-- The while loop of clone_free_blocks: `current` is where the next copy goes. A node more than is
-- needed is allocated at the end.
unfoldable pub clone_loop : (current : ℕ) → List FreeBlock → Heap → Outcome (List FreeBlock × Heap)
clone_loop current [] h = done ([], h)
clone_loop current (b ∷ rest) h =
    let copy : Outcome (List FreeBlock × Heap) = (do
      (next, h') ← kmalloc block_size h
      (rest', h'') ← clone_loop next rest h'
      done (block current b.virtual_addr b.page_count ∷ rest', h'')) in
    if current == 0 then fault else copy

unfoldable pub clone_free_blocks : List FreeBlock → Heap → Outcome (List FreeBlock × Heap)
unfolding clone_loop
clone_free_blocks [] h = done ([], h)
clone_free_blocks (b ∷ rest) h = do
  (current, h') ← kmalloc block_size h
  clone_loop current (b ∷ rest) h'
