-- ===== src/Vmm/Tree.antt =====
-- The tree of allocations of kernel/arch/i386/mm/vmm.c.
pub mod Search
pub mod Insert
pub mod Unmap
pub mod Clone
use gubos.Prelude.{
  ℕ, ◌+◌, ◌*◌, ◌==◌, ltb, leb, if◌then◌else◌, ◌&&◌, Option, none, some, Outcome, done, panic, fault,
  ◌>>=◌, unmap_too_much, unmap_not_found, u32, sub32,
}
use gubos.Kmalloc.{Heap, kfree}
use gubos.Page.{page_size}
use gubos.Vmm.Blocks.{new_node}

-- struct vmm_allocation
pub record Allocation : Type 0 where
  pub virtual_addr : ℕ
  pub physical_addr : ℕ
  pub page_count : ℕ
  pub flags : ℕ

abbrev pub allocation : ℕ → ℕ → ℕ → ℕ → Allocation
allocation v p n f = record { virtual_addr = v; physical_addr = p; page_count = n; flags = f }

-- `(vmm_allocation_t) { 0 }`
abbrev pub no_allocation : Allocation
no_allocation = allocation 0 0 0 0

-- struct vmm_allocation_tree. A node has its address and what its `parent` field holds (`some 0` for NULL).
-- `wild` is a child pointer that was never written and is not NULL: it leads anywhere.
pub data AllocTree : Type 0 where
  null : AllocTree
  wild : AllocTree
  node : (self : ℕ) (parent : Option ℕ) → Allocation → (left right : AllocTree) → AllocTree

-- sizeof(vmm_allocation_tree_t)
abbrev pub tree_size : ℕ
tree_size = 28

-- The descent of add_allocation below the node at `prev`, and the new node.
unfoldable pub insert : (prev : ℕ) → Allocation → AllocTree → Heap → Outcome (AllocTree × Heap)
unfolding new_node
insert prev alloc null h = do
  (p, h') ← new_node tree_size h
  done (node p (some prev) alloc null null, h')
insert prev alloc wild h = fault
insert prev alloc (node self parent a left right) h =
    let go_left : Outcome (AllocTree × Heap) = (do
      (left', h') ← insert self alloc left h
      done (node self parent a left' right, h')) in
    let go_right : Outcome (AllocTree × Heap) = (do
      (right', h') ← insert self alloc right h
      done (node self parent a left right', h')) in
    if ltb alloc.virtual_addr a.virtual_addr then go_left else go_right

-- A root with no pages is the empty tree, and is filled in place.
unfoldable pub add_allocation : Allocation → AllocTree → Heap → Outcome (AllocTree × Heap)
unfolding insert
add_allocation alloc null h = fault
add_allocation alloc wild h = fault
add_allocation alloc (node self parent a left right) h =
    if a.page_count == 0
    then done (node self parent alloc left right, h)
    else insert 0 alloc (node self parent a left right) h

-- `while (node->right) node = node->right; node->right = right`
unfoldable pub graft : AllocTree → AllocTree → Outcome AllocTree
graft null right = fault
graft wild right = fault
graft (node self parent a l null) right = done (node self parent a l right)
graft (node self parent a l wild) right = fault
graft (node self parent a l (node s p b x y)) right = do
  r ← graft (node s p b x y) right
  done (node self parent a l r)

-- `up` is the node above, 0 at the root. The code goes by the `parent` field: where that is not the
-- node above, it points to a node that was freed, or was never written.
unfoldable pub remove_allocation :
    (up self : ℕ) → Option ℕ → (left right : AllocTree) → Heap → Outcome (AllocTree × Heap)
unfolding graft
remove_allocation up self none left right h = fault
remove_allocation up self (some parent) left right h =
    if parent == up then (do t ← graft left right; done (t, kfree self h)) else fault

-- the while loop of vmm_unmap_pages
unfoldable pub unmap_loop : (v n up : ℕ) → AllocTree → Heap → Outcome (AllocTree × Heap)
unfolding remove_allocation
unmap_loop v n up null h = panic unmap_not_found
unmap_loop v n up wild h = fault
unmap_loop v n up (node self parent a left right) h =
    let go_left : Outcome (AllocTree × Heap) = (do
      (left', h') ← unmap_loop v n self left h
      done (node self parent a left' right, h')) in
    let go_right : Outcome (AllocTree × Heap) = (do
      (right', h') ← unmap_loop v n self right h
      done (node self parent a left right', h')) in
    let shifted = record a {
      virtual_addr = u32 (a.virtual_addr + page_size * n);
      page_count = sub32 a.page_count n;
    } in
    if v == a.virtual_addr
    then (if ltb n a.virtual_addr
        then done (node self parent shifted left right, h)
        else if n == a.virtual_addr
        then remove_allocation up self parent left right h
        else panic unmap_too_much)
    else if ltb v a.virtual_addr
    then go_left
    else go_right

-- vmm_find_allocation; the end of an allocation wraps at 2 ^ 32
unfoldable pub find_allocation : ℕ → AllocTree → Outcome Allocation
find_allocation v null = done no_allocation
find_allocation v wild = fault
find_allocation v (node self parent a left right) =
    let in_left = find_allocation v left in
    let in_right = find_allocation v right in
    if leb a.virtual_addr v && ltb v (u32 (a.virtual_addr + a.page_count * page_size))
    then done a
    else if ltb v a.virtual_addr
    then in_left
    else in_right

-- What a child pointer that was never written reads as where its memory holds `word`: NULL, or a stray
-- pointer.
abbrev pub unwritten : (word : ℕ) → AllocTree
unwritten word = if word == 0 then null else wild

-- The parent field of a new node; the copy of a root keeps what its memory holds.
abbrev pub parent_field : (word : ℕ) → Option ℕ → Option ℕ
parent_field word none = some word
parent_field word (some parent) = some parent

-- A child that the original lacks is not written in the copy. `stale` is what the memory of the new nodes holds
-- before anything is written to it, by address, and `slot` the address of the pointer to the copy. The fields
-- left, right and parent are 16, 20 and 24 bytes into a node.
unfoldable pub clone_allocation_tree :
    (stale : ℕ → ℕ) (slot : ℕ) → Option ℕ → AllocTree → Heap → Outcome (AllocTree × Heap)
unfolding new_node
clone_allocation_tree stale slot parent null h = done (unwritten (stale slot), h)
clone_allocation_tree stale slot parent wild h = fault
clone_allocation_tree stale slot parent (node s p a left right) h = do
  (self, h₁) ← new_node tree_size h
  (left', h₂) ← clone_allocation_tree stale (u32 (self + 16)) (some self) left h₁
  (right', h₃) ← clone_allocation_tree stale (u32 (self + 20)) (some self) right h₂
  done (node self (parent_field (stale (u32 (self + 24))) parent) a left' right', h₃)

-- The root of the copy has no parent written, and no slot.
unfoldable pub clone_allocations : (stale : ℕ → ℕ) → AllocTree → Heap → Outcome (AllocTree × Heap)
unfolding clone_allocation_tree
clone_allocations stale null h = done (null, h)
clone_allocations stale wild h = fault
clone_allocations stale (node s p a left right) h =
    clone_allocation_tree stale 0 none (node s p a left right) h
