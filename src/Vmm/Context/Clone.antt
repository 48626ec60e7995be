-- ===== src/Vmm/Context/Clone.antt =====
-- The copy of a context (vmm_clone_context of kernel/arch/i386/mm/vmm.c).
use gubos.Prelude.{ℕ, ◌≡◌, ◌≢◌, List, [], ◌∷◌, done}
use gubos.Kmalloc.{Heap, kmalloc}
use gubos.Vmm.Blocks.{FreeBlock, block_size}
use gubos.Vmm.Blocks.Cover.{covers, IsFreeList}

-- Memory for a copy of each block, the first at `current`; behind the last one more is taken, which may be NULL.
abbrev pub Nodes : (current : ℕ) → List FreeBlock → (h end : Heap) → Type 0
Nodes current [] h end = h ≡ end
Nodes current (b ∷ bs) h end =
    (current ≢ 0)
    × (next : ℕ) × (h' : Heap) × (kmalloc block_size h ≡ done (next, h'))
    × Nodes next bs h' end

-- what clone_free_blocks takes from the heap
abbrev pub BlockSupply : List FreeBlock → (h end : Heap) → Type 0
BlockSupply [] h end = h ≡ end
BlockSupply (b ∷ bs) h end =
    (current : ℕ) × (h' : Heap) × (kmalloc block_size h ≡ done (current, h'))
    × Nodes current (b ∷ bs) h' end

-- the blocks of a copy stand for the same addresses and are in order like the original's
abbrev SameBlocks : List FreeBlock → List FreeBlock → Type 0
SameBlocks bs bs' =
    ((w : ℕ) → covers w bs' ≡ covers w bs) × ((lo : ℕ) → IsFreeList lo bs → IsFreeList lo bs')
