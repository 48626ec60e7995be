-- ===== src/Vmm/Tree/Clone.antt =====
-- The copy of an allocation tree that clone_allocations makes (kernel/arch/i386/mm/vmm.c).
use gubos.Prelude.{
  ℕ, zero, suc, ◌≡◌, ◌≢◌, refl, ◌==◌, if◌then◌else◌, Option, none, some, ◌+◌, ◌≤◌, ◌<◌, ◌⊎◌, inl,
  inr, Bool-cases, Bool, leb, ltb, ◌&&◌, ◌*◌, true, false, u32, Outcome, done, fault, ◌>>=◌, arith,
}
use mathlib.Core.Path.{subst}
use gubos.Page.{page_size}
use gubos.Kmalloc.{Heap}
use gubos.Vmm.Blocks.{new_node}
use gubos.Vmm.Tree.{
  Allocation, AllocTree, null, wild, node, tree_size, find_allocation, clone_allocation_tree,
  clone_allocations, unwritten, parent_field, no_allocation,
}
use gubos.Vmm.Tree.Search.{IsTree, end_of, size}

-- the heap has memory for `k` tree nodes more, one after the other
abbrev pub Supply : ℕ → Heap → Type 0
Supply zero h = Unit
Supply (suc k) h = (p : ℕ) × (h' : Heap) × (new_node tree_size h ≡ done (p, h')) × Supply k h'

-- What a search in the copy comes to where the memory of its nodes holds no 0: an address that the original
-- does not hold leads to a stray pointer.
abbrev pub or_fault : Outcome Allocation → Outcome Allocation
or_fault found = found >>= λ a. if a.page_count == 0 then fault else done a

-- the two searches agree, or the original's finds nothing and the copy's goes astray
abbrev pub Agrees : (found copied : Outcome Allocation) → Type 0
Agrees found copied = (copied ≡ found) ⊎ ((found ≡ done no_allocation) × (copied ≡ fault))

abbrev pub Cleared : (ℕ → ℕ) → Type 0
Cleared stale = (a : ℕ) → stale a ≡ 0

abbrev pub Dirty : (ℕ → ℕ) → Type 0
Dirty stale = (a : ℕ) → stale a ≢ 0

-- A copy `t'` of `t`. Where its memory was cleared it is a search tree with the same allocations.
pub record Copied (stale : ℕ → ℕ) (lo hi : ℕ) (t t' : AllocTree) : Type 0 where
  pub agrees : (w : ℕ) → Agrees (find_allocation w t) (find_allocation w t')
  pub cleared : Cleared stale → (w : ℕ) → find_allocation w t' ≡ find_allocation w t
  pub tree : Cleared stale → IsTree lo hi t'
  pub rooted : t ≢ null → t' ≢ null
  pub dirty : Dirty stale → (w : ℕ) → find_allocation w t' ≡ or_fault (find_allocation w t)

unwritten-Copied :
    (stale : ℕ → ℕ) (slot lo hi : ℕ) → lo ≤ hi → Copied stale lo hi null (unwritten (stale slot))
unfolding find_allocation
unwritten-Copied stale slot lo hi s = elim (Bool-cases (stale slot == 0)) [
  | inl zero_word ↦ rw zero_word (record {
    agrees = λ w. inl refl;
    cleared = λ c w. refl;
    tree = λ c. s;
    rooted = λ ne. absurd (ne refl);
    dirty = λ d. absurd (d slot (ground arith));
  })
  | inr word ↦ rw word (record {
    agrees = λ w. inr (refl, refl);
    cleared = λ c. absurd (ground (arith, c slot));
    tree = λ c. absurd (ground (arith, c slot));
    rooted = λ ne. absurd (ne refl);
    dirty = λ d w. refl;
  })
]

Agrees-if :
    (b : Bool) {x x' y y' : Outcome Allocation}
    → Agrees x x'
    → Agrees y y'
    → Agrees (if b then x else y) (if b then x' else y')
Agrees-if true p q = p
Agrees-if false p q = q

node-Copied :
    (stale : ℕ → ℕ) (lo hi : ℕ) (a : Allocation) (old new : ℕ) (up up' : Option ℕ)
    (l r l' r' : AllocTree)
    → 0 < a.page_count
    → Copied stale lo a.virtual_addr l l'
    → Copied stale (end_of a) hi r r'
    → Copied stale lo hi (node old up a l r) (node new up' a l' r')
unfolding find_allocation
node-Copied stale lo hi a old new up up' l r l' r' pos cl cr = record {
  agrees = λ w.
      Agrees-if (leb a.virtual_addr w && ltb w (u32 (a.virtual_addr + a.page_count * page_size)))
        {x = done a} {x' = done a} (inl refl)
        (Agrees-if (ltb w a.virtual_addr) (cl.agrees w) (cr.agrees w));
  rooted = λ ne. λ (e : node new up' a l' r' ≡ null). cc;
  cleared = λ c w. ground (arith, cl.cleared c w, cr.cleared c w);
  tree = λ c. (pos, cl.tree c, cr.tree c);
  dirty = λ d w. ground (arith, pos, cl.dirty d w, cr.dirty d w);
}

clone_allocation_tree-Copied :
    (stale : ℕ → ℕ) (slot : ℕ) (parent : Option ℕ) (t : AllocTree) (k lo hi : ℕ) (h : Heap)
    → IsTree lo hi t
    → Supply (size t + k) h
    → (t' : AllocTree) × (h' : Heap) × (clone_allocation_tree stale slot parent t h ≡ done (t', h'))
      × Copied stale lo hi t t'
      × Supply k h'
unfolding clone_allocation_tree size
clone_allocation_tree-Copied stale slot parent null k lo hi h s m = (
  unwritten (stale slot),
  h,
  refl,
  unwritten-Copied stale slot lo hi s,
  subst (λ n. Supply n h) (omega arith) m,
)
clone_allocation_tree-Copied stale slot parent wild k lo hi h s m = absurd s
clone_allocation_tree-Copied stale slot parent (node old up a l r) k lo hi h s m =
    let count : suc (size l + size r) + k ≡ suc (size l + (size r + k)) = omega arith in
    let (self, h₁, got, m₁) : Supply (suc (size l + (size r + k))) h =
      subst (λ n. Supply n h) count m in
    let (l', h₂, el, cl, m₂) =
      clone_allocation_tree-Copied stale (u32 (self + 16)) (some self) l (size r + k) lo
        a.virtual_addr h₁ s.1 m₁ in
    let (r', h₃, er, cr, m₃) =
      clone_allocation_tree-Copied stale (u32 (self + 20)) (some self) r k (end_of a) hi h₂ s.2
        m₂ in
    let up' = parent_field (stale (u32 (self + 24))) parent in
    (
      node self up' a l' r',
      h₃,
      rw (got, el, er) refl,
      node-Copied stale lo hi a old self up up' l r l' r' s.0 cl cr,
      m₃,
    )

-- With memory for its nodes, whatever it held before, a search tree that is not empty is copied. A search in the
-- copy finds what the original finds; where the original finds nothing, it finds nothing or follows a stray
-- pointer. Where the memory held only zeros, it always agrees and the copy is a search tree; where it held no
-- zero, it follows a stray pointer whenever the original finds nothing.
pub clone_allocations-Copied :
    (stale : ℕ → ℕ) (t : AllocTree) (lo hi : ℕ) (h : Heap)
    → IsTree lo hi t
    → t ≢ null
    → Supply (size t) h
    → (t' : AllocTree) × (h' : Heap) × (clone_allocations stale t h ≡ done (t', h'))
      × Copied stale lo hi t t'
unfolding clone_allocations
clone_allocations-Copied stale null lo hi h s ne m = absurd (ne refl)
clone_allocations-Copied stale wild lo hi h s ne m = absurd s
clone_allocations-Copied stale (node self up a l r) lo hi h s ne m =
    let t = node self up a l r in
    let (t', h', e, copied, rest) =
      clone_allocation_tree-Copied stale 0 none t 0 lo hi h s
        (subst (λ n. Supply n h) (omega arith) m) in
    (t', h', e, copied)
