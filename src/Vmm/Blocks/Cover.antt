-- ===== src/Vmm/Blocks/Cover.antt =====
-- What a list of free blocks (kernel/arch/i386/mm/vmm.c) stands for: a set of addresses.
use gubos.Prelude.{
  ℕ, ◌+◌, ◌*◌, ◌%◌, ◌≤◌, ◌<◌, ◌^◌, ◌≡◌, refl, ltb, leb, Bool, false, ◌&&◌, ◌||◌, List, [], ◌∷◌,
  arith,
}
use gubos.Page.{page_size}
use gubos.Vmm.Blocks.{FreeBlock, is_addr_in_range}

-- the address `a` is free
unfoldable pub covers : ℕ → List FreeBlock → Bool
unfolding is_addr_in_range
covers a [] = false
covers a (b ∷ bs) = is_addr_in_range a b || covers a bs

-- `a` lies in the `n` pages from `v` on
abbrev pub in_pages : (a v n : ℕ) → Bool
in_pages a v n = leb v a && ltb a (v + n * page_size)

abbrev pub end_of : FreeBlock → ℕ
end_of b = b.virtual_addr + b.page_count * page_size

-- Page-aligned blocks in the order of their addresses, the first at `lo` or above, that do not
-- overlap and end in the address space.
abbrev pub IsFreeList : ℕ → List FreeBlock → Type 0
IsFreeList lo [] = lo ≤ 2 ^ 32
IsFreeList lo (b ∷ bs) =
    (lo ≤ b.virtual_addr) × (b.virtual_addr % page_size ≡ 0) × IsFreeList (end_of b) bs

-- one block holds all `n` pages from `v` on
unfoldable pub fits : (v n : ℕ) → List FreeBlock → Bool
fits v n [] = false
fits v n (b ∷ bs) =
    (leb b.virtual_addr v && ltb v (end_of b) && leb (v + n * page_size) (end_of b)) || fits v n bs

pub IsFreeList-le : (lo : ℕ) (bs : List FreeBlock) → IsFreeList lo bs → lo ≤ 2 ^ 32
IsFreeList-le lo [] s = s
IsFreeList-le lo (b ∷ bs) s = omega (arith, IsFreeList-le (end_of b) bs s.2)

pub IsFreeList-weaken :
    (lo lo' : ℕ) (bs : List FreeBlock) → lo' ≤ lo → IsFreeList lo bs → IsFreeList lo' bs
IsFreeList-weaken lo lo' [] h s = omega arith
IsFreeList-weaken lo lo' (b ∷ bs) h s = (omega arith, s.1, s.2)

pub covers-below :
    (a lo : ℕ) (bs : List FreeBlock) → IsFreeList lo bs → a < lo → covers a bs ≡ false
unfolding covers
covers-below a lo [] s h = refl
covers-below a lo (b ∷ bs) s h = ground (arith, covers-below a (end_of b) bs s.2)

pub fits-below :
    (v n lo : ℕ) (bs : List FreeBlock) → IsFreeList lo bs → v < lo → fits v n bs ≡ false
unfolding fits
fits-below v n lo [] s h = refl
fits-below v n lo (b ∷ bs) s h = ground (arith, fits-below v n (end_of b) bs s.2)
