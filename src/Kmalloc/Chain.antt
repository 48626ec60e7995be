-- ===== src/Kmalloc/Chain.antt =====
-- The loop of kmalloc (kernel/kmalloc.c) walks the chain of free regions as `carve` walks their list.
use mathlib.Core.Path.{subst}
use gubos.Prelude.{
  ℕ, ◌+◌, ◌-◌, ◌≤◌, ◌<◌, ◌≡◌, ◌≢◌, ◌⊎◌, inl, inr, refl, sym, ap, ◌==◌, if◌then◌else◌, false,
  Bool-cases, Option, none, some, Outcome, done, List, [], ◌∷◌, u32, sub32, arith,
}
use gubos.Kmalloc.{Header, Heap, header, header_size, write, relink, split}
use gubos.Kmalloc.Regions.{Region, region, last, All, Off, InHeap}

-- from `p` the `next` fields lead through the headers of `rs` to NULL, with their sizes
abbrev pub Chain : (ℕ → Header) → ℕ → List Region → Type 0
Chain c p [] = p ≡ 0
Chain c p (r ∷ rs) = (r.start ≡ p) × (0 < p) × ((c p).size ≡ r.size) × Chain c (c p).next rs

-- no region of `rs` holds the byte at `x`
abbrev pub Outside : ℕ → List Region → Type 0
Outside x = All (λ r. (x < r.start) ⊎ (last r ≤ x))

-- the pointer that the walk has followed: KMALLOC_HEAD, or `prev->next`
abbrev pub link : Heap → ℕ → ℕ
link h prev = if prev == 0 then h.head else (h.cell prev).next

pub Outside-Off :
    (x : ℕ) (r : Region) (rs : List Region)
    → r.start ≤ x
    → x < last r
    → All (Off r) rs
    → Outside x rs
Outside-Off x r [] lo hi off = tt
Outside-Off x r (s ∷ rs) lo hi off = (ground arith, Outside-Off x r rs lo hi off.1)

-- A write outside the regions leaves their chain as it is.
pub Chain-write :
    (h : Heap) (x : ℕ) (v : Header) (p : ℕ) (rs : List Region)
    → Outside x rs
    → Chain h.cell p rs
    → Chain (write h x v).cell p rs
unfolding write
Chain-write h x v p [] out chain = chain
Chain-write h x v p (r ∷ rs) out chain =
    let ne : (p == x) ≡ false = ground arith in
    rw ne (chain.0, chain.1, chain.2, Chain-write h x v (h.cell p).next rs out.1 chain.3)

Chain-relink :
    (h : Heap) (prev q p : ℕ) (rs : List Region)
    → Outside prev rs
    → Chain h.cell p rs
    → Chain (relink h prev q).cell p rs
unfolding relink
Chain-relink h prev q p rs out chain = elim (Bool-cases (prev == 0)) [
  | inl top ↦ rw top chain
  | inr inner ↦ rw inner (Chain-write h prev _ p rs out chain)
]

-- what a served request leaves alone
pub record Frame (h h' : Heap) (prev : ℕ) (rs : List Region) : Type 0 where
  pub sizes : (x : ℕ) → Outside x rs → (h'.cell x).size ≡ (h.cell x).size
  pub nexts : (x : ℕ) → Outside x rs → x ≢ prev → (h'.cell x).next ≡ (h.cell x).next
  pub head : prev ≢ 0 → h'.head ≡ h.head

-- the heap after a request for `n` bytes that was served by the header at `a`
pub record Taken (n a : ℕ) (left : List Region) (h h' : Heap) (prev : ℕ) (rs : List Region)
    : Type 0 where
  pub chain : Chain h'.cell (link h' prev) left
  pub size : (h'.cell a).size ≡ n
  pub frame : Frame h h' prev rs

abbrev pub Walked :
    ℕ → Heap → ℕ → List Region → Outcome (ℕ × Heap) → Option (ℕ × List Region) → Type 0
Walked n h prev rs out none = out ≡ done (0, h)
Walked n h prev rs out (some (a, left)) =
    (h' : Heap) × (out ≡ done (a + header_size, h')) × Taken n a left h h' prev rs

module _ (n : ℕ) (h : Heap) (prev : ℕ) (r : Region) (rs : List Region)
    (chain : Chain h.cell r.start (r ∷ rs)) (out : Outside prev (r ∷ rs)) (off : All (Off r) rs)
    (ne : r.start ≢ 0) where
  pub relink-Taken :
      r.size ≡ n → Taken n r.start rs h (relink h prev (h.cell r.start).next) prev (r ∷ rs)
  unfolding relink write
  relink-Taken e = record {
    chain =
        let e : link (relink h prev (h.cell r.start).next) prev ≡ (h.cell r.start).next =
          ground arith in
        subst (λ p. Chain (relink h prev (h.cell r.start).next).cell p rs) (sym e)
          (Chain-relink h prev _ (h.cell r.start).next rs out.1 chain.3);
    size = ground arith;
    frame = record {
      sizes = λ x o. ground arith;
      nexts = λ x o d. ground arith;
      head = ground arith;
    };
  }

  module _ (i : InHeap r) (lt : n + header_size < r.size) where
    -- where the rest of the region begins
    abbrev rest : ℕ
    rest = r.start + header_size + n

    -- the two writes before the last
    abbrev h₁ : Heap
    h₁ =
        write h (u32 rest)
          (header (sub32 (sub32 (h.cell r.start).size n) header_size) (h.cell r.start).next)

    abbrev h₂ : Heap
    h₂ = relink h₁ prev (u32 rest)

    no_wrap : u32 rest ≡ rest
    no_wrap = omega arith

    remaining : sub32 (sub32 (h.cell r.start).size n) header_size ≡ r.size - n - header_size
    remaining = let e : (h.cell r.start).size ≡ r.size = chain.2 in rw e (omega arith)

    split-Chain : Chain (split h n prev r.start).cell (h.cell r.start).next rs
    unfolding split
    split-Chain =
        let p = (h.cell r.start).next in
        Chain-write h₂ r.start _ p rs (Outside-Off r.start r rs (omega arith) (omega arith) off) (
          Chain-relink h₁ prev (u32 rest) p rs out.1 (
            Chain-write h (u32 rest) _ p rs
              (Outside-Off (u32 rest) r rs (omega arith) (omega arith) off) chain.3))

    split-link : link (split h n prev r.start) prev ≡ rest
    unfolding split relink write
    split-link = ground (arith, no_wrap)

    split-cell :
        (split h n prev r.start).cell rest ≡ header (r.size - n - header_size) (h.cell r.start).next
    unfolding split relink write
    split-cell = ground (arith, no_wrap, remaining)

    split-Frame : Frame h (split h n prev r.start) prev (r ∷ rs)
    unfolding split relink write
    split-Frame = record {
      sizes = λ x o. ground (arith, no_wrap);
      nexts = λ x o d. ground (arith, no_wrap);
      head = λ d. ground arith;
    }

    pub split-Taken :
        Taken n r.start
          (region rest (r.size - n - header_size) ∷ rs)
          h
          (split h n prev r.start)
          prev
          (r ∷ rs)
    unfolding split write
    split-Taken =
        let h' = split h n prev r.start in
        record {
          chain =
              subst (λ p. Chain h'.cell p (region rest (r.size - n - header_size) ∷ rs))
                (sym split-link)
                (
                  refl,
                  omega arith,
                  ap (λ (c : Header). c.size) split-cell,
                  subst (λ (c : Header). Chain h'.cell c.next rs) (sym split-cell) split-Chain,
                );
          size = ground arith;
          frame = split-Frame;
        }
