-- ===== src/Kmalloc/Regions.antt =====
-- What the allocator of kernel/kmalloc.c promises, on lists of regions: the first region that serves
-- is taken whole or cut, and the rest stays in order.
use gubos.Prelude.{
  ℕ, ◌+◌, ◌-◌, ◌≤◌, ◌<◌, ◌≡◌, ◌⊎◌, inl, inr, ◌==◌, if◌then◌else◌, ltb, Bool-cases, Option, none,
  some, List, [], ◌∷◌, arith,
}
use mathlib.Core.Option
use gubos.Kmalloc.{header_size, kernel_heap_virt_start, kernel_heap_size}

-- a header at `start`, with `size` bytes behind it
pub record Region : Type 0 where
  pub start : ℕ
  pub size : ℕ

abbrev pub region : ℕ → ℕ → Region
region a n = record { start = a; size = n }

abbrev pub last : Region → ℕ
last r = r.start + header_size + r.size

-- the header address that serves a request, with the regions left
unfoldable pub carve : ℕ → List Region → Option (ℕ × List Region)
carve n [] = none
carve n (r ∷ rs) =
    let rest : Option (ℕ × List Region) = carve n rs in
    if r.size == n
    then some (r.start, rs)
    else if ltb (n + header_size) r.size
    then some (r.start, region (r.start + header_size + n) (r.size - n - header_size) ∷ rs)
    else Option.map (λ (a, left). (a, r ∷ left)) rest

abbrev pub All {ℓ κ} : {A : Type ℓ} → (A → Type κ) → List A → Type κ
All P [] = Unit
All P (x ∷ xs) = P x × All P xs

-- `r` and `s` share no byte
abbrev pub Off : Region → Region → Type 0
Off r s = (last r ≤ s.start) ⊎ (last s ≤ r.start)

abbrev pub InHeap : Region → Type 0
InHeap r = (kernel_heap_virt_start ≤ r.start) × (last r ≤ kernel_heap_virt_start + kernel_heap_size)

abbrev pub Apart : List Region → Type 0
Apart [] = Unit
Apart (r ∷ rs) = All (Off r) rs × Apart rs

-- the bytes taken, headers included
abbrev pub footprint : List Region → ℕ
footprint [] = 0
footprint (r ∷ rs) = header_size + r.size + footprint rs

-- no region has the size asked for, or room for it and one more header
abbrev pub NoFit : ℕ → Region → Type 0
NoFit n r = (r.size < n) ⊎ ((n < r.size) × (r.size ≤ n + header_size))

-- what a part of a region keeps of what the region has
abbrev pub Within : Region → Region → Type 0
Within s r = (r.start ≤ s.start) × (last s ≤ last r)

All-Off-Within : (r s : Region) (rs : List Region) → Within s r → All (Off r) rs → All (Off s) rs
All-Off-Within r s [] w h = tt
All-Off-Within r s (x ∷ xs) w h = (ground arith, All-Off-Within r s xs w h.1)

pub Off-symm : (r s : Region) → Off r s → Off s r
Off-symm r s h = ground arith

-- The outcome of a request that is served: the region handed out is off all that is left, was free
-- before, and nothing is lost.
pub record Carved (n a : ℕ) (rs left : List Region) : Type 0 where
  pub off : All (Off (region a n)) left
  pub apart : Apart left
  pub inside : All InHeap rs → InHeap (region a n) × All InHeap left
  pub total : footprint left + header_size + n ≡ footprint rs
  pub keeps : (s : Region) → All (Off s) rs → Off s (region a n) × All (Off s) left

-- How a request is served.
data Carve (n : ℕ) : List Region → ℕ → List Region → Type 0 where
  whole : (r : Region) (rs : List Region) → r.size ≡ n → Carve n (r ∷ rs) r.start rs
  cut :
      (r : Region) (rs : List Region)
      → n + header_size < r.size
      → Carve n
          (r ∷ rs)
          r.start
          (region (r.start + header_size + n) (r.size - n - header_size) ∷ rs)
  skip :
      (r : Region) {rs : List Region} {a : ℕ} {left : List Region}
      → Carve n rs a left
      → Carve n (r ∷ rs) a (r ∷ left)

-- What `carve` returns, on both of its outcomes.
abbrev Served : ℕ → List Region → Option (ℕ × List Region) → Type 0
Served n rs none = All (NoFit n) rs
Served n rs (some (a, left)) = Carve n rs a left

Served-skip :
    (n : ℕ) (r : Region) (rs : List Region) (o : Option (ℕ × List Region))
    → NoFit n r
    → Served n rs o
    → Served n (r ∷ rs) (Option.map (λ (a, left). (a, r ∷ left)) o)
Served-skip n r rs none no_fit s = (no_fit, s)
Served-skip n r rs (some (a, left)) no_fit s = skip r s

carve-Served : (n : ℕ) (rs : List Region) → Served n rs (carve n rs)
unfolding carve
carve-Served n [] = tt
carve-Served n (r ∷ rs) = elim (Bool-cases (r.size == n)) [
  | inl same ↦ rw same (whole r rs (ground arith))
  | inr other ↦ elim (Bool-cases (ltb (n + header_size) r.size)) [
    | inl room ↦ rw (other, room) (cut r rs (ground arith))
    | inr full ↦
        rw (other, full) (Served-skip n r rs (carve n rs) (ground arith) (carve-Served n rs))
  ]
]

pub carve-none : (n : ℕ) (rs : List Region) → carve n rs ≡ none → All (NoFit n) rs
carve-none n rs e = rw e at (carve-Served n rs)

All-Off-part :
    (n : ℕ) (r : Region) (rs : List Region)
    → n ≤ r.size
    → All (Off r) rs
    → All (Off (region r.start n)) rs
All-Off-part n r rs h = All-Off-Within r (region r.start n) rs (omega arith)

-- Whatever is off all regions is off the one handed out and off all that is left.
Carve-keeps :
    {n a : ℕ} {rs left : List Region} (s : Region)
    → Carve n rs a left
    → All (Off s) rs
    → Off s (region a n) × All (Off s) left
Carve-keeps s (whole r rs e) h = (ground arith, h.1)
Carve-keeps s (cut r rs lt) h = (ground arith, (ground arith, h.1))
Carve-keeps s (skip r c) h = let (p, q) = Carve-keeps s c h.1 in (p, (h.0, q))

Carve-off :
    {n a : ℕ} {rs left : List Region} → Carve n rs a left → Apart rs → All (Off (region a n)) left
Carve-off (whole r rs e) ap = All-Off-part _ r rs (omega arith) ap.0
Carve-off (cut r rs lt) ap = (omega arith, All-Off-part _ r rs (omega arith) ap.0)
Carve-off {n} {a} (skip r c) ap =
    let (p, q) = Carve-keeps r c ap.0 in (Off-symm r (region a n) p, Carve-off c ap.1)

Carve-Apart : {n a : ℕ} {rs left : List Region} → Carve n rs a left → Apart rs → Apart left
Carve-Apart (whole r rs e) ap = ap.1
Carve-Apart (cut r rs lt) ap = (All-Off-Within r _ rs (omega arith) ap.0, ap.1)
Carve-Apart (skip r c) ap = ((Carve-keeps r c ap.0).1, Carve-Apart c ap.1)

Carve-inside :
    {n a : ℕ} {rs left : List Region}
    → Carve n rs a left
    → All InHeap rs
    → InHeap (region a n) × All InHeap left
Carve-inside (whole r rs e) h = (omega arith, h.1)
Carve-inside (cut r rs lt) h = (omega arith, (omega arith, h.1))
Carve-inside (skip r c) h = let (p, q) = Carve-inside c h.1 in (p, (h.0, q))

Carve-total :
    {n a : ℕ} {rs left : List Region}
    → Carve n rs a left
    → footprint left + header_size + n ≡ footprint rs
Carve-total (whole r rs e) = omega arith
Carve-total (cut r rs lt) = omega arith
Carve-total (skip r c) = omega (arith, Carve-total c)

pub carve-Carved :
    (n : ℕ) (rs : List Region) {a : ℕ} {left : List Region}
    → Apart rs
    → carve n rs ≡ some (a, left)
    → Carved n a rs left
carve-Carved n rs {a} {left} ap e =
    let c : Carve n rs a left = rw e at (carve-Served n rs) in
    record {
      off = Carve-off c ap;
      apart = Carve-Apart c ap;
      inside = Carve-inside c;
      total = Carve-total c;
      keeps = λ s h. Carve-keeps s c h;
    }
