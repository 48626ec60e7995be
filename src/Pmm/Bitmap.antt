-- ===== src/Pmm/Bitmap.antt =====
-- The bits of the map of kernel/arch/i386/mm/pmm.c, and what its writes do to them.
use gubos.Prelude.{
  ℕ, ◌-◌, ◌*◌, ◌/◌, ◌%◌, ◌<◌, ◌^◌, ◌≡◌, ◌≢◌, refl, sym, ap, ◌∙◌, ◌==◌, ==_iff, ltb, Bool, true,
  false, not, ◌&&◌, ◌||◌, xor, ltb→lt, bit_and, bit_or, u32, shl32, arith,
}
use mathlib.Core.Path.{ap₂}
use native.Mathlib.Decide.{ℕ_discrete}
use gubos.Prelude.Bits.{all_below, all_below_sound}
use gubos.Page.{page_size}
use gubos.Pmm.{Bitmap, store, pmm_mark_addr_used, pmm_mark_addr_free}

abbrev pub bit : (b j : ℕ) → Bool
bit b j = b / 2 ^ j % 2 == 1

-- the page with number `q` is in use
abbrev pub used : Bitmap → ℕ → Bool
used bm q = bit (bm (q / 8)) (q % 8)

-- each entry is a byte
abbrev pub IsBitmap : Bitmap → Type 0
IsBitmap bm = (i : ℕ) → bm i < 256

abbrev iff : Bool → Bool → Bool
iff a b = not (xor a b)

pub iff-eq : (a b : Bool) → iff a b ≡ true → a ≡ b
iff-eq true true h = refl
iff-eq true false h = cc
iff-eq false true h = cc
iff-eq false false h = refl

abbrev or_row : (b k : ℕ) → Bool
or_row b k =
    all_below 8 (λ j. iff (bit (bit_or b (2 ^ k)) j) (bit b j || j == k))
    && ltb (bit_or b (2 ^ k)) 256

or_table : all_below 256 (λ b. all_below 8 (or_row b)) ≡ true
unfolding all_below
or_table = refl

abbrev and_row : (b s : ℕ) → Bool
and_row b s =
    all_below 8 (λ j. iff (bit (bit_and b (2 ^ 32 - 1 - 2 ^ s)) j) (bit b j && not (j == s)))
    && ltb (bit_and b (2 ^ 32 - 1 - 2 ^ s)) 256

and_table : all_below 256 (λ b. all_below 32 (and_row b)) ≡ true
unfolding all_below
and_table = refl

pub both : (a b : Bool) → (a && b) ≡ true → (a ≡ true) × (b ≡ true)
both true true h = (refl, refl)
both true false h = cc
both false b h = cc

pub or_facts :
    (b k : ℕ)
    → b < 256
    → k < 8
    → ((j : ℕ) → j < 8 → bit (bit_or b (2 ^ k)) j ≡ (bit b j || j == k)) × (bit_or b (2 ^ k) < 256)
or_facts b k hb hk =
    let row =
      all_below_sound 8 (or_row b) k
        (all_below_sound 256 (λ b. all_below 8 (or_row b)) b or_table hb) hk in
    let (bits, small) = both _ _ row in
    (λ j hj. iff-eq _ _ (all_below_sound 8 _ j bits hj), ltb→lt _ _ small)

and_facts :
    (b s : ℕ)
    → b < 256
    → s < 32
    → ((j : ℕ) → j < 8 → bit (bit_and b (2 ^ 32 - 1 - 2 ^ s)) j ≡ (bit b j && not (j == s)))
      × (bit_and b (2 ^ 32 - 1 - 2 ^ s) < 256)
and_facts b s hb hs =
    let row =
      all_below_sound 32 (and_row b) s
        (all_below_sound 256 (λ b. all_below 32 (and_row b)) b and_table hb) hs in
    let (bits, small) = both _ _ row in
    (λ j hj. iff-eq _ _ (all_below_sound 8 _ j bits hj), ltb→lt _ _ small)

-- A write of one byte, seen page by page.
module _ (bm : Bitmap) (i w q : ℕ) where
  used-store_self : q / 8 ≡ i → used (store bm i w) q ≡ bit w (q % 8)
  used-store_self e =
      let got : store bm i w (q / 8) ≡ w = ground arith in ap (λ b. bit b (q % 8)) got

  used-store_ne : q / 8 ≢ i → used (store bm i w) q ≡ used bm q
  used-store_ne ne =
      let got : store bm i w (q / 8) ≡ bm (q / 8) = ground arith in ap (λ b. bit b (q % 8)) got

same_byte : (q p : ℕ) → q / 8 ≡ p / 8 → (q % 8 == p % 8) ≡ (q == p)
same_byte q p e = ground arith

other_byte : (q p : ℕ) → q / 8 ≢ p / 8 → (q == p) ≡ false
other_byte q p ne = ground arith

pub or-false : (b : Bool) → (b || false) ≡ b
or-false true = refl
or-false false = refl

and-true : (b : Bool) → (b && true) ≡ b
and-true true = refl
and-true false = refl

-- A write of one byte that changes its bits by `f`, seen page by page.
module _ (bm : Bitmap) (p w : ℕ) (f : Bool → Bool → Bool) (keep : (b : Bool) → f b false ≡ b)
    (bits : (j : ℕ) → j < 8 → bit w j ≡ f (bit (bm (p / 8)) j) (j == p % 8)) where
  pub used-store : (q : ℕ) → used (store bm (p / 8) w) q ≡ f (used bm q) (q == p)
  used-store q = elim (ℕ_discrete (q / 8) (p / 8)) [
    | yes e ↦
        used-store_self bm (p / 8) w q e
        ∙ bits (q % 8) (omega arith)
        ∙ ap₂ f (ap (λ i. bit (bm i) (q % 8)) (sym e)) (same_byte q p e)
    | no ne ↦
        used-store_ne bm (p / 8) w q ne
        ∙ sym (keep (used bm q))
        ∙ ap (f (used bm q)) (sym (other_byte q p ne))
  ]

module _ (bm : Bitmap) (addr : ℕ) (v : IsBitmap bm) where
  abbrev page : ℕ
  page = addr / page_size

  -- Marking an address as used makes its page used, and changes no other page.
  pub used-mark_addr_used :
      (q : ℕ) → used (pmm_mark_addr_used addr bm) q ≡ (used bm q || q == addr / page_size)
  unfolding pmm_mark_addr_used
  used-mark_addr_used q =
      used-store bm page _ ◌||◌ or-false
        (or_facts (bm (page / 8)) (page % 8) (v (page / 8)) (omega arith)).0 q

  pub mark_addr_used-IsBitmap : IsBitmap (pmm_mark_addr_used addr bm)
  unfolding pmm_mark_addr_used
  mark_addr_used-IsBitmap i =
      ground (arith, v i, (or_facts (bm (page / 8)) (page % 8) (v (page / 8)) (omega arith)).1)

  shl_one : shl32 1 page ≡ 2 ^ (page % 32)
  unfolding all_below
  shl_one =
      let e : (u32 (1 * 2 ^ (page % 32)) == 2 ^ (page % 32)) ≡ true =
        all_below_sound 32 (λ s. u32 (1 * 2 ^ s) == 2 ^ s) (page % 32) refl (omega arith) in
      (==_iff _ _).0 e

  -- What the mask of pmm_mark_addr_free does to the bits of the byte.
  mask_bits :
      (j : ℕ)
      → j < 8
      → bit (bit_and (bm (page / 8)) (2 ^ 32 - 1 - shl32 1 page)) j
        ≡ (bit (bm (page / 8)) j && not (j == page % 8 && ltb (page % 32) 8))
  mask_bits j hj = rw shl_one (
      (and_facts (bm (page / 8)) (page % 32) (v (page / 8)) (omega arith)).0 j hj
      ∙ ap (λ b. bit (bm (page / 8)) j && not b) (ground arith))

  -- On a map of bytes, marking an address as free makes its page free if the number of the page is 0 to 7 modulo
  -- 32, and otherwise changes nothing.
  pub used-mark_addr_free :
      (q : ℕ)
      → used (pmm_mark_addr_free addr bm) q
        ≡ (used bm q && not (q == addr / page_size && ltb (addr / page_size % 32) 8))
  unfolding pmm_mark_addr_free
  used-mark_addr_free q =
      used-store bm page _ (λ b c. b && not (c && ltb (page % 32) 8)) and-true mask_bits q
