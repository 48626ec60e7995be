-- ===== src/Pmm/Alloc.antt =====
-- pmm_alloc_page (kernel/arch/i386/mm/pmm.c) takes the first page that is not in use.
use gubos.Prelude.{
  ℕ, zero, suc, ◌+◌, ◌*◌, ◌/◌, ◌%◌, ◌≤◌, ◌<◌, ◌^◌, ◌≡◌, ◌≢◌, refl, sym, ap, ◌∙◌, inl, inr, ◌==◌,
  ltb, ltb→lt, if◌then◌else◌, Bool, true, false, not, ◌&&◌, ◌||◌, Bool-cases, Outcome, done, panic,
  fault, hang, no_physical_page, bit_or, u32, arith,
}
use mathlib.Core.Path.{subst, ap₂}
use native.Mathlib.Decide.{dec_lt}
use gubos.Prelude.Bits.{all_below, all_below_sound}
use gubos.Page.{page_size}
use gubos.Pmm.{
  Bitmap, store, mem_bitmap_size, bitmap_entry_mask, trailing_ones, alloc_loop, pmm_alloc_page,
}
use gubos.Pmm.Bitmap.{bit, used, IsBitmap, both, or_facts, or-false, used-store}

abbrev first_zero : (b : ℕ) → Bool
first_zero b =
    let t = trailing_ones 8 b in
    if b == 255 then true else (ltb t 8 && (not (bit b t) && all_below t (λ j. bit b j)))

first_zero_table : all_below 256 first_zero ≡ true
unfolding all_below trailing_ones
first_zero_table = refl

full_table : all_below 8 (λ j. bit 255 j) ≡ true
unfolding all_below
full_table = refl

trailing_facts :
    (b : ℕ)
    → b < 256
    → b ≢ 255
    → (trailing_ones 8 b < 8)
      × (bit b (trailing_ones 8 b) ≡ false)
      × ((j : ℕ) → j < trailing_ones 8 b → bit b j ≡ true)
trailing_facts b hb ne =
    let row = all_below_sound 256 first_zero b first_zero_table hb in
    let t = trailing_ones 8 b in
    let holds : (ltb t 8 && (not (bit b t) && all_below t (λ j. bit b j))) ≡ true = ground arith in
    let (small, others) = both (ltb t 8) (not (bit b t) && all_below t (λ j. bit b j)) holds in
    let (zero_bit, ones_bits) = both (not (bit b t)) (all_below t (λ j. bit b j)) others in
    (ltb→lt _ _ small, ground arith, λ j hj. all_below_sound t (λ j. bit b j) j ones_bits hj)

-- The outcome of looking at the pages of `rounds` bytes from index `i` on: the first that is free is
-- taken, or all are in use.
abbrev pub FirstFree : (rounds i : ℕ) → Bitmap → Outcome (ℕ × Bitmap) → Type 0
FirstFree rounds i bm (done (addr, bm')) =
    (q : ℕ) × (addr ≡ u32 (q * page_size))
    × (q < (i + rounds) * 8)
    × (used bm q ≡ false)
    × ((r : ℕ) → i * 8 ≤ r → r < q → used bm r ≡ true)
    × ((r : ℕ) → used bm' r ≡ (used bm r || r == q))
    × IsBitmap bm'
FirstFree rounds i bm (panic reason) =
    (reason ≡ no_physical_page) × ((r : ℕ) → i * 8 ≤ r → r < (i + rounds) * 8 → used bm r ≡ true)
FirstFree rounds i bm fault = ⊥
FirstFree rounds i bm hang = ⊥

module _ (bm : Bitmap) (v : IsBitmap bm) where
  used-at : (r i j : ℕ) → r / 8 ≡ i → r % 8 ≡ j → used bm r ≡ bit (bm i) j
  used-at r i j at off = ap₂ (λ a b. bit (bm a) b) at off

  full_byte : (i r : ℕ) → bm i ≡ 255 → r / 8 ≡ i → used bm r ≡ true
  full_byte i r e at =
      let byte : bm (r / 8) ≡ 255 = rw at e in
      ap (λ b. bit b (r % 8)) byte
      ∙ all_below_sound 8 (λ j. bit 255 j) (r % 8) full_table (omega arith)

  -- What is found from the next byte on, behind a full one.
  FirstFree-suc :
      (rounds i : ℕ) (out : Outcome (ℕ × Bitmap))
      → bm i ≡ 255
      → FirstFree rounds (i + 1) bm out
      → FirstFree (suc rounds) i bm out
  FirstFree-suc rounds i (done (addr, bm')) e (q, at, lt, free, before, after, bytes) = (
    q,
    at,
    omega arith,
    free,
    λ r lo hi. elim (dec_lt r ((i + 1) * 8)) [
      | yes here ↦ full_byte i r e (omega arith)
      | no later ↦ before r (omega arith) hi
    ],
    after,
    bytes,
  )
  FirstFree-suc rounds i (panic reason) e (why, all) = (
    why,
    λ r lo hi. elim (dec_lt r ((i + 1) * 8)) [
      | yes here ↦ full_byte i r e (omega arith)
      | no later ↦ all r (omega arith) (omega arith)
    ],
  )
  FirstFree-suc rounds i fault e f = f
  FirstFree-suc rounds i hang e f = f

  take-FirstFree :
      (rounds i : ℕ)
      → bm i ≢ 255
      → let t = trailing_ones 8 (bm i) in
        FirstFree
          (suc rounds)
          i
          bm
          (done (u32 ((i * 8 + t) * page_size), store bm i (bit_or (bm i) (2 ^ t))))
  take-FirstFree rounds i ne =
      let (small, free, ones_bits) = trailing_facts (bm i) (v i) ne in
      let t = trailing_ones 8 (bm i) in
      let q = i * 8 + t in
      let at : q / 8 ≡ i = omega arith in
      let off : q % 8 ≡ t = omega arith in
      let w = bit_or (bm i) (2 ^ t) in
      let (or_bits, byte) = or_facts (bm i) t (v i) small in
      (
        q,
        refl,
        omega arith,
        used-at q i t at off ∙ free,
        λ r lo hi. used-at r i (r % 8) (omega arith) refl ∙ ones_bits (r % 8) (omega arith),
        λ r.
            subst (λ k. used (store bm k w) r ≡ (used bm r || r == q)) at
              (used-store bm q w ◌||◌ or-false
                (λ j hj.
                  subst (λ k. bit w j ≡ (bit (bm k) j || j == q % 8)) (sym at)
                    (subst (λ k. bit w j ≡ (bit (bm i) j || j == k)) (sym off) (or_bits j hj)))
                r),
        λ k. ground (arith, v k, byte),
      )

  alloc_loop-FirstFree : (rounds i : ℕ) → FirstFree rounds i bm (alloc_loop rounds i bm)
  unfolding alloc_loop
  alloc_loop-FirstFree zero i = (refl, λ r lo hi. absurd (omega arith))
  alloc_loop-FirstFree (suc rounds) i = elim (Bool-cases (bm i == bitmap_entry_mask)) [
    | inl full ↦ rw full (
        FirstFree-suc rounds i (alloc_loop rounds (i + 1) bm) (ground arith)
          (alloc_loop-FirstFree rounds (i + 1)))
    | inr free ↦ rw free (take-FirstFree rounds i (ground arith))
  ]

  -- On a map of bytes, pmm_alloc_page takes the first page of the map that is not in use, returns its address cut to 32
  -- bits, and changes no other page; it panics exactly when all pages of the map are in use.
  pub pmm_alloc_page-FirstFree : FirstFree mem_bitmap_size 0 bm (pmm_alloc_page bm)
  unfolding pmm_alloc_page
  pmm_alloc_page-FirstFree = alloc_loop-FirstFree mem_bitmap_size 0
