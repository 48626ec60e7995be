-- ===== src/Pmm/Range.antt =====
-- pmm_mark_range_used (kernel/arch/i386/mm/pmm.c).
use gubos.Prelude.{
  ℕ, zero, suc, ◌+◌, ◌*◌, ◌%◌, ◌≤◌, ◌<◌, ◌^◌, ◌≡◌, refl, inl, inr, Bool-cases, ltb, leb, ltb→lt,
  ◌&&◌, ◌||◌, true, Outcome, done, hang, u32, arith,
}
use gubos.Page.{page_size}
use gubos.Pmm.{Bitmap, pmm_mark_addr_used, mark_loop, mark_rounds, pmm_mark_range_used}
use gubos.Pmm.Bitmap.{used, IsBitmap, used-mark_addr_used, mark_addr_used-IsBitmap}

-- The call returns, and exactly the pages that begin in the range are used besides.
abbrev pub Marked : (i end_addr : ℕ) → Bitmap → Outcome Bitmap → Type 0
Marked i end_addr bm out =
    (bm' : Bitmap) × (out ≡ done bm')
    × IsBitmap bm'
    × ((q : ℕ)
        → used bm' q ≡ (used bm q || (leb i (q * page_size) && ltb (q * page_size) end_addr)))

module _ (end_addr : ℕ) where
  mark_loop-Marked :
      (fuel i : ℕ) (bm : Bitmap)
      → end_addr + page_size ≤ 2 ^ 32
      → i % page_size ≡ 0
      → 0 < fuel
      → end_addr + page_size ≤ i + fuel * page_size
      → IsBitmap bm
      → Marked i end_addr bm (mark_loop fuel i end_addr bm)
  unfolding mark_loop
  mark_loop-Marked zero i bm top al pos enough v = absurd (omega arith)
  mark_loop-Marked (suc fuel) i bm top al pos enough v = elim (Bool-cases (ltb i end_addr)) [
    | inl more ↦
        let next : u32 (i + page_size) ≡ i + page_size = omega (arith, ltb→lt i end_addr more) in
        let (bm', e, v', marked) =
          mark_loop-Marked fuel (i + page_size) (pmm_mark_addr_used i bm) top (omega arith)
            (omega (arith, ltb→lt i end_addr more)) (omega arith)
            (mark_addr_used-IsBitmap bm i v) in
        rw (more, next) (bm', e, v', λ q. ground (arith, marked q, used-mark_addr_used bm i v q))
    | inr stop ↦ rw stop (bm, refl, v, λ q. ground arith)
  ]

  -- When the range ends in the last page of the address space, the counter wraps below the end and the loop
  -- never stops, whatever the number of rounds.
  mark_loop_hangs :
      (fuel i : ℕ) (bm : Bitmap)
      → 2 ^ 32 < end_addr + page_size
      → i % page_size ≡ 0
      → i < 2 ^ 32
      → mark_loop fuel i end_addr bm ≡ hang
  unfolding mark_loop
  mark_loop_hangs zero i bm top al lt = refl
  mark_loop_hangs (suc fuel) i bm top al lt =
      let more : ltb i end_addr ≡ true = ground arith in
      rw more (
        mark_loop_hangs fuel (u32 (i + page_size)) (pmm_mark_addr_used i bm) top (omega arith)
          (omega arith))

-- For a page-aligned start and an end at most one page below 4 GiB, the call returns and exactly the pages
-- that begin in the range become used.
pub pmm_mark_range_used_lem :
    (start_addr end_addr : ℕ) (bm : Bitmap)
    → start_addr % page_size ≡ 0
    → end_addr + page_size ≤ 2 ^ 32
    → IsBitmap bm
    → Marked start_addr end_addr bm (pmm_mark_range_used start_addr end_addr bm)
unfolding pmm_mark_range_used mark_rounds
pmm_mark_range_used_lem start_addr end_addr bm al top v =
    mark_loop-Marked end_addr mark_rounds start_addr bm top al (omega arith) (omega arith) v

-- A page-aligned range that ends inside the last page of the address space is never marked: the loop does
-- not end.
pub pmm_mark_range_used_hangs :
    (start_addr end_addr : ℕ) (bm : Bitmap)
    → start_addr % page_size ≡ 0
    → start_addr < 2 ^ 32
    → 2 ^ 32 < end_addr + page_size
    → pmm_mark_range_used start_addr end_addr bm ≡ hang
unfolding pmm_mark_range_used
pmm_mark_range_used_hangs start_addr end_addr bm al lt top =
    mark_loop_hangs end_addr mark_rounds start_addr bm top al lt
