-- ===== src/Pmm.antt =====
-- The physical memory manager: kernel/arch/i386/mm/pmm.c, a bitmap with one bit for each 4 KB page.
pub mod Alloc
pub mod Bitmap
pub mod Init
pub mod Range
mod Tests
use gubos.Prelude.{
  ℕ, zero, suc, ◌+◌, ◌-◌, ◌*◌, ◌/◌, ◌%◌, ◌^◌, ◌==◌, ltb, if◌then◌else◌, true, false, Outcome, done,
  panic, hang, no_physical_page, bit_and, bit_or, u32, shl32,
}
use gubos.Page.{page_size}

-- MEM_BITMAP: the byte at each index
abbrev pub Bitmap : Type 0
Bitmap = ℕ → ℕ

abbrev pub mem_bitmap_size : ℕ
mem_bitmap_size = 0x10_0000

abbrev pub bitmap_entry_mask : ℕ
bitmap_entry_mask = 255

abbrev pub store : Bitmap → ℕ → ℕ → Bitmap
store bm i v j = if j == i then v else bm j

unfoldable pub pmm_mark_addr_used : ℕ → Bitmap → Bitmap
pmm_mark_addr_used addr bm =
    let bitmap_bit = addr / page_size in
    let i = bitmap_bit / 8 in store bm i (bit_or (bm i) (2 ^ (bitmap_bit % 8)))

-- The loop of pmm_mark_range_used: `i += PAGE_SIZE` wraps.
unfoldable pub mark_loop : (fuel i end_addr : ℕ) → Bitmap → Outcome Bitmap
mark_loop zero i end_addr bm = hang
mark_loop (suc fuel) i end_addr bm =
    let rest = mark_loop fuel (u32 (i + page_size)) end_addr (pmm_mark_addr_used i bm) in
    if ltb i end_addr then rest else done bm

-- one round more than there are pages
unfoldable pub mark_rounds : ℕ
mark_rounds = 0x10_0001

unfoldable pub pmm_mark_range_used : (start_addr end_addr : ℕ) → Bitmap → Outcome Bitmap
pmm_mark_range_used start_addr end_addr bm = mark_loop mark_rounds start_addr end_addr bm

-- The shift count is the number of the bit in the whole map; the processor takes it modulo 32.
unfoldable pub pmm_mark_addr_free : ℕ → Bitmap → Bitmap
pmm_mark_addr_free addr bm =
    let bitmap_bit = addr / page_size in
    let i = bitmap_bit / 8 in store bm i (bit_and (bm i) (2 ^ 32 - 1 - shl32 1 bitmap_bit))

unfoldable pub pmm_free_page : ℕ → Bitmap → Bitmap
unfolding pmm_mark_addr_free
pmm_free_page addr bm = pmm_mark_addr_free addr bm

-- `for (entry = ...; entry & 1; entry >>= 1, alloc_bit += 1)`; a byte has at most 8 ones
unfoldable pub trailing_ones : (fuel entry : ℕ) → ℕ
trailing_ones zero entry = 0
trailing_ones (suc fuel) entry =
    let more = suc (trailing_ones fuel (entry / 2)) in if bit_and entry 1 == 0 then 0 else more

-- The loop of pmm_alloc_page, with `rounds` bytes from index `i` on to look at.
unfoldable pub alloc_loop : (rounds i : ℕ) → Bitmap → Outcome (ℕ × Bitmap)
alloc_loop zero i bm = panic no_physical_page
alloc_loop (suc rounds) i bm =
    let alloc_bit = trailing_ones 8 (bm i) in
    let page : ℕ × Bitmap =
      (u32 ((i * 8 + alloc_bit) * page_size), store bm i (bit_or (bm i) (2 ^ alloc_bit))) in
    let rest = alloc_loop rounds (i + 1) bm in if bm i == bitmap_entry_mask then rest else done page

unfoldable pub pmm_alloc_page : Bitmap → Outcome (ℕ × Bitmap)
unfolding alloc_loop
pmm_alloc_page bm = alloc_loop mem_bitmap_size 0 bm
