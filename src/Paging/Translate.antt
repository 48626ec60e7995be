-- ===== src/Paging/Translate.antt =====
-- What the processor finds in the tables, and what a mapping and an unmapping change in it.
use gubos.Prelude.{
  ℕ, ◌+◌, ◌*◌, ◌/◌, ◌%◌, ◌^◌, ◌<◌, ◌≡◌, ◌≢◌, sym, ap, ◌∙◌, ◌==◌, if◌then◌else◌, Option, none, some,
  bit_and, bit_or, arith,
}
use gubos.Prelude.Bits.{bit_or_aligned, bit_and_table}
use gubos.Meminfo.{KernelMeminfo}
use gubos.Vmm.Context.{vmm_virtual_to_physical}
use gubos.Paging.{
  PagingContext, page_directory_index, page_table_index, page_table_addr,
  paging_map_virtual_to_physical, paging_unmap_addr, set_entry, set_table_entry,
}

-- `table` is the address of the table that the directory entry is to hold
unfoldable pub walk : (directory_entry table_entry table offset : ℕ) → Option ℕ
walk d e table offset =
    if d % 2 == 0
    then none
    else if d / 2 ^ 12 * 2 ^ 12 == table
    then if e % 2 == 0 then none else some (e / 2 ^ 12 * 2 ^ 12 + offset)
    else none

walk-present :
    (table page flags offset : ℕ)
    → table % 2 ^ 12 ≡ 0
    → page % 2 ^ 12 ≡ 0
    → flags < 2 ^ 12
    → flags % 2 ≡ 1
    → walk (table + flags) (page + flags) table offset ≡ some (page + offset)
unfolding walk
walk-present table page flags offset ht hp small odd =
    let d : (table + flags) / 2 ^ 12 * 2 ^ 12 ≡ table = omega arith in
    let e : (page + flags) / 2 ^ 12 * 2 ^ 12 ≡ page = omega arith in
    let d_odd : (table + flags) % 2 ≡ 1 = omega arith in
    let e_odd : (page + flags) % 2 ≡ 1 = omega arith in ground arith

walk-absent : (d e table offset : ℕ) → d % 2 ≡ 0 → walk d e table offset ≡ none
unfolding walk
walk-absent d e table offset even = ground arith

set_entry-same : (i v : ℕ) (t : ℕ → ℕ) → set_entry i v t i ≡ v
set_entry-same i v t = ground arith

set_entry-other : (i v : ℕ) (t : ℕ → ℕ) (j : ℕ) → j ≢ i → set_entry i v t j ≡ t j
set_entry-other i v t j off = ground arith

set_table_entry-same : (i k v : ℕ) (t : ℕ → ℕ → ℕ) → set_table_entry i k v t i k ≡ v
set_table_entry-same i k v t = ground arith

set_table_entry-other :
    (i k v : ℕ) (t : ℕ → ℕ → ℕ) (j l : ℕ) → j ≢ i → set_table_entry i k v t j l ≡ t j l
set_table_entry-other i k v t j l off = ground arith

module _ (m : KernelMeminfo) where
  -- The walk that the comments of paging.h describe: a present directory entry with the address of its
  -- table, then a present table entry with the address of the page.
  unfoldable pub translate : PagingContext → ℕ → Option ℕ
  unfolding walk
  translate ctx v =
      let i = v / 2 ^ 22 in
      walk (ctx.page_directory i) (ctx.page_tables i (v / 2 ^ 12 % 2 ^ 10))
        (page_table_addr m i ctx) (v % 2 ^ 12)

  -- A flag word in the low bits of a page's address can be read back.
  pub tagged : (a flags : ℕ) → a % 2 ^ 12 ≡ 0 → flags < 2 ^ 12 → bit_or a flags ≡ a + flags
  tagged a flags aligned small =
      let split : a / 2 ^ 12 * 2 ^ 12 ≡ a = omega arith in
      let joined : bit_or (a / 2 ^ 12 * 2 ^ 12) flags ≡ a / 2 ^ 12 * 2 ^ 12 + flags =
        bit_or_aligned 12 (a / 2 ^ 12) flags small in
      ap (λ x. bit_or x flags) (sym split) ∙ joined ∙ ap (λ x. x + flags) split

  pub table_addr-aligned :
      (i : ℕ) (ctx : PagingContext)
      → ctx.tables_addr % 2 ^ 12 ≡ 0
      → m.higher_half_base % 2 ^ 12 ≡ 0
      → m.higher_half_base < 2 ^ 32
      → page_table_addr m i ctx % 2 ^ 12 ≡ 0
  unfolding page_table_addr vmm_virtual_to_physical
  table_addr-aligned i ctx ht hb small = omega arith

  -- If the tables and the higher half begin at page boundaries, a mapping with the Present flag makes an address
  -- lead to its offset in the physical page, whatever was mapped before.
  pub map-translate :
      (v physical flags : ℕ) (ctx : PagingContext)
      → ctx.tables_addr % 2 ^ 12 ≡ 0
      → m.higher_half_base % 2 ^ 12 ≡ 0
      → m.higher_half_base < 2 ^ 32
      → flags < 2 ^ 12
      → flags % 2 ≡ 1
      → translate (paging_map_virtual_to_physical m v physical flags ctx) v
        ≡ some (physical / 2 ^ 12 * 2 ^ 12 + v % 2 ^ 12)
  unfolding translate paging_map_virtual_to_physical page_directory_index page_table_index
  map-translate v physical flags ctx ht hb small fits present =
      let i = v / 2 ^ 22 in
      let k = v / 2 ^ 12 % 2 ^ 10 in
      let table = page_table_addr m i ctx in
      let page = physical / 2 ^ 12 * 2 ^ 12 in
      let index : bit_and (v / 2 ^ 12) 1023 ≡ k = bit_and_table (v / 2 ^ 12) in
      let ta = table_addr-aligned i ctx ht hb small in
      let pa : page % 2 ^ 12 ≡ 0 = omega arith in
      let d =
        set_entry-same i (bit_or table flags) ctx.page_directory ∙ tagged table flags ta fits in
      let e =
        ap (λ l. set_table_entry i l (bit_or page flags) ctx.page_tables i k) index
        ∙ set_table_entry-same i k (bit_or page flags) ctx.page_tables
        ∙ tagged page flags pa fits in
      ap
        (λ x.
          walk x
            (set_table_entry i (bit_and (v / 2 ^ 12) 1023) (bit_or page flags) ctx.page_tables i k)
            table (v % 2 ^ 12))
        d
      ∙ ap (λ x. walk (table + flags) x table (v % 2 ^ 12)) e
      ∙ walk-present table page flags (v % 2 ^ 12) ta pa fits present

  -- A mapping changes nothing for the addresses of other 4 MB regions.
  pub map-elsewhere :
      (v w physical flags : ℕ) (ctx : PagingContext)
      → v / 2 ^ 22 ≢ w / 2 ^ 22
      → translate (paging_map_virtual_to_physical m v physical flags ctx) w ≡ translate ctx w
  unfolding translate paging_map_virtual_to_physical page_directory_index page_table_index
      page_table_addr
  map-elsewhere v w physical flags ctx apart =
      let i = v / 2 ^ 22 in
      let j = w / 2 ^ 22 in
      let table = page_table_addr m j ctx in
      let off : j ≢ i = λ e. apart (sym e) in
      let d = bit_or (page_table_addr m i ctx) flags in
      let e = bit_or (physical / 2 ^ 12 * 2 ^ 12) flags in
      let k = bit_and (v / 2 ^ 12) 1023 in
      let l = w / 2 ^ 12 % 2 ^ 10 in
      ap (λ x. walk x (set_table_entry i k e ctx.page_tables j l) table (w % 2 ^ 12))
        (set_entry-other i d ctx.page_directory j off)
      ∙ ap (λ x. walk (ctx.page_directory j) x table (w % 2 ^ 12))
          (set_table_entry-other i k e ctx.page_tables j l off)

  -- After the unmapping of one address no address of its 4 MB region leads anywhere: the directory entry of the
  -- region has lost its Present flag.
  pub unmap-region :
      (v w : ℕ) (ctx : PagingContext)
      → ctx.tables_addr % 2 ^ 12 ≡ 0
      → m.higher_half_base % 2 ^ 12 ≡ 0
      → m.higher_half_base < 2 ^ 32
      → v / 2 ^ 22 ≡ w / 2 ^ 22
      → translate (paging_unmap_addr m v ctx) w ≡ none
  unfolding translate paging_unmap_addr page_directory_index page_table_index
  unmap-region v w ctx ht hb small same =
      let ta = table_addr-aligned (v / 2 ^ 22) ctx ht hb small in
      let i = v / 2 ^ 22 in
      let at : w / 2 ^ 22 ≡ i = sym same in
      let k = bit_and (v / 2 ^ 12) 1023 in
      let gone =
        ap (set_entry i (page_table_addr m i ctx) ctx.page_directory) at
        ∙ set_entry-same i (page_table_addr m i ctx) ctx.page_directory in
      let even : page_table_addr m i ctx % 2 ≡ 0 = omega (arith, ta) in
      walk-absent (set_entry i (page_table_addr m i ctx) ctx.page_directory (w / 2 ^ 22))
        (set_table_entry i k 0 ctx.page_tables (w / 2 ^ 22) (w / 2 ^ 12 % 2 ^ 10))
        (page_table_addr m (w / 2 ^ 22) ctx) (w % 2 ^ 12) (ap (λ x. x % 2) gone ∙ even)
