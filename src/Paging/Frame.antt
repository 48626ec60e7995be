-- ===== src/Paging/Frame.antt =====
-- What a mapping leaves of the other mappings.
use gubos.Prelude.{
  ℕ, ◌+◌, ◌*◌, ◌/◌, ◌%◌, ◌^◌, ◌<◌, ◌≡◌, ◌≢◌, refl, ap, ◌∙◌, ◌==◌, some, Bool-cases, inl, inr,
  bit_and, bit_or, arith,
}
use gubos.Prelude.Bits.{bit_and_table}
use gubos.Meminfo.{KernelMeminfo}
use gubos.Paging.{
  PagingContext, page_directory_index, page_table_index, page_table_addr,
  paging_map_virtual_to_physical, set_entry, set_table_entry,
}
use gubos.Paging.Translate.{
  translate, walk, map-elsewhere, map-translate, table_addr-aligned, tagged,
}

-- A walk that arrives does so from any other present entry for the same table.
walk-again :
    (d e table flags offset a : ℕ)
    → walk d e table offset ≡ some a
    → table % 2 ^ 12 ≡ 0
    → flags < 2 ^ 12
    → flags % 2 ≡ 1
    → walk (table + flags) e table offset ≡ some a
unfolding walk
walk-again d e table flags offset a found aligned small odd =
    let t : (table + flags) / 2 ^ 12 * 2 ^ 12 ≡ table = omega arith in
    let t_odd : (table + flags) % 2 ≡ 1 = omega arith in ground arith

map-near :
    (m : KernelMeminfo) (v w physical flags a : ℕ) (ctx : PagingContext)
    → ctx.tables_addr % 2 ^ 12 ≡ 0
    → m.higher_half_base % 2 ^ 12 ≡ 0
    → m.higher_half_base < 2 ^ 32
    → flags < 2 ^ 12
    → flags % 2 ≡ 1
    → v / 2 ^ 12 ≢ w / 2 ^ 12
    → v / 2 ^ 22 ≡ w / 2 ^ 22
    → translate m ctx w ≡ some a
    → translate m (paging_map_virtual_to_physical m v physical flags ctx) w ≡ some a
unfolding translate paging_map_virtual_to_physical page_directory_index page_table_index
map-near m v w physical flags a ctx ht hb small fits present apart same found =
    let i = v / 2 ^ 22 in
    let j = w / 2 ^ 22 in
    let k = bit_and (v / 2 ^ 12) 1023 in
    let l = w / 2 ^ 12 % 2 ^ 10 in
    let page = bit_or (physical / 2 ^ 12 * 2 ^ 12) flags in
    let table = page_table_addr m j ctx in
    let ta = table_addr-aligned m j ctx ht hb small in
    let here : set_entry i (bit_or (page_table_addr m i ctx) flags) ctx.page_directory j
        ≡ bit_or (page_table_addr m i ctx) flags =
      ground arith in
    let d : set_entry i (bit_or (page_table_addr m i ctx) flags) ctx.page_directory j
        ≡ table + flags =
      here ∙ ap (λ n. bit_or (page_table_addr m n ctx) flags) same ∙ tagged m table flags ta fits in
    let other : l ≢ k = let at = bit_and_table (v / 2 ^ 12) in omega arith in
    let e : set_table_entry i k page ctx.page_tables j l ≡ ctx.page_tables j l = ground arith in
    ap (λ x. walk x (set_table_entry i k page ctx.page_tables j l) table (w % 2 ^ 12)) d
    ∙ ap (λ x. walk (table + flags) x table (w % 2 ^ 12)) e
    ∙ walk-again (ctx.page_directory j) (ctx.page_tables j l) table flags (w % 2 ^ 12) a found ta
        fits present

-- If the tables and the higher half begin at page boundaries, a mapping with the Present flag leaves every
-- mapped address of another page where it led.
pub map-keeps :
    (m : KernelMeminfo) (v w physical flags a : ℕ) (ctx : PagingContext)
    → ctx.tables_addr % 2 ^ 12 ≡ 0
    → m.higher_half_base % 2 ^ 12 ≡ 0
    → m.higher_half_base < 2 ^ 32
    → flags < 2 ^ 12
    → flags % 2 ≡ 1
    → v / 2 ^ 12 ≢ w / 2 ^ 12
    → translate m ctx w ≡ some a
    → translate m (paging_map_virtual_to_physical m v physical flags ctx) w ≡ some a
map-keeps m v w physical flags a ctx ht hb small fits present apart found =
    elim (Bool-cases (v / 2 ^ 22 == w / 2 ^ 22)) [
      | inr far ↦ map-elsewhere m v w physical flags ctx (ground arith) ∙ found
      | inl near ↦
          map-near m v w physical flags a ctx ht hb small fits present apart (ground arith) found
    ]

-- A mapping is one of a whole page.
same-page :
    (m : KernelMeminfo) (v w physical flags : ℕ) (ctx : PagingContext)
    → v / 2 ^ 12 ≡ w / 2 ^ 12
    → paging_map_virtual_to_physical m v physical flags ctx
      ≡ paging_map_virtual_to_physical m w physical flags ctx
unfolding paging_map_virtual_to_physical page_directory_index page_table_index
same-page m v w physical flags ctx e =
    let region : v / 2 ^ 22 ≡ w / 2 ^ 22 = omega arith in rw (region, e) refl

pub map-page :
    (m : KernelMeminfo) (v w physical flags : ℕ) (ctx : PagingContext)
    → ctx.tables_addr % 2 ^ 12 ≡ 0
    → m.higher_half_base % 2 ^ 12 ≡ 0
    → m.higher_half_base < 2 ^ 32
    → flags < 2 ^ 12
    → flags % 2 ≡ 1
    → v / 2 ^ 12 ≡ w / 2 ^ 12
    → translate m (paging_map_virtual_to_physical m v physical flags ctx) w
      ≡ some (physical / 2 ^ 12 * 2 ^ 12 + w % 2 ^ 12)
map-page m v w physical flags ctx ht hb small fits present e =
    ap (λ c. translate m c w) (same-page m v w physical flags ctx e)
    ∙ map-translate m w physical flags ctx ht hb small fits present
