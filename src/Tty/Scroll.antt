-- ===== src/Tty/Scroll.antt =====
-- What the loops of kernel/arch/i386/tty.c do to the cells of a screen.
use gubos.Prelude.{
  ℕ, zero, suc, ◌+◌, ◌-◌, ◌*◌, ◌^◌, ◌≤◌, ◌<◌, ◌≡◌, ap, ◌∙◌, ltb, leb, if◌then◌else◌, ◌&&◌, u32,
  sub32, arith,
}
use gubos.Tty.{Tty, copy_cells, copy_rows, clear_cells, clear_rows, set_cell, scroll, vga_entry}

-- the first `n` cells of row `y` have what stands a row below
abbrev pub raised : (width y n : ℕ) → (ℕ → ℕ) → ℕ → ℕ
raised width y n cells k =
    if leb (y * width) k && ltb k (y * width + n) then cells (k + width) else cells k

raise_step :
    (at width x : ℕ) (cells before : ℕ → ℕ) (k : ℕ)
    → before k ≡ (if leb at k && ltb k (at + x) then cells (k + width) else cells k)
    → before (at + x + width) ≡ (
        if leb at (at + x + width) && ltb (at + x + width) (at + x)
        then cells (at + x + width + width)
        else cells (at + x + width))
    → set_cell (at + x) (before (at + x + width)) before k
      ≡ (if leb at k && ltb k (at + suc x) then cells (k + width) else cells k)
raise_step at width x cells before k here below = ground arith

copy_cells_lem :
    (width y n : ℕ) (cells : ℕ → ℕ) (k : ℕ)
    → n ≤ width
    → y * width + width + width ≤ 2 ^ 32
    → copy_cells width y n cells k ≡ raised width y n cells k
unfolding copy_cells
copy_cells_lem width y zero cells k short small = ground arith
copy_cells_lem width y (suc x) cells k short small =
    let old : u32 (y * width + x) ≡ y * width + x = omega arith in
    let new : u32 ((y + 1) * width + x) ≡ y * width + x + width = omega arith in
    let here = copy_cells_lem width y x cells k (omega arith) small in
    let below = copy_cells_lem width y x cells (y * width + x + width) (omega arith) small in
    rw (old, new) (raise_step (y * width) width x cells (copy_cells width y x cells) k here below)

-- `n` whole rows have what stands a row below
abbrev pub raised_rows : (width n : ℕ) → (ℕ → ℕ) → ℕ → ℕ
raised_rows width n cells k = if ltb k (n * width) then cells (k + width) else cells k

raise_row :
    (at width : ℕ) (cells before : ℕ → ℕ) (k after total : ℕ)
    → after ≡ (if leb at k && ltb k (at + width) then before (k + width) else before k)
    → before k ≡ (if ltb k at then cells (k + width) else cells k)
    → before (k + width)
      ≡ (if ltb (k + width) at then cells (k + width + width) else cells (k + width))
    → total ≡ at + width
    → after ≡ (if ltb k total then cells (k + width) else cells k)
raise_row at width cells before k after total row here under end = ground arith

copy_rows_lem :
    (width n : ℕ) (cells : ℕ → ℕ) (k : ℕ)
    → n * width + width ≤ 2 ^ 32
    → copy_rows width n cells k ≡ raised_rows width n cells k
unfolding copy_rows
copy_rows_lem width zero cells k small = ground arith
copy_rows_lem width (suc y) cells k small =
    let row =
      copy_cells_lem width y width (copy_rows width y cells) k (omega arith) (omega arith) in
    let at = copy_rows_lem width y cells k (omega arith) in
    let under = copy_rows_lem width y cells (k + width) (omega arith) in
    raise_row (y * width) width cells (copy_rows width y cells) k _ (suc y * width) row at under
      (omega arith)

-- the first `n` cells of row `y` are `blank`
abbrev pub cleared : (blank width y n : ℕ) → (ℕ → ℕ) → ℕ → ℕ
cleared blank width y n cells k =
    if leb (y * width) k && ltb k (y * width + n) then blank else cells k

pub clear_cells_lem :
    (blank width y n : ℕ) (cells : ℕ → ℕ) (k : ℕ)
    → n ≤ width
    → y * width + width ≤ 2 ^ 32
    → clear_cells blank width y n cells k ≡ cleared blank width y n cells k
unfolding clear_cells
clear_cells_lem blank width y zero cells k short small = ground arith
clear_cells_lem blank width y (suc x) cells k short small =
    let at : u32 (y * width + x) ≡ y * width + x = omega arith in
    let here = clear_cells_lem blank width y x cells k (omega arith) small in rw at (ground arith)

pub clear_rows_lem :
    (blank width n : ℕ) (cells : ℕ → ℕ) (k : ℕ)
    → n * width ≤ 2 ^ 32
    → clear_rows blank width n cells k ≡ (if ltb k (n * width) then blank else cells k)
unfolding clear_rows
clear_rows_lem blank width zero cells k small = ground arith
clear_rows_lem blank width (suc y) cells k small =
    let row =
      clear_cells_lem blank width y width (clear_rows blank width y cells) k (omega arith)
        (omega arith) in
    let at = clear_rows_lem blank width y cells k (omega arith) in ground arith

-- A scroll moves each row of the screen up, clears the last one, and keeps what is not of the screen.
pub scroll_lem :
    (t : Tty) (k : ℕ)
    → 0 < t.height
    → t.height < 2 ^ 32
    → t.height * t.width < 2 ^ 32
    → scroll t k ≡ (
        if ltb k ((t.height - 1) * t.width)
        then t.cells (k + t.width)
        else if ltb k (t.height * t.width)
        then vga_entry 32 t.default_color
        else t.cells k)
unfolding scroll
scroll_lem t k tall short small =
    let up = t.height - 1 in
    let last : sub32 t.height 1 ≡ up = omega arith in
    let area : t.height * t.width ≡ up * t.width + t.width =
      let e : t.height ≡ suc up = omega arith in ap (λ h. h * t.width) e ∙ omega arith in
    let rows = copy_rows_lem t.width up t.cells k (omega (arith, area)) in
    let row =
      clear_cells_lem (vga_entry 32 t.default_color) t.width up t.width
        (copy_rows t.width up t.cells) k (omega arith) (omega (arith, area)) in
    rw last (ground arith)
