-- ===== src/Tty/Roll.antt =====
-- The terminal of kernel/arch/i386/tty.c as a window on an endless roll of paper.
pub mod Puts
use gubos.Prelude.{
  ℕ, zero, suc, ◌+◌, ◌-◌, ◌*◌, ◌^◌, ◌≤◌, ◌<◌, ◌≡◌, refl, ap, ◌∙◌, ◌↔◌, inl, inr, ◌==◌, ltb,
  if◌then◌else◌, ◌&&◌, Bool-cases, true, false, u32, sub32, arith,
}
use native.Mathlib.Nat.{mul-le-mul_right}
use gubos.Text.{Buffer}
use gubos.Tty.{
  Tty, set_cell, scroll, tty_adjust_row, tty_adjust_indices, tty_putchar, put_byte, tty_puts,
  vga_entry,
}
use gubos.Tty.Scroll.{scroll_lem}

-- The paper never ends: a new line is only a step down.
pub record Roll : Type 0 where
  pub line : ℕ
  pub column : ℕ
  pub paper : ℕ → ℕ → ℕ

abbrev pub write_paper : (l x v : ℕ) → (ℕ → ℕ → ℕ) → ℕ → ℕ → ℕ
write_paper l x v paper l' x' = if l' == l && x' == x then v else paper l' x'

unfoldable pub roll_byte : (width c color : ℕ) → Roll → Roll
roll_byte width c color r =
    let written = write_paper r.line r.column (vga_entry c color) r.paper in
    if c == 10
    then record r { line = r.line + 1; column = 0 }
    else if r.column + 1 == width
    then record { line = r.line + 1; column = 0; paper = written }
    else record r { column = r.column + 1; paper = written }

unfoldable pub roll_puts : (width : ℕ) (str : Buffer) (size color : ℕ) → Roll → Roll
roll_puts width str zero color r = r
roll_puts width str (suc i) color r = roll_byte width (str i) color (roll_puts width str i color r)

-- a cell belongs to one place
pub same_place : (w y x y' x' : ℕ) → x < w → x' < w → y * w + x ≡ y' * w + x' → (y ≡ y') × (x ≡ x')
same_place w y x y' x' hx hx' e = elim (Bool-cases (ltb y y')) [
  | inl l ↦
      let below : suc y ≤ y' = ground arith in absurd (omega (arith, mul-le-mul_right w below))
  | inr l ↦ elim (Bool-cases (ltb y' y)) [
    | inl g ↦
        let above : suc y' ≤ y = ground arith in absurd (omega (arith, mul-le-mul_right w above))
    | inr g ↦ let rows : y ≡ y' = ground arith in (rows, omega (arith, ap (λ (n : ℕ). n * w) rows))
  ]
]

-- The screen, `height` rows by `width` columns, has the rows of the roll from `top` on; the cursors are at
-- the same place, the paper below the cursor is blank, and the cells behind the screen are as `before`.
pub record Shows (height width color : ℕ) (before : ℕ → ℕ) (t : Tty) (r : Roll) : Type 0 where
  pub top : ℕ
  pub tall : t.height ≡ height
  pub wide : t.width ≡ width
  pub paint : t.default_color ≡ color
  pub row : t.row < height
  pub column : t.column < width
  pub same_row : top + t.row ≡ r.line
  pub same_column : t.column ≡ r.column
  pub cells : (y x : ℕ) → y < height → x < width → t.cells (y * width + x) ≡ r.paper (top + y) x
  pub fresh : (l x : ℕ) → r.line < l → r.paper l x ≡ vga_entry 32 color
  pub outside : (k : ℕ) → height * width ≤ k → t.cells k ≡ before k

pub in_area : (h w y x : ℕ) → y < h → x < w → y * w + x < h * w
in_area h w y x hy hx = let le : suc y ≤ h = hy in omega (arith, mul-le-mul_right w le)

pub write_cell :
    (k at v y x row column l line col : ℕ) (cells : ℕ → ℕ) (paper : ℕ → ℕ → ℕ)
    → (k ≡ at → (y ≡ row) × (x ≡ column))
    → (y ≡ row → x ≡ column → k ≡ at)
    → (y ≡ row) ↔ (l ≡ line)
    → column ≡ col
    → cells k ≡ paper l x
    → set_cell at v cells k ≡ write_paper line col v paper l x
write_cell k at v y x row column l line col cells paper out in' rows columns old =
    elim (Bool-cases (k == at)) [
      | inl hit ↦
          let (same_y, same_x) = out (ground arith) in let there = rows.0 same_y in ground arith
      | inr miss ↦ elim (Bool-cases (l == line && x == col)) [
        | inl hit ↦
            let back = rows.1 (ground arith) in let same = in' back (ground arith) in ground arith
        | inr other ↦ ground arith
      ]
    ]
