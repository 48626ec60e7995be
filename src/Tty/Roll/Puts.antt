-- ===== src/Tty/Roll/Puts.antt =====
-- tty_puts (kernel/arch/i386/tty.c) keeps the screen a window on the roll.
use gubos.Prelude.{
  ℕ, zero, suc, ◌+◌, ◌-◌, ◌*◌, ◌^◌, ◌≤◌, ◌<◌, ◌≡◌, refl, ap, ◌∙◌, inl, inr, ◌==◌, ltb, Bool-cases,
  true, false, u32, sub32, arith,
}
use native.Mathlib.Nat.{mul-le-mul_right}
use gubos.Text.{Buffer}
use gubos.Tty.{
  Tty, set_cell, scroll, tty_adjust_row, tty_adjust_indices, tty_putchar, put_byte, tty_puts,
  vga_entry,
}
use gubos.Tty.Scroll.{scroll_lem}
use gubos.Tty.Roll.{Roll, write_paper, roll_byte, roll_puts, same_place, Shows, in_area, write_cell}

module _ (height width color : ℕ) (before : ℕ → ℕ) (short : height < 2 ^ 32) (thin : width < 2 ^ 32)
    (small : height * width < 2 ^ 32) where
  write-Shows :
      (v : ℕ) (t : Tty) (r : Roll)
      → Shows height width color before t r
      → Shows height width color before
          (record t { cells = set_cell (u32 (t.row * t.width + t.column)) v t.cells })
          (record r { paper = write_paper r.line r.column v r.paper })
  write-Shows v t r s =
      let at : u32 (t.row * t.width + t.column) ≡ t.row * width + t.column =
        let size = in_area height width t.row t.column s.row s.column in
        ap (λ w. u32 (t.row * w + t.column)) s.wide ∙ omega arith in
      rw at (record {
        top = s.top;
        tall = s.tall;
        wide = s.wide;
        paint = s.paint;
        row = s.row;
        column = s.column;
        same_row = s.same_row;
        same_column = s.same_column;
        cells = λ y x hy hx.
            let place = same_place width y x t.row t.column hx s.column in
            write_cell (y * width + x) (t.row * width + t.column) v y x t.row t.column (s.top + y)
              r.line r.column t.cells r.paper place
              (λ e f. ap (λ n. n * width + x) e ∙ ap (λ n. t.row * width + n) f)
              (λ e. omega (arith, s.same_row), λ e. omega (arith, s.same_row)) s.same_column
              (s.cells y x hy hx);
        fresh = λ l x below. let old = s.fresh l x below in ground arith;
        outside = λ k far.
            let size = in_area height width t.row t.column s.row s.column in
            let old = s.outside k far in ground arith;
      })

  -- What the scroll leaves at a place of the screen.
  scroll-row :
      (t : Tty) (r : Roll) (s : Shows height width color before t r) (y x : ℕ)
      → t.row + 1 ≡ height
      → y < height
      → x < width
      → scroll t (y * width + x) ≡ r.paper (s.top + 1 + y) x
  scroll-row t r s y x bottom hy hx =
      let whole : t.height * t.width ≡ height * width =
        ap (λ h. h * t.width) s.tall ∙ ap (λ w. height * w) s.wide in
      let most : (t.height - 1) * t.width ≡ (height - 1) * width =
        ap (λ h. (h - 1) * t.width) s.tall ∙ ap (λ w. (height - 1) * w) s.wide in
      let moved =
        scroll_lem t (y * width + x) (omega (arith, s.tall)) (omega (arith, s.tall))
          (omega (arith, whole)) in
      let inside = in_area height width y x hy hx in
      elim (Bool-cases (ltb y (height - 1))) [
        | inl upper ↦
            let high : y < height - 1 = ground arith in
            let at = in_area (height - 1) width y x high hx in
            let index : y * width + x + t.width ≡ suc y * width + x = omega (arith, s.wide) in
            let old = ap t.cells index ∙ s.cells (suc y) x (omega (arith, high)) hx in
            let place : s.top + suc y ≡ s.top + 1 + y = omega arith in
            let there = ap (λ l. r.paper l x) place in ground arith
        | inr lower ↦
            let low : y ≡ height - 1 = ground arith in
            let off : (height - 1) * width ≤ y * width + x =
              omega (arith, ap (λ n. n * width) low) in
            let blank = s.fresh (s.top + 1 + y) x (omega (arith, s.same_row, low)) in
            let paint = ap (vga_entry 32) s.paint in ground arith
      ]

  scroll-outside :
      (t : Tty) (r : Roll) (s : Shows height width color before t r) (k : ℕ)
      → height * width ≤ k
      → scroll t k ≡ t.cells k
  scroll-outside t r s k far =
      let whole : t.height * t.width ≡ height * width =
        ap (λ h. h * t.width) s.tall ∙ ap (λ w. height * w) s.wide in
      let part : (t.height - 1) * t.width ≤ t.height * t.width =
        let less : t.height - 1 ≤ t.height = omega arith in mul-le-mul_right t.width less in
      let moved =
        scroll_lem t k (omega (arith, s.tall, s.row)) (omega (arith, s.tall))
          (omega (arith, whole)) in
      ground arith

  down-Shows :
      (t : Tty) (r : Roll)
      → Shows height width color before t r
      → Shows height width color before (tty_adjust_row t) (record r { line = r.line + 1 })
  unfolding tty_adjust_row
  down-Shows t r s =
      let next : u32 (t.row + 1) ≡ t.row + 1 = omega (arith, s.row) in
      elim (Bool-cases (u32 (t.row + 1) == t.height)) [
        | inl last ↦
            let bottom : t.row + 1 ≡ height = ground arith in
            let up : sub32 t.height 1 ≡ t.row = omega (arith, s.tall) in
            rw last (record {
              top = s.top + 1;
              tall = s.tall;
              wide = s.wide;
              paint = s.paint;
              row = omega (arith, up, s.row);
              column = s.column;
              same_row = omega (arith, up, s.same_row);
              same_column = s.same_column;
              cells = λ y x hy hx. scroll-row t r s y x bottom hy hx;
              fresh = λ l x below. s.fresh l x (omega arith);
              outside = λ k far. scroll-outside t r s k far ∙ s.outside k far;
            })
        | inr more ↦ rw more (record {
          top = s.top;
          tall = s.tall;
          wide = s.wide;
          paint = s.paint;
          row = ground arith;
          column = s.column;
          same_row = omega (arith, next, s.same_row);
          same_column = s.same_column;
          cells = s.cells;
          fresh = λ l x below. s.fresh l x (omega arith);
          outside = s.outside;
        })
      ]

  left-Shows :
      (t : Tty) (r : Roll)
      → Shows height width color before t r
      → Shows height width color before (record t { column = 0 }) (record r { column = 0 })
  left-Shows t r s = record {
    top = s.top;
    tall = s.tall;
    wide = s.wide;
    paint = s.paint;
    row = s.row;
    column = omega (arith, s.column);
    same_row = s.same_row;
    same_column = refl;
    cells = s.cells;
    fresh = s.fresh;
    outside = s.outside;
  }

  right-Shows :
      (t : Tty) (r : Roll)
      → Shows height width color before t r
      → t.column + 1 < width
      → Shows height width color before
          (record t { column = u32 (t.column + 1) })
          (record r { column = r.column + 1 })
  right-Shows t r s more = record {
    top = s.top;
    tall = s.tall;
    wide = s.wide;
    paint = s.paint;
    row = s.row;
    column = omega arith;
    same_row = s.same_row;
    same_column = omega (arith, s.same_column);
    cells = s.cells;
    fresh = s.fresh;
    outside = s.outside;
  }

  put_byte-Shows :
      (c paint : ℕ) (t : Tty) (r : Roll)
      → Shows height width color before t r
      → Shows height width color before (put_byte c paint t) (roll_byte width c paint r)
  unfolding put_byte tty_putchar tty_adjust_indices roll_byte
  put_byte-Shows c paint t r s =
      let v = vga_entry c paint in
      let t₁ = record t { cells = set_cell (u32 (t.row * t.width + t.column)) v t.cells } in
      let r₁ = record r { paper = write_paper r.line r.column v r.paper } in
      let written = write-Shows v t r s in
      elim (Bool-cases (c == 10)) [
        | inl newline ↦
            rw newline (left-Shows _ (record r { line = r.line + 1 }) (down-Shows t r s))
        | inr char ↦ elim (Bool-cases (u32 (t.column + 1) == t.width)) [
          | inl full ↦
              let end : (r.column + 1 == width) ≡ true =
                ground (arith, s.column, s.wide, s.same_column) in
              rw (char, full, end)
                (down-Shows _ (record r₁ { column = 0 }) (left-Shows t₁ r₁ written))
          | inr room ↦
              let more : (r.column + 1 == width) ≡ false =
                ground (arith, s.column, s.wide, s.same_column) in
              let next : t.column + 1 < width = ground (arith, s.column, s.wide) in
              rw (char, room, more) (right-Shows t₁ r₁ written next)
        ]
      ]

  -- If the screen, with fewer than 2 ^ 32 cells, shows a window of an endless roll of paper (each row
  -- a line of the roll, the cursors at the same place, the paper below the cursor blank), then it
  -- still does after tty_puts of any bytes on the screen and on the roll, where a line that is full or
  -- ends is only followed by the next one; no cell behind the screen is written.
  pub tty_puts-Shows :
      (str : Buffer) (size paint : ℕ) (t : Tty) (r : Roll)
      → Shows height width color before t r
      → Shows height width color before
          (tty_puts str size paint t)
          (roll_puts width str size paint r)
  unfolding tty_puts roll_puts
  tty_puts-Shows str zero paint t r s = s
  tty_puts-Shows str (suc i) paint t r s =
      put_byte-Shows (str i) paint _ _ (tty_puts-Shows str i paint t r s)
