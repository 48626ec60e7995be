-- ===== src/Tty/Start.antt =====
-- The screen that tty_init (kernel/arch/i386/tty.c) leaves.
use gubos.Prelude.{ℕ, ◌+◌, ◌*◌, ◌^◌, ◌<◌, ◌≡◌, ◌≢◌, refl, ◌==◌, false, u32, done, arith}
use gubos.Multiboot.{Memory, multiboot_framebuffer_info}
use gubos.Tty.{Tty, initial, tty_init, vga_entry, vga_entry_color}
use gubos.Tty.Scroll.{clear_rows_lem}
use gubos.Tty.Roll.{Roll, Shows, in_area}

-- a roll with nothing on it
abbrev pub blank_roll : (color : ℕ) → Roll
blank_roll color = record { line = 0; column = 0; paper = λ l x. vga_entry 32 color }

-- light grey on light blue
abbrev pub default_paint : ℕ
default_paint = 0x97

-- If the tags have a framebuffer whose sides are not 0 and that has less than 2 ^ 32 cells, tty_init
-- returns, and the screen, which has the tag's width and height, shows the beginning of a blank roll.
pub tty_init-Shows :
    (higher_half_base multiboot_info info : ℕ) (mem : Memory) (t : Tty)
    → multiboot_framebuffer_info multiboot_info mem ≡ done info
    → info ≢ 0
    → 0 < mem (u32 (info + 24))
    → 0 < mem (u32 (info + 20))
    → mem (u32 (info + 24)) * mem (u32 (info + 20)) < 2 ^ 32
    → (t' : Tty) × (tty_init higher_half_base multiboot_info mem t ≡ done t')
      × Shows
          (mem (u32 (info + 24)))
          (mem (u32 (info + 20)))
          default_paint
          t.cells
          t'
          (blank_roll default_paint)
unfolding tty_init initial vga_entry_color
tty_init-Shows higher_half_base multiboot_info info mem t found there tall wide small =
    let height = mem (u32 (info + 24)) in
    let width = mem (u32 (info + 20)) in
    let present : (info == 0) ≡ false = ground arith in
    let blank = vga_entry 32 default_paint in
    (
      initial higher_half_base info mem t,
      (rw (found, present) refl),
      record {
        top = 0;
        tall = refl;
        wide = refl;
        paint = refl;
        row = tall;
        column = wide;
        same_row = refl;
        same_column = refl;
        cells = λ y x hy hx.
            let inside = in_area height width y x hy hx in
            let row = clear_rows_lem blank width height t.cells (y * width + x) (omega arith) in
            ground arith;
        fresh = λ l x below. refl;
        outside = λ k far.
            let row = clear_rows_lem blank width height t.cells k (omega arith) in ground arith;
      },
    )
