-- ===== src/Tty.antt =====
-- The terminal: kernel/arch/i386/tty.c, and the entries of the screen: kernel/vga.c.
pub mod Scroll
pub mod Roll
pub mod Start
pub mod Sample
mod Tests
use gubos.Prelude.{
  ℕ, zero, suc, ◌+◌, ◌*◌, ◌%◌, ◌^◌, ◌==◌, if◌then◌else◌, Outcome, done, fault, ◌>>=◌, bit_or, u32,
  sub32,
}
use gubos.Multiboot.{Memory, read64, multiboot_framebuffer_info}
use gubos.Text.{Buffer}

abbrev pub vga_color_black : ℕ
vga_color_black = 0

abbrev pub vga_color_red : ℕ
vga_color_red = 4

abbrev pub vga_color_brown : ℕ
vga_color_brown = 6

abbrev pub vga_color_light_grey : ℕ
vga_color_light_grey = 7

abbrev pub vga_color_light_blue : ℕ
vga_color_light_blue = 9

unfoldable pub vga_entry_color : (fg bg : ℕ) → ℕ
vga_entry_color fg bg = bit_or fg (bg * 2 ^ 4) % 2 ^ 8

unfoldable pub vga_entry : (c color : ℕ) → ℕ
vga_entry c color = bit_or (c % 2 ^ 8) (color * 2 ^ 8) % 2 ^ 16

-- The static variables of tty.c. `cells` are the entries of vga_memory by their index; `address` is where
-- it begins.
pub record Tty : Type 0 where
  pub row : ℕ
  pub column : ℕ
  pub default_color : ℕ
  pub address : ℕ
  pub cells : ℕ → ℕ
  pub height : ℕ
  pub width : ℕ

abbrev pub set_cell : ℕ → ℕ → (ℕ → ℕ) → ℕ → ℕ
set_cell i v cells k = if k == i then v else cells k

-- The loops run over the last round last. The inner loop of the scroll: the first `rounds` cells of row `y`.
unfoldable pub copy_cells : (width y rounds : ℕ) → (ℕ → ℕ) → ℕ → ℕ
copy_cells width y zero cells = cells
copy_cells width y (suc x) cells =
    let before = copy_cells width y x cells in
    let index_old = u32 (y * width + x) in
    let index_new = u32 ((y + 1) * width + x) in set_cell index_old (before index_new) before

unfoldable pub copy_rows : (width rounds : ℕ) → (ℕ → ℕ) → ℕ → ℕ
copy_rows width zero cells = cells
copy_rows width (suc y) cells = copy_cells width y width (copy_rows width y cells)

-- the first `rounds` cells of row `y` become spaces
unfoldable pub clear_cells : (blank width y rounds : ℕ) → (ℕ → ℕ) → ℕ → ℕ
clear_cells blank width y zero cells = cells
clear_cells blank width y (suc x) cells =
    set_cell (u32 (y * width + x)) blank (clear_cells blank width y x cells)

unfoldable pub clear_rows : (blank width rounds : ℕ) → (ℕ → ℕ) → ℕ → ℕ
clear_rows blank width zero cells = cells
clear_rows blank width (suc y) cells =
    clear_cells blank width y width (clear_rows blank width y cells)

-- the body of the `if` of tty_adjust_row
unfoldable pub scroll : Tty → ℕ → ℕ
unfolding copy_rows clear_cells
scroll t =
    let last = sub32 t.height 1 in
    clear_cells (vga_entry 32 t.default_color) t.width last t.width (copy_rows t.width last t.cells)

unfoldable pub tty_adjust_row : Tty → Tty
unfolding scroll
tty_adjust_row t =
    let next = u32 (t.row + 1) in
    if next == t.height
    then record t { row = sub32 t.height 1; cells = scroll t }
    else record t { row = next }

unfoldable pub tty_adjust_indices : Tty → Tty
unfolding tty_adjust_row
tty_adjust_indices t =
    let next = u32 (t.column + 1) in
    if next == t.width then tty_adjust_row (record t { column = 0 }) else record t { column = next }

unfoldable pub tty_putchar : (c color : ℕ) → Tty → Tty
unfolding tty_adjust_indices
tty_putchar c color t =
    let index = u32 (t.row * t.width + t.column) in
    tty_adjust_indices (record t { cells = set_cell index (vga_entry c color) t.cells })

-- the body of the loop of tty_puts; 10 is '\n'
unfoldable pub put_byte : (c color : ℕ) → Tty → Tty
unfolding tty_adjust_row tty_putchar
put_byte c color t =
    if c == 10 then record (tty_adjust_row t) { column = 0 } else tty_putchar c color t

unfoldable pub tty_puts : (str : Buffer) (size color : ℕ) → Tty → Tty
unfolding put_byte
tty_puts str zero color t = t
tty_puts str (suc i) color t = put_byte (str i) color (tty_puts str i color t)

-- what the framebuffer's tag at `info` makes of the variables
unfoldable pub initial : (higher_half_base info : ℕ) → Memory → Tty → Tty
unfolding vga_entry_color vga_entry clear_rows
initial higher_half_base info mem t =
    let height = mem (u32 (info + 24)) in
    let width = mem (u32 (info + 20)) in
    let color = vga_entry_color vga_color_light_grey vga_color_light_blue in
    record {
      row = 0;
      column = 0;
      default_color = color;
      address = u32 (u32 (read64 mem (u32 (info + 8))) + higher_half_base);
      cells = clear_rows (vga_entry 32 color) width height t.cells;
      height = height;
      width = width;
    }

-- A missing framebuffer is a read through NULL.
unfoldable pub tty_init : (higher_half_base multiboot_info : ℕ) → Memory → Tty → Outcome Tty
unfolding multiboot_framebuffer_info initial
tty_init higher_half_base multiboot_info mem t = do
  info ← multiboot_framebuffer_info multiboot_info mem
  if info == 0 then fault else done (initial higher_half_base info mem t)
