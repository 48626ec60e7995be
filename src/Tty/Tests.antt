-- ===== src/Tty/Tests.antt =====
-- The terminal at concrete inputs.
use gubos.Prelude.{◌+◌, ◌≡◌, ◌==◌, if◌then◌else◌, [], ◌∷◌, done, arith}
use gubos.Multiboot.Walk.{framebuffer_info-first}
use gubos.Text.{Buffer}
use gubos.Tty.{Tty, tty_init, tty_puts}
use gubos.Tty.Roll.{Shows, roll_puts}
use gubos.Tty.Roll.Puts.{tty_puts-Shows}
use gubos.Tty.Start.{blank_roll, default_paint, tty_init-Shows}
use gubos.Tty.Sample.{mem, mem-Tags, few, off, screen}

tty_init-Shows_example :
    (t : Tty) × (tty_init 0xc000_0000 1024 mem off ≡ done t)
    × Shows 3 4 default_paint off.cells t (blank_roll default_paint)
tty_init-Shows_example =
    tty_init-Shows 0xc000_0000 1024 1032 mem off
      (framebuffer_info-first 1024 mem (1032 ∷ []) mem-Tags few) (omega arith) (omega arith)
      (omega arith) (omega arith)

-- "ab\ncdef..." over more lines than the screen has
abbrev text : Buffer
text k = if k == 2 then 10 else if k == 9 then 10 else k + 97

tty_puts-Shows_example :
    Shows 3 4 default_paint off.cells
      (tty_puts text 20 0x49 screen.0)
      (roll_puts 4 text 20 0x49 (blank_roll default_paint))
tty_puts-Shows_example =
    tty_puts-Shows 3 4 default_paint off.cells (omega arith) (omega arith) (omega arith) text 20
      0x49 screen.0 (blank_roll default_paint) screen.2
