-- ===== src/Tty/Sample.antt =====
-- A screen of three rows and four columns, for tests.
use gubos.Prelude.{◌<◌, ◌≡◌, refl, ◌==◌, if◌then◌else◌, [], ◌∷◌, done, arith}
use gubos.Multiboot.{Memory, advance_tag, tag_rounds}
use gubos.Multiboot.Walk.{Tags, framebuffer_info-first}
use gubos.Tty.{Tty, tty_init}
use gubos.Tty.Roll.{Shows}
use gubos.Tty.Start.{blank_roll, default_paint, tty_init-Shows}

-- a framebuffer of three rows and four columns at 1032, and the end at 1064
abbrev pub mem : Memory
mem a =
    if a == 1032
    then 8
    else if a == 1036
    then 32
    else if a == 1040
    then 0xb8000
    else if a == 1052
    then 4
    else if a == 1056
    then 3
    else 0

pub mem-Tags : Tags mem 1032 (1032 ∷ [])
unfolding advance_tag
mem-Tags = (refl, omega arith, refl)

pub few : 1 < tag_rounds
unfolding tag_rounds
few = omega arith

abbrev pub off : Tty
off = record {
  row = 0;
  column = 0;
  default_color = 0;
  address = 0;
  cells = λ k. k;
  height = 0;
  width = 0;
}

pub screen :
    (t : Tty) × (tty_init 0xc000_0000 1024 mem off ≡ done t)
    × Shows 3 4 default_paint off.cells t (blank_roll default_paint)
screen =
    tty_init-Shows 0xc000_0000 1024 1032 mem off
      (framebuffer_info-first 1024 mem (1032 ∷ []) mem-Tags few) (omega arith) (omega arith)
      (omega arith) (omega arith)
