-- ===== src/Multiboot/Tests.antt =====
-- Walks over the tags of a concrete memory.
use gubos.Prelude.{◌<◌, ◌≡◌, refl, ◌==◌, if◌then◌else◌, [], ◌∷◌, done, arith}
use gubos.Multiboot.{Memory, advance_tag, tag_rounds, multiboot_framebuffer_info}
use gubos.Multiboot.Walk.{Tags, framebuffer_info-first}

-- a module at 1008 of 20 bytes, a framebuffer at 1032 of 32 bytes, and the end at 1064
abbrev mem : Memory
mem a =
    if a == 1008
    then 3
    else if a == 1012
    then 20
    else if a == 1032
    then 8
    else if a == 1036
    then 32
    else 0

mem-Tags : Tags mem 1008 (1008 ∷ 1032 ∷ [])
unfolding advance_tag
mem-Tags = (refl, omega arith, (refl, omega arith, refl))

few : 2 < tag_rounds
unfolding tag_rounds
few = omega arith

framebuffer_info-first_example : multiboot_framebuffer_info 1000 mem ≡ done 1032
framebuffer_info-first_example = framebuffer_info-first 1000 mem (1008 ∷ 1032 ∷ []) mem-Tags few
