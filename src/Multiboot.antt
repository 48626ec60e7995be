-- ===== src/Multiboot.antt =====
-- The tags that the boot loader leaves in memory: kernel/arch/i386/multiboot2.c and
-- kernel/include/multiboot2.h. The routines that only print them are left out.
pub mod Walk
mod Tests
use gubos.Prelude.{
  ℕ, zero, suc, ◌+◌, ◌-◌, ◌*◌, ◌^◌, ◌==◌, if◌then◌else◌, Outcome, done, hang, bit_and, u32,
}

-- The 32-bit word that memory holds at an address.
abbrev pub Memory : Type 0
Memory = ℕ → ℕ

abbrev pub read64 : Memory → ℕ → ℕ
read64 mem a = mem a + mem (u32 (a + 4)) * 2 ^ 32

abbrev pub tag_type_end : ℕ
tag_type_end = 0

abbrev pub tag_type_module : ℕ
tag_type_module = 3

abbrev pub tag_type_mmap : ℕ
tag_type_mmap = 6

abbrev pub tag_type_framebuffer : ℕ
tag_type_framebuffer = 8

-- struct multiboot_tag: the type, and behind it the size
abbrev pub type_of : Memory → ℕ → ℕ
type_of mem tag = mem tag

abbrev pub size_of : Memory → ℕ → ℕ
size_of mem tag = mem (u32 (tag + 4))

-- `tag + ((tag->size + 7) & ~7)`
unfoldable pub advance_tag : Memory → ℕ → ℕ
advance_tag mem tag = u32 (tag + bit_and (u32 (size_of mem tag + 7)) (2 ^ 32 - 8))

-- Tags begin at multiples of 8: a walk of more rounds than there are such addresses has no end.
unfoldable pub tag_rounds : ℕ
tag_rounds = 2 ^ 29 + 1

-- The loop of multiboot_framebuffer_info; 0 is NULL. The common part begins where the tag does.
unfoldable pub framebuffer_loop : (fuel tag : ℕ) → Memory → Outcome ℕ
framebuffer_loop zero tag mem = hang
framebuffer_loop (suc fuel) tag mem =
    let rest = framebuffer_loop fuel (advance_tag mem tag) mem in
    if type_of mem tag == tag_type_end
    then done 0
    else if type_of mem tag == tag_type_framebuffer
    then done tag
    else rest

unfoldable pub multiboot_framebuffer_info : (multiboot_info : ℕ) → Memory → Outcome ℕ
multiboot_framebuffer_info multiboot_info mem =
    framebuffer_loop tag_rounds (u32 (multiboot_info + 8)) mem

-- (the module or NULL, the tag behind it)
unfoldable pub get_next_module_loop : (fuel tag : ℕ) → Memory → Outcome (ℕ × ℕ)
get_next_module_loop zero tag mem = hang
get_next_module_loop (suc fuel) tag mem =
    let found : ℕ × ℕ = (tag, advance_tag mem tag) in
    let nothing : ℕ × ℕ = (0, tag) in
    let rest = get_next_module_loop fuel (advance_tag mem tag) mem in
    if type_of mem tag == tag_type_end
    then done nothing
    else if type_of mem tag == tag_type_module
    then done found
    else rest

unfoldable pub multiboot_get_next_module : (tag : ℕ) → Memory → Outcome (ℕ × ℕ)
multiboot_get_next_module tag mem = get_next_module_loop tag_rounds tag mem
