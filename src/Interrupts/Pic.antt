-- ===== src/Interrupts/Pic.antt =====
-- The two interrupt controllers: drivers/pic.c. The ports are the hardware's: what `inb` reads is an
-- argument, and what `outb` writes is recorded in order.
use gubos.Prelude.{ℕ, ◌-◌, ◌^◌, ltb, if◌then◌else◌, List, [], ◌∷◌, ◌++◌, bit_and, bit_or}

abbrev pub pic1_control : ℕ
pic1_control = 0x20

abbrev pub pic1_data : ℕ
pic1_data = 0x21

abbrev pub pic2_control : ℕ
pic2_control = 0xa0

abbrev pub pic2_data : ℕ
pic2_data = 0xa1

abbrev pub pic1_int_offset : ℕ
pic1_int_offset = 0x20

abbrev pub pic2_int_offset : ℕ
pic2_int_offset = 0x28

abbrev pub pic_icw1_ic4 : ℕ
pic_icw1_ic4 = 1

abbrev pub pic_icw1_init : ℕ
pic_icw1_init = 16

abbrev pub pic_icw4_x86 : ℕ
pic_icw4_x86 = 1

abbrev pub pic_ocw2_eoi : ℕ
pic_ocw2_eoi = 32

-- (port, value)
abbrev pub Writes : Type 0
Writes = List (ℕ × ℕ)

abbrev pub outb : ℕ → ℕ → Writes → Writes
outb port value ws = ws ++ (port, value) ∷ []

-- `mask1` and `mask2` are what the data ports read
unfoldable pub pic_init : (mask1 mask2 : ℕ) → Writes → Writes
pic_init mask1 mask2 w₀ =
    let w₁ = outb pic1_control (bit_or pic_icw1_ic4 pic_icw1_init) w₀ in
    let w₂ = outb pic2_control (bit_or pic_icw1_ic4 pic_icw1_init) w₁ in
    let w₃ = outb pic1_data pic1_int_offset w₂ in
    let w₄ = outb pic2_data pic2_int_offset w₃ in
    let w₅ = outb pic1_data 4 w₄ in
    let w₆ = outb pic2_data 2 w₅ in
    let w₇ = outb pic1_data pic_icw4_x86 w₆ in
    let w₈ = outb pic2_data pic_icw4_x86 w₇ in
    let w₉ = outb pic1_data mask1 w₈ in outb pic2_data mask2 w₉

unfoldable pub pic_send_eoi : (irq : ℕ) → Writes → Writes
pic_send_eoi irq ws =
    let slave = outb pic2_control pic_ocw2_eoi ws in
    outb pic1_control pic_ocw2_eoi (if ltb irq 8 then ws else slave)

-- `inb` gives what a port reads
unfoldable pub pic_clear_mask : (inb : ℕ → ℕ) (irq : ℕ) → Writes → Writes
pic_clear_mask inb irq ws =
    let port = if ltb irq 8 then pic1_data else pic2_data in
    let line = if ltb irq 8 then irq else irq - 8 in
    outb port (bit_and (inb port) (2 ^ 32 - 1 - 2 ^ line)) ws
