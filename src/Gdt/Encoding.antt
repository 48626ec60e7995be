-- ===== src/Gdt/Encoding.antt =====
-- What the processor reads back from a segment descriptor, by the layout in the comments of
-- kernel/arch/i386/include/gdt.h.
use gubos.Prelude.{ℕ, ◌+◌, ◌*◌, ◌/◌, ◌%◌, ◌^◌, ◌<◌, ◌≡◌, refl, bit_and, bit_or, arith}
use gubos.Prelude.Bits.{bit_or_low, bit_and_byte, bit_and_half, bit_and_nibble}
use gubos.Meminfo.{KernelMeminfo}
use gubos.Gdt.{
  SegmentDescriptor, Gdt, segment_descriptor, set_segment_descriptor, gdt_init,
  gdt_kernel_code_segment, gdt_kernel_data_segment, gdt_user_code_segment, gdt_user_data_segment,
  gdt_task_state_segment,
}

abbrev pub base_of : SegmentDescriptor → ℕ
base_of d = d.base_low + d.base_middle * 2 ^ 16 + d.base_high * 2 ^ 24

abbrev pub limit_of : SegmentDescriptor → ℕ
limit_of d = d.limit_low + d.flags % 16 * 2 ^ 16

-- From the descriptor that set_segment_descriptor stores, for a 32-bit base and limit and 4 flag bits, one reads back the base address, the low 20 bits
-- of the limit, the access byte and the 4 flag bits.
pub segment_descriptor_lem :
    (base limit access flags : ℕ)
    → base < 2 ^ 32
    → limit < 2 ^ 32
    → flags < 16
    → (base_of (segment_descriptor base limit access flags) ≡ base)
      × (limit_of (segment_descriptor base limit access flags) ≡ limit % 2 ^ 20)
      × ((segment_descriptor base limit access flags).access_type ≡ access)
      × ((segment_descriptor base limit access flags).flags / 16 ≡ flags)
unfolding segment_descriptor
segment_descriptor_lem base limit access flags hb hl hf =
    let nib = bit_and_nibble (limit / 2 ^ 16) in
    let small : bit_and (limit / 2 ^ 16) 15 % 256 ≡ limit / 2 ^ 16 % 16 = omega (arith, nib) in
    let joined : bit_or (limit / 2 ^ 16 % 16) (flags * 2 ^ 4)
        ≡ limit / 2 ^ 16 % 16 + flags * 2 ^ 4 =
      bit_or_low 4 (limit / 2 ^ 16 % 16) flags (omega arith) in
    let packed : bit_or (bit_and (limit / 2 ^ 16) 15 % 256) (flags * 2 ^ 4) % 256
        ≡ limit / 2 ^ 16 % 16 + flags * 2 ^ 4 =
      rw small (omega (arith, joined)) in
    (
      omega (arith, bit_and_half base, bit_and_byte (base / 2 ^ 16)),
      omega (arith, bit_and_half limit, packed),
      refl,
      omega (arith, packed),
    )

-- what a selector, an offset into the table, stands for
abbrev pub selected : Gdt → ℕ → SegmentDescriptor
selected g s = g.gdt_entries (s / 8)

-- (base, limit, access byte, flags) of a descriptor
abbrev pub fields : SegmentDescriptor → ℕ × ℕ × ℕ × ℕ
fields d = (base_of d, limit_of d, d.access_type, d.flags / 16)

-- After gdt_init, with a 32-bit address of the task segment, each selector of gdt.h names the segment that its name says: the kernel's and the user's
-- code and data segments are present, flat (base 0, a limit of 2 ^ 20 - 1 pages) and 32 bits wide, with the
-- privilege level in the access byte, the task segment starts at `tss_addr` and ends with the structure, and the
-- table's limit is its last byte.
pub gdt_init_lem :
    (m : KernelMeminfo) (entries_addr tss_addr : ℕ) (g : Gdt)
    → tss_addr < 2 ^ 32
    → (fields (selected (gdt_init m entries_addr tss_addr g) gdt_kernel_code_segment)
        ≡ (0, 0xf_ffff, 0x9a, 0xc))
      × (fields (selected (gdt_init m entries_addr tss_addr g) gdt_kernel_data_segment)
          ≡ (0, 0xf_ffff, 0x92, 0xc))
      × (fields (selected (gdt_init m entries_addr tss_addr g) gdt_user_code_segment)
          ≡ (0, 0xf_ffff, 0xfa, 0xc))
      × (fields (selected (gdt_init m entries_addr tss_addr g) gdt_user_data_segment)
          ≡ (0, 0xf_ffff, 0xf2, 0xc))
      × (fields (selected (gdt_init m entries_addr tss_addr g) gdt_task_state_segment)
          ≡ (tss_addr, 107, 0x89, 0))
      × ((gdt_init m entries_addr tss_addr g).gdt.limit ≡ 47)
unfolding gdt_init set_segment_descriptor segment_descriptor
gdt_init_lem m entries_addr tss_addr g h =
    let at : base_of (segment_descriptor tss_addr 107 0x89 0) ≡ tss_addr =
      (segment_descriptor_lem tss_addr 107 0x89 0 h (omega arith) (omega arith)).0 in
    (refl, refl, refl, refl, cc, refl)
