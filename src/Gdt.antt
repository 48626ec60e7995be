-- ===== src/Gdt.antt =====
-- The global descriptor table: kernel/arch/i386/gdt.c and kernel/arch/i386/include/gdt.h.
pub mod Encoding
mod Tests
use gubos.Prelude.{ℕ, ◌+◌, ◌-◌, ◌*◌, ◌/◌, ◌%◌, ◌^◌, ◌==◌, if◌then◌else◌, bit_and, bit_or}
use gubos.Meminfo.{KernelMeminfo}

-- struct segment_descriptor
pub record SegmentDescriptor : Type 0 where
  pub limit_low : ℕ
  pub base_low : ℕ
  pub base_middle : ℕ
  pub access_type : ℕ
  pub flags : ℕ
  pub base_high : ℕ

-- struct gdt_descriptor
pub record GdtDescriptor : Type 0 where
  pub limit : ℕ
  pub base : ℕ

-- The fields of struct task_state_segment that tss_init sets after it has cleared the whole segment.
pub record TaskStateSegment : Type 0 where
  pub esp0 : ℕ
  pub ss0 : ℕ

-- gdt_entries, gdt and tss, and the selectors that load_gdt and load_tss were called with
pub record Gdt : Type 0 where
  pub gdt_entries : ℕ → SegmentDescriptor
  pub gdt : GdtDescriptor
  pub tss : TaskStateSegment
  pub code_selector : ℕ
  pub data_selector : ℕ
  pub task_selector : ℕ

abbrev pub gdt_entry_count : ℕ
gdt_entry_count = 6

abbrev pub gdt_kernel_code_segment : ℕ
gdt_kernel_code_segment = 0x8

abbrev pub gdt_kernel_data_segment : ℕ
gdt_kernel_data_segment = 0x10

abbrev pub gdt_user_code_segment : ℕ
gdt_user_code_segment = 0x18

abbrev pub gdt_user_data_segment : ℕ
gdt_user_data_segment = 0x20

abbrev pub gdt_task_state_segment : ℕ
gdt_task_state_segment = 0x28

abbrev pub gdt_granularity_flag : ℕ
gdt_granularity_flag = 8

abbrev pub gdt_db_flag : ℕ
gdt_db_flag = 4

abbrev pub gdt_segment_present_flag : ℕ
gdt_segment_present_flag = 128

abbrev pub gdt_code_or_data_descriptor_flag : ℕ
gdt_code_or_data_descriptor_flag = 16

abbrev pub gdt_dpl3_flag : ℕ
gdt_dpl3_flag = 96

abbrev pub gdt_code_execute_read_seg_type : ℕ
gdt_code_execute_read_seg_type = 10

abbrev pub gdt_code_execute_only_accessed : ℕ
gdt_code_execute_only_accessed = 9

abbrev pub gdt_data_read_write_seg_type : ℕ
gdt_data_read_write_seg_type = 2

-- sizeof(task_state_segment_t) and sizeof(segment_descriptor_t), both packed
abbrev pub tss_size : ℕ
tss_size = 108

abbrev pub segment_descriptor_size : ℕ
segment_descriptor_size = 8

-- The fields are 8 or 16 bits wide, and an assignment cuts what it stores.
unfoldable pub segment_descriptor : (base limit access flags : ℕ) → SegmentDescriptor
segment_descriptor base limit access flags =
    let upper = bit_and (limit / 2 ^ 16) 15 % 256 in
    record {
      base_low = bit_and base 65535 % 2 ^ 16;
      base_middle = bit_and (base / 2 ^ 16) 255 % 256;
      base_high = base / 2 ^ 24 % 256;
      access_type = access;
      limit_low = bit_and limit 65535 % 2 ^ 16;
      flags = bit_or upper (flags * 2 ^ 4) % 256;
    }

unfoldable pub set_segment_descriptor :
    (i base limit access flags : ℕ) → (ℕ → SegmentDescriptor) → ℕ → SegmentDescriptor
unfolding segment_descriptor
set_segment_descriptor i base limit access flags entries j =
    if j == i then segment_descriptor base limit access flags else entries j

unfoldable pub tss_init : KernelMeminfo → TaskStateSegment
tss_init m = record { esp0 = m.stack_top; ss0 = gdt_kernel_data_segment }

-- `entries_addr` and `tss_addr` are the addresses of gdt_entries and tss
unfoldable pub gdt_init : KernelMeminfo → (entries_addr tss_addr : ℕ) → Gdt → Gdt
unfolding set_segment_descriptor tss_init
gdt_init m entries_addr tss_addr g =
    let code =
      bit_or (bit_or gdt_segment_present_flag gdt_code_or_data_descriptor_flag)
        gdt_code_execute_read_seg_type in
    let data' =
      bit_or (bit_or gdt_segment_present_flag gdt_code_or_data_descriptor_flag)
        gdt_data_read_write_seg_type in
    let task = bit_or gdt_segment_present_flag gdt_code_execute_only_accessed in
    let wide = bit_or gdt_granularity_flag gdt_db_flag in
    let e₀ = set_segment_descriptor 0 0 0 0 0 g.gdt_entries in
    let e₁ = set_segment_descriptor 1 0 0xffff_ffff code wide e₀ in
    let e₂ = set_segment_descriptor 2 0 0xffff_ffff data' wide e₁ in
    let e₃ = set_segment_descriptor 3 0 0xffff_ffff (bit_or code gdt_dpl3_flag) wide e₂ in
    let e₄ = set_segment_descriptor 4 0 0xffff_ffff (bit_or data' gdt_dpl3_flag) wide e₃ in
    let e₅ = set_segment_descriptor 5 tss_addr (tss_size - 1) task 0 e₄ in
    record {
      gdt_entries = e₅;
      gdt = record { base = entries_addr; limit = segment_descriptor_size * gdt_entry_count - 1 };
      tss = tss_init m;
      code_selector = gdt_kernel_code_segment;
      data_selector = gdt_kernel_data_segment;
      task_selector = gdt_task_state_segment;
    }
