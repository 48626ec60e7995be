-- ===== src/Gdt/Tests.antt =====
-- The descriptor table at concrete inputs.
use gubos.Prelude.{◌≡◌, arith}
use gubos.Meminfo.Sample.{kernel}
use gubos.Gdt.{
  SegmentDescriptor, GdtDescriptor, TaskStateSegment, Gdt, gdt_init, gdt_kernel_code_segment,
  gdt_kernel_data_segment, gdt_user_code_segment, gdt_user_data_segment, gdt_task_state_segment,
}
use gubos.Gdt.Encoding.{fields, selected, gdt_init_lem}

abbrev null_segment : SegmentDescriptor
null_segment = record {
  limit_low = 0;
  base_low = 0;
  base_middle = 0;
  access_type = 0;
  flags = 0;
  base_high = 0;
}

abbrev no_table : GdtDescriptor
no_table = record { limit = 0; base = 0 }

abbrev no_task : TaskStateSegment
no_task = record { esp0 = 0; ss0 = 0 }

abbrev boot : Gdt
boot = record {
  gdt_entries = λ i. null_segment;
  gdt = no_table;
  tss = no_task;
  code_selector = 0;
  data_selector = 0;
  task_selector = 0;
}

abbrev loaded : Gdt
loaded = gdt_init kernel 0xc012_0000 0xc012_1000 boot

gdt_init_lem_example :
    (fields (selected loaded gdt_kernel_code_segment) ≡ (0, 0xf_ffff, 0x9a, 0xc))
    × (fields (selected loaded gdt_kernel_data_segment) ≡ (0, 0xf_ffff, 0x92, 0xc))
    × (fields (selected loaded gdt_user_code_segment) ≡ (0, 0xf_ffff, 0xfa, 0xc))
    × (fields (selected loaded gdt_user_data_segment) ≡ (0, 0xf_ffff, 0xf2, 0xc))
    × (fields (selected loaded gdt_task_state_segment) ≡ (0xc012_1000, 107, 0x89, 0))
    × (loaded.gdt.limit ≡ 47)
gdt_init_lem_example = gdt_init_lem kernel 0xc012_0000 0xc012_1000 boot (omega arith)
