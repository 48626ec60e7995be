-- ===== src/Meminfo/Sample.antt =====
-- A kernel of one megabyte at the usual addresses, for tests.
use gubos.Meminfo.{KernelMeminfo}

abbrev pub kernel : KernelMeminfo
kernel = record {
  physical_start = 0x10_0000;
  physical_end = 0x20_0000;
  virtual_start = 0xc010_0000;
  virtual_end = 0xc020_0000;
  text_virtual_start = 0xc010_0000;
  text_physical_start = 0x10_0000;
  text_virtual_end = 0xc011_0000;
  rodata_virtual_start = 0xc011_0000;
  rodata_physical_start = 0x11_0000;
  rodata_virtual_end = 0xc012_0000;
  data_virtual_start = 0xc012_0000;
  data_physical_start = 0x12_0000;
  data_virtual_end = 0xc013_0000;
  bss_virtual_start = 0xc013_0000;
  bss_physical_start = 0x13_0000;
  bss_virtual_end = 0xc020_0000;
  higher_half_base = 0xc000_0000;
  stack_top = 0xc020_0000;
}
