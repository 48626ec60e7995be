-- ===== src/Meminfo.antt =====
-- Where the boot code has put the kernel: kernel/arch/i386/include/mm/meminfo.h.
pub mod Sample
use gubos.Prelude.{ℕ}

-- struct kernel_meminfo; each field is a uint32_t
pub record KernelMeminfo : Type 0 where
  pub physical_start : ℕ
  pub physical_end : ℕ
  pub virtual_start : ℕ
  pub virtual_end : ℕ
  pub text_virtual_start : ℕ
  pub text_physical_start : ℕ
  pub text_virtual_end : ℕ
  pub rodata_virtual_start : ℕ
  pub rodata_physical_start : ℕ
  pub rodata_virtual_end : ℕ
  pub data_virtual_start : ℕ
  pub data_physical_start : ℕ
  pub data_virtual_end : ℕ
  pub bss_virtual_start : ℕ
  pub bss_physical_start : ℕ
  pub bss_virtual_end : ℕ
  pub higher_half_base : ℕ
  pub stack_top : ℕ
