-- ===== src/Page.antt =====
-- Pages, page flags and the address arithmetic on them: kernel/arch/i386/include/mm/paging.h and the
-- last functions of kernel/arch/i386/mm/paging.c.
use gubos.Prelude.{ℕ, ◌+◌, ◌-◌, ◌*◌, ◌/◌, ◌==◌, Bool, bit_and, u32}

abbrev pub page_size : ℕ
page_size = 0x1000

abbrev pub page_table_size : ℕ
page_table_size = 1024

abbrev pub page_flag_present : ℕ
page_flag_present = 1

abbrev pub page_flag_write : ℕ
page_flag_write = 2

abbrev pub page_flag_user : ℕ
page_flag_user = 4

-- `size + PAGE_SIZE - 1` wraps
unfoldable pub paging_page_count : ℕ → ℕ
paging_page_count size = u32 (size + (page_size - 1)) / page_size

unfoldable pub paging_is_aligned : ℕ → Bool
paging_is_aligned addr = bit_and addr (page_size - 1) == 0

unfoldable pub paging_align_addr : ℕ → ℕ
paging_align_addr addr = addr / page_size * page_size
