-- ===== src/Paging/Bootstrap.antt =====
-- The first page directory, with pages of 4 MiB: kernel/arch/i386/paging_bootstrap.c.
pub mod Region
use gubos.Prelude.{
  ℕ, zero, suc, ◌+◌, ◌*◌, ◌/◌, ◌%◌, ◌^◌, ltb, if◌then◌else◌, Outcome, done, hang, ◌>>=◌, bit_or,
  u32,
}
use gubos.Meminfo.{KernelMeminfo}
use gubos.Page.{page_table_size, page_flag_present, page_flag_write}
use gubos.Paging.{page_directory_index, set_entry}

abbrev pub kernel_page_size : ℕ
kernel_page_size = 2 ^ 22

abbrev pub page_flag_page_size : ℕ
page_flag_page_size = 2 ^ 7

-- the first loop
unfoldable pub clear_entries : (rounds : ℕ) → (ℕ → ℕ) → ℕ → ℕ
clear_entries zero entries = entries
clear_entries (suc i) entries = set_entry i 0 (clear_entries i entries)

-- the entry for a physical address
unfoldable pub large_entry : ℕ → ℕ
unfolding page_directory_index
large_entry physical =
    let entry = u32 (page_directory_index physical * 2 ^ 22) in
    bit_or (bit_or (bit_or entry page_flag_present) page_flag_page_size) page_flag_write

-- The second loop, whose counter has 64 bits, from round `i` on.
unfoldable pub bootstrap_loop : (fuel i : ℕ) → KernelMeminfo → (ℕ → ℕ) → Outcome (ℕ → ℕ)
unfolding large_entry
bootstrap_loop zero i m entries = hang
bootstrap_loop (suc fuel) i m entries =
    let virtual_address = u32 (m.virtual_start + i * kernel_page_size) in
    let physical_address = u32 (m.physical_start + i * kernel_page_size) in
    let next =
      set_entry (page_directory_index virtual_address) (large_entry physical_address) entries in
    let rest = bootstrap_loop fuel (i + 1) m next in
    if ltb (m.virtual_start + i * kernel_page_size) m.virtual_end then rest else done entries

-- The directory is at `directory`; a round for each of its entries is enough.
unfoldable pub paging_bootstrap : (directory : ℕ) → KernelMeminfo → (ℕ → ℕ) → Outcome (ℕ × (ℕ → ℕ))
unfolding clear_entries bootstrap_loop
paging_bootstrap directory m entries = do
  entries' ← bootstrap_loop (page_table_size + 1) 0 m (clear_entries page_table_size entries)
  done (directory, entries')
