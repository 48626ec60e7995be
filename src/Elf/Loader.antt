-- ===== src/Elf/Loader.antt =====
-- The ELF loader: kernel/elf/loader.c. Memory is what the kernel reads and writes through its virtual
-- addresses; the TLB is left out.
use gubos.Prelude.{
  ℕ, zero, suc, ◌+◌, ◌-◌, ◌*◌, ◌==◌, ltb, if◌then◌else◌, Outcome, done, panic, ◌>>=◌,
  unsupported_program_header, bit_and, bit_or, u32,
}
use gubos.Kmalloc.{Heap}
use gubos.Meminfo.{KernelMeminfo}
use gubos.Page.{
  page_size, page_flag_present, page_flag_write, page_flag_user, paging_page_count,
  paging_align_addr,
}
use gubos.Paging.{PagingContext, paging_unmap_addr}
use gubos.Pmm.{Bitmap, pmm_alloc_page}
use gubos.Vmm.Context.{VmmContext, vmm_map_pages, vmm_unmap_pages}
use gubos.Elf.{File, Elf32Hdr, Elf32ProgHdr, read_prog_header}

-- the contexts of the kernel and of the new task, the heap, the bitmap of pages and memory
pub record LoadState : Type 0 where
  pub kern_paging : PagingContext
  pub kern_vmm : VmmContext
  pub vmm : VmmContext
  pub heap : Heap
  pub bitmap : Bitmap
  pub memory : File

abbrev pub elf_prog_hdr_type_null : ℕ
elf_prog_hdr_type_null = 0

abbrev pub elf_prog_hdr_type_load : ℕ
elf_prog_hdr_type_load = 1

abbrev pub elf_prog_hdr_flag_w : ℕ
elf_prog_hdr_flag_w = 2

unfoldable pub elf_flags_to_paging_flags : ℕ → ℕ
elf_flags_to_paging_flags flags =
    if bit_and flags elf_prog_hdr_flag_w == 0 then 0 else bit_or 0 page_flag_write

-- memcpy and memset at addresses, which wrap
unfoldable pub copy_bytes : (to from num : ℕ) → File → File
copy_bytes to from zero mem = mem
copy_bytes to from (suc num) mem =
    let mem' = copy_bytes to from num mem in
    λ a. if a == u32 (to + num) then mem' (u32 (from + num)) else mem' a

unfoldable pub zero_bytes : (at num : ℕ) → File → File
zero_bytes at zero mem = mem
zero_bytes at (suc num) mem =
    let mem' = zero_bytes at num mem in λ a. if a == u32 (at + num) then 0 else mem' a

module _ (m : KernelMeminfo) where
  -- One round of the loop of handle_loadable_segment: page `i`, with `file_size` bytes left of the file.
  unfoldable pub load_page :
      (i file_size : ℕ) → Elf32ProgHdr → (raw_elf : ℕ) → LoadState → Outcome (ℕ × LoadState)
  load_page i file_size prog raw_elf s = do
    let virtual_addr = u32 (prog.vaddr + i * page_size)
    let aligned_vaddr = paging_align_addr virtual_addr
    (physical, bm) ← pmm_alloc_page s.bitmap
    let flags =
        bit_or (bit_or page_flag_present page_flag_user) (elf_flags_to_paging_flags prog.flags)
    (_, kern₁, h₁) ← vmm_map_pages m aligned_vaddr physical 1 flags s.kern_vmm s.heap
    let mem₁ =
        copy_bytes virtual_addr (u32 (raw_elf + prog.offset + i * page_size)) file_size s.memory
    (_, vmm₁, h₂) ← vmm_map_pages m aligned_vaddr physical 1 flags s.vmm h₁
    let cleared = zero_bytes (u32 (virtual_addr + file_size)) (prog.memsz - prog.filesz) mem₁
    let mem₂ =
        if ltb file_size page_size
        then (if ltb prog.filesz prog.memsz then cleared else mem₁)
        else mem₁
    let left = if ltb file_size page_size then file_size else file_size - page_size
    (kern₂, h₃) ← vmm_unmap_pages m aligned_vaddr 1 kern₁ h₂
    done (
      left,
      record {
        kern_paging = paging_unmap_addr m aligned_vaddr s.kern_paging;
        kern_vmm = kern₂;
        vmm = vmm₁;
        heap = h₃;
        bitmap = bm;
        memory = mem₂;
      },
    )

  -- the `rounds` pages from page `i` on
  unfoldable pub load_pages :
      (rounds i file_size : ℕ) → Elf32ProgHdr → (raw_elf : ℕ) → LoadState → Outcome LoadState
  load_pages zero i file_size prog raw_elf s = done s
  load_pages (suc rounds) i file_size prog raw_elf s = do
    (left, s') ← load_page i file_size prog raw_elf s
    load_pages rounds (i + 1) left prog raw_elf s'

  unfoldable pub handle_loadable_segment :
      Elf32ProgHdr → (raw_elf : ℕ) → LoadState → Outcome LoadState
  handle_loadable_segment prog raw_elf s =
      let size = if ltb prog.memsz prog.filesz then prog.filesz else prog.memsz in
      load_pages (paging_page_count size) 0 prog.filesz prog raw_elf s

  -- the program headers from number `i` on, `rounds` of them
  unfoldable pub load_headers :
      (rounds i : ℕ) → Elf32Hdr → (raw_elf : ℕ) → LoadState → Outcome LoadState
  load_headers zero i header raw_elf s = done s
  load_headers (suc rounds) i header raw_elf s =
      let prog = read_prog_header s.memory (u32 (raw_elf + header.phoff + i * header.phentsize)) in
      let rest =
        handle_loadable_segment prog raw_elf s >>= load_headers rounds (i + 1) header raw_elf in
      if prog.type' == elf_prog_hdr_type_null
      then done s
      else if prog.type' == elf_prog_hdr_type_load
      then rest
      else panic unsupported_program_header

  unfoldable pub elf_load : Elf32Hdr → (raw_elf : ℕ) → LoadState → Outcome LoadState
  elf_load header raw_elf s = load_headers header.phnum 0 header raw_elf s
