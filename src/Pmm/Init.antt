-- ===== src/Pmm/Init.antt =====
-- pmm_init (kernel/arch/i386/mm/pmm.c): the pages of the kernel, of its heap, of the regions that the
-- boot loader reports as not available, and of the framebuffer are used.
use gubos.Prelude.{
  ℕ, zero, suc, ◌+◌, ◌-◌, ◌*◌, ◌^◌, ◌==◌, ltb, leb, if◌then◌else◌, not, Bool, ◌&&◌, Outcome, done,
  fault, hang, ◌>>=◌, ◌>>◌, assert, no_memory_map, u32,
}
use gubos.Kmalloc.{kernel_heap_phys_start, kernel_heap_size}
use gubos.Meminfo.{KernelMeminfo}
use gubos.Multiboot.{
  Memory, read64, type_of, size_of, advance_tag, tag_rounds, tag_type_end, tag_type_mmap,
  multiboot_framebuffer_info,
}
use gubos.Pmm.{Bitmap, pmm_mark_range_used}

-- the first loop: up to the end or the memory map
unfoldable pub find_memory_map : (fuel tag : ℕ) → Memory → Outcome ℕ
find_memory_map zero tag mem = hang
find_memory_map (suc fuel) tag mem =
    let rest = find_memory_map fuel (advance_tag mem tag) mem in
    if type_of mem tag == tag_type_end
    then done tag
    else if type_of mem tag == tag_type_mmap
    then done tag
    else rest

-- MULTIBOOT_MEMORY_RESERVED, _ACPI_RECLAIMABLE, _NVS and _BADRAM
abbrev pub unavailable : ℕ → Bool
unavailable kind = leb 2 kind && leb kind 5

-- The second loop: the entries up to `end_addr`, which are `entry_size` bytes apart.
unfoldable pub mark_regions : (fuel mmap end_addr entry_size : ℕ) → Memory → Bitmap → Outcome Bitmap
unfolding pmm_mark_range_used
mark_regions zero mmap end_addr entry_size mem bm = hang
mark_regions (suc fuel) mmap end_addr entry_size mem bm =
    let addr = read64 mem mmap in
    let len = read64 mem (u32 (mmap + 8)) in
    let kind = mem (u32 (mmap + 16)) in
    let marked = pmm_mark_range_used (u32 addr) (u32 (addr + len)) bm in
    let next = if unavailable kind then marked else done bm in
    let rest = next >>= mark_regions fuel (u32 (mmap + entry_size)) end_addr entry_size mem in
    if ltb mmap end_addr then rest else done bm

-- An entry that makes progress takes at least a byte.
unfoldable pub region_rounds : ℕ
region_rounds = 2 ^ 32 + 1

-- A missing framebuffer is a read through NULL.
unfoldable pub mark_framebuffer : (info : ℕ) → Memory → Bitmap → Outcome Bitmap
unfolding pmm_mark_range_used
mark_framebuffer info mem bm =
    let size = u32 (mem (u32 (info + 20)) * mem (u32 (info + 24)) * 2) in
    let addr = read64 mem (u32 (info + 8)) in
    let marked = pmm_mark_range_used (u32 addr) (u32 (addr + size + (2 ^ 64 - 1))) bm in
    if info == 0 then fault else marked

unfoldable pub pmm_init : KernelMeminfo → (multiboot_info : ℕ) → Memory → Bitmap → Outcome Bitmap
unfolding pmm_mark_range_used find_memory_map mark_regions mark_framebuffer
pmm_init m multiboot_info mem bm = do
  kernel ← pmm_mark_range_used m.physical_start m.physical_end bm
  heap ←
      pmm_mark_range_used kernel_heap_phys_start (kernel_heap_phys_start + kernel_heap_size - 1)
        kernel
  tag ← find_memory_map tag_rounds (u32 (multiboot_info + 8)) mem
  assert (not (type_of mem tag == tag_type_end)) no_memory_map
  regions ←
      mark_regions region_rounds (u32 (tag + 16)) (u32 (tag + size_of mem tag))
        (mem (u32 (tag + 8))) mem heap
  info ← multiboot_framebuffer_info multiboot_info mem
  mark_framebuffer info mem regions
