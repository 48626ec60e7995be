-- ===== src/Pmm/Tests.antt =====
-- The bitmap of pages at concrete inputs.
use gubos.Prelude.{zero, suc, ◌≡◌, refl, hang, arith}
use gubos.Pmm.{Bitmap, mem_bitmap_size, pmm_mark_range_used, pmm_alloc_page}
use gubos.Pmm.Bitmap.{IsBitmap}
use gubos.Pmm.Alloc.{FirstFree, pmm_alloc_page-FirstFree}
use gubos.Pmm.Range.{Marked, pmm_mark_range_used_lem, pmm_mark_range_used_hangs}

-- all pages of the first byte are in use
abbrev bytes : Bitmap
bytes zero = 255
bytes (suc i) = 0

bytes-IsBitmap : IsBitmap bytes
bytes-IsBitmap zero = omega arith
bytes-IsBitmap (suc i) = omega arith

pmm_alloc_page-FirstFree_example : FirstFree mem_bitmap_size 0 bytes (pmm_alloc_page bytes)
pmm_alloc_page-FirstFree_example = pmm_alloc_page-FirstFree bytes bytes-IsBitmap

pmm_mark_range_used_lem_example :
    Marked 0x8000 0xa000 bytes (pmm_mark_range_used 0x8000 0xa000 bytes)
pmm_mark_range_used_lem_example =
    pmm_mark_range_used_lem 0x8000 0xa000 bytes refl (omega arith) bytes-IsBitmap

pmm_mark_range_used_hangs_example : pmm_mark_range_used 0xffff_f000 0xffff_ffff bytes ≡ hang
pmm_mark_range_used_hangs_example =
    pmm_mark_range_used_hangs 0xffff_f000 0xffff_ffff bytes refl (omega arith) (omega arith)
