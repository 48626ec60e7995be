-- ===== src/Paging/Tests.antt =====
-- The page tables at concrete inputs.
use gubos.Prelude.{ℕ, ◌+◌, ◌-◌, ◌≤◌, ◌<◌, ltb, if◌then◌else◌, done, ◌≡◌, refl, none, some, arith}
use gubos.Meminfo.Sample.{kernel}
use gubos.Paging.{PagingContext, paging_map_virtual_to_physical}
use gubos.Paging.Bootstrap.{paging_bootstrap}
use gubos.Paging.Bootstrap.Region.{large_translate, round_start, bootstrap-large_translate}
use gubos.Paging.Frame.{map-keeps}
use gubos.Paging.Translate.{translate, map-translate}

abbrev tables : PagingContext
tables = record {
  directory_addr = 0xc012_0000;
  tables_addr = 0xc013_0000;
  page_directory = λ i. 0;
  page_tables = λ i k. 0;
}

map-translate_example :
    translate kernel (paging_map_virtual_to_physical kernel 0x40_5123 0x80_0000 3 tables) 0x40_5123
    ≡ some 0x80_0123
map-translate_example =
    map-translate kernel 0x40_5123 0x80_0000 3 tables refl refl (omega arith) (omega arith) refl

mapped :
    translate kernel (paging_map_virtual_to_physical kernel 0x40_5123 0x80_0000 3 tables) 0x40_5123
    ≡ some 0x80_0123
mapped =
    map-translate kernel 0x40_5123 0x80_0000 3 tables refl refl (omega arith) (omega arith) refl

map-keeps_example :
    translate kernel
      (paging_map_virtual_to_physical kernel 0x40_6000 0x90_0000 3
        (paging_map_virtual_to_physical kernel 0x40_5123 0x80_0000 3 tables))
      0x40_5123
    ≡ some 0x80_0123
unfolding paging_map_virtual_to_physical
map-keeps_example =
    map-keeps kernel 0x40_6000 0x40_5123 0x90_0000 3 0x80_0123
      (paging_map_virtual_to_physical kernel 0x40_5123 0x80_0000 3 tables) refl refl (omega arith)
      (omega arith) refl (omega arith) mapped

bootstrap-large_translate_example :
    (entries' : ℕ → ℕ) × (paging_bootstrap 0xc012_0000 kernel (λ i. i)
      ≡ done (0xc012_0000, entries'))
    × ((v : ℕ)
        → 0xc010_0000 ≤ v
        → v < 0xc020_0000
        → large_translate entries' v ≡ (
            if ltb (round_start kernel (omega arith) (omega arith) v) 0xc020_0000
            then some (v - 0xc010_0000 + 0x10_0000)
            else none))
bootstrap-large_translate_example =
    bootstrap-large_translate kernel (omega arith) (omega arith) 0xc012_0000 (λ i. i) refl
