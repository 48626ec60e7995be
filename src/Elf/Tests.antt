-- ===== src/Elf/Tests.antt =====
-- The ELF header at concrete inputs.
use gubos.Prelude.{◌≤◌, ◌≡◌, ◌↔◌, ◌==◌, if◌then◌else◌}
use gubos.Elf.{File, code, read_header, elf_parse_header, elf32_hdr_size}
use gubos.Elf.Parse.{IsExecutable, parse_header_iff}

-- the bytes of an executable that the checks look at
abbrev file : File
file k =
    if k == 0
    then 0x7f
    else if k == 1
    then 0x45
    else if k == 2
    then 0x4c
    else if k == 3
    then 0x46
    else if k == 4
    then 1
    else if k == 5
    then 1
    else if k == 16
    then 2
    else if k == 18
    then 3
    else 0

parse_header_iff_example :
    (code (elf_parse_header file 52).0 ≡ 0)
    ↔ ((elf32_hdr_size ≤ 52) × IsExecutable (read_header file))
parse_header_iff_example = parse_header_iff file 52
