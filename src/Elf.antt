-- ===== src/Elf.antt =====
-- ELF files: kernel/elf/elf.c, kernel/elf/loader.c and kernel/include/elf/elf.h.
pub mod Loader
pub mod Parse
mod Tests
use gubos.Prelude.{
  ℕ, ◌+◌, ◌*◌, ◌^◌, ◌==◌, ltb, if◌then◌else◌, Bool, not, ◌&&◌, ◌||◌, Option, none, some,
}

-- The file, byte by byte.
abbrev pub File : Type 0
File = ℕ → ℕ

-- memcpy of a structure reads its fields in little-endian order.
abbrev pub read16 : File → ℕ → ℕ
read16 f a = f a + f (a + 1) * 2 ^ 8

abbrev pub read32 : File → ℕ → ℕ
read32 f a = read16 f a + read16 f (a + 2) * 2 ^ 16

-- elf32_hdr_t; `ident` is the array of 16 bytes
pub record Elf32Hdr : Type 0 where
  pub ident : ℕ → ℕ
  pub type' : ℕ
  pub machine : ℕ
  pub version : ℕ
  pub entry : ℕ
  pub phoff : ℕ
  pub shoff : ℕ
  pub flags : ℕ
  pub ehsize : ℕ
  pub phentsize : ℕ
  pub phnum : ℕ
  pub shentsize : ℕ
  pub shnum : ℕ
  pub shstrndx : ℕ

-- sizeof(elf32_hdr_t)
abbrev pub elf32_hdr_size : ℕ
elf32_hdr_size = 52

unfoldable pub read_header : File → Elf32Hdr
read_header f = record {
  ident = f;
  type' = read16 f 16;
  machine = read16 f 18;
  version = read32 f 20;
  entry = read32 f 24;
  phoff = read32 f 28;
  shoff = read32 f 32;
  flags = read32 f 36;
  ehsize = read16 f 40;
  phentsize = read16 f 42;
  phnum = read16 f 44;
  shentsize = read16 f 46;
  shnum = read16 f 48;
  shstrndx = read16 f 50;
}

-- elf32_prog_hdr_t
pub record Elf32ProgHdr : Type 0 where
  pub type' : ℕ
  pub offset : ℕ
  pub vaddr : ℕ
  pub paddr : ℕ
  pub filesz : ℕ
  pub memsz : ℕ
  pub flags : ℕ
  pub align : ℕ

unfoldable pub read_prog_header : File → ℕ → Elf32ProgHdr
read_prog_header f a = record {
  type' = read32 f a;
  offset = read32 f (a + 4);
  vaddr = read32 f (a + 8);
  paddr = read32 f (a + 12);
  filesz = read32 f (a + 16);
  memsz = read32 f (a + 20);
  flags = read32 f (a + 24);
  align = read32 f (a + 28);
}

abbrev pub elf_type_exec : ℕ
elf_type_exec = 2

abbrev pub elf_machine_386 : ℕ
elf_machine_386 = 3

abbrev pub elf_class32 : ℕ
elf_class32 = 1

abbrev pub elf_data_lsb : ℕ
elf_data_lsb = 1

abbrev pub elf_osabi_none : ℕ
elf_osabi_none = 0

-- The ELF_PARSE_ERR_ codes and, for 0, the answer of a header that is accepted.
pub data ParseResult : Type 0 where
  ok truncated inv_ident inv_type inv_class inv_data inv_osabi inv_machine inv_version : ParseResult

abbrev pub code : ParseResult → ℕ
code ParseResult.ok = 0
code ParseResult.truncated = 1
code ParseResult.inv_ident = 2
code ParseResult.inv_type = 3
code ParseResult.inv_class = 4
code ParseResult.inv_data = 5
code ParseResult.inv_osabi = 6
code ParseResult.inv_machine = 7
code ParseResult.inv_version = 8

-- the checks on the header, in the order of the code
unfoldable pub check_header : Elf32Hdr → ParseResult
check_header hdr =
    if not (hdr.ident 0 == 0x7f)
      || not (hdr.ident 1 == 0x45)
      || not (hdr.ident 2 == 0x4c)
      || not (hdr.ident 3 == 0x46)
    then ParseResult.inv_ident
    else if not (hdr.ident 4 == elf_class32)
    then ParseResult.inv_class
    else if not (hdr.ident 5 == elf_data_lsb)
    then ParseResult.inv_data
    else if not (hdr.ident 7 == elf_osabi_none)
    then ParseResult.inv_osabi
    else if not (hdr.type' == elf_type_exec)
    then ParseResult.inv_type
    else if not (hdr.machine == elf_machine_386)
    then ParseResult.inv_machine
    else if not (hdr.machine == elf_machine_386)
    then ParseResult.inv_machine
    else ParseResult.ok

-- the result, and the header when it has been read
unfoldable pub elf_parse_header : (elf : File) (len : ℕ) → ParseResult × Option Elf32Hdr
elf_parse_header elf len =
    let hdr = read_header elf in
    let short : ParseResult × Option Elf32Hdr = (ParseResult.truncated, none) in
    let whole : ParseResult × Option Elf32Hdr = (check_header hdr, some hdr) in
    if ltb len elf32_hdr_size then short else whole
