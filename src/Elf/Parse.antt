-- ===== src/Elf/Parse.antt =====
-- Which files elf_parse_header accepts, and which error it reports.
use gubos.Prelude.{ℕ, ◌≤◌, ◌≡◌, ◌↔◌, refl, ltb, Bool-cases, inl, inr, ltb→lt, arith}
use gubos.Elf.{
  File, Elf32Hdr, code, read_header, check_header, elf_parse_header, elf32_hdr_size, elf_type_exec,
  elf_machine_386, elf_class32, elf_data_lsb, elf_osabi_none,
}

-- what the kernel can run: an executable for the 80386, 32 bits, little-endian, of no particular system
pub record IsExecutable (hdr : Elf32Hdr) : Type 0 where
  pub magic0 : hdr.ident 0 ≡ 0x7f
  pub magic1 : hdr.ident 1 ≡ 0x45
  pub magic2 : hdr.ident 2 ≡ 0x4c
  pub magic3 : hdr.ident 3 ≡ 0x46
  pub class : hdr.ident 4 ≡ elf_class32
  pub endian : hdr.ident 5 ≡ elf_data_lsb
  pub osabi : hdr.ident 7 ≡ elf_osabi_none
  pub exec : hdr.type' ≡ elf_type_exec
  pub i386 : hdr.machine ≡ elf_machine_386

check_header-IsExecutable : (hdr : Elf32Hdr) → code (check_header hdr) ≡ 0 → IsExecutable hdr
unfolding check_header
check_header-IsExecutable hdr h = record {
  magic0 = ground arith;
  magic1 = ground arith;
  magic2 = ground arith;
  magic3 = ground arith;
  class = ground arith;
  endian = ground arith;
  osabi = ground arith;
  exec = ground arith;
  i386 = ground arith;
}

IsExecutable-check_header : (hdr : Elf32Hdr) → IsExecutable hdr → code (check_header hdr) ≡ 0
unfolding check_header
IsExecutable-check_header hdr x =
    rw (x.magic0, x.magic1, x.magic2, x.magic3, x.class, x.endian, x.osabi, x.exec, x.i386) refl

-- elf_parse_header answers 0 exactly for a file of at least the header's size whose header is one of an
-- executable that the kernel can run.
pub parse_header_iff :
    (elf : File) (len : ℕ)
    → (code (elf_parse_header elf len).0 ≡ 0)
      ↔ ((elf32_hdr_size ≤ len) × IsExecutable (read_header elf))
unfolding elf_parse_header
parse_header_iff elf len = elim (Bool-cases (ltb len elf32_hdr_size)) [
  | inl short ↦ rw short (
    (λ h. absurd (omega arith)),
    (λ (big, x). absurd (omega (arith, ltb→lt len elf32_hdr_size short))),
  )
  | inr whole ↦ rw whole (
    (λ h. (ground arith, check_header-IsExecutable (read_header elf) h)),
    (λ (big, x). IsExecutable-check_header (read_header elf) x),
  )
]
