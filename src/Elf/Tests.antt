-- ===== src/Elf/Tests.antt =====
-- A file with one loadable segment, and the theorems of Elf at it.
use peach_os.Prelude.{ℕ, zero, suc, ◌≡◌, refl, arith, ◌==◌, if◌then◌else◌, pos}
use peach_os.Memory.{memcmp}
use peach_os.Elf.{Bytes, ElfFile, elf_program_header, elf_process_pheaders, elf_process_loaded}
use peach_os.Elf.Segments.{Spans}
use peach_os.Elf.Load.{NonZero, elf_process_pheaders-Spans}

-- The header stands at 0x1000, its one program header 52 bytes behind, and the segment goes from
-- 0x400000 to 0x400010.
abbrev one_segment : Bytes
one_segment p =
    if p == 0x1000
    then 0x7f
    else if p == 0x1001
    then b'E'
    else if p == 0x1002
    then b'L'
    else if p == 0x1003
    then b'F'
    else if p == 0x101C
    then 52
    else if p == 0x102C
    then 1
    else if p == 0x1034
    then 1
    else if p == 0x103E
    then 0x40
    else if p == 0x1044
    then 16
    else 0

abbrev loaded_at : ℕ → ElfFile
loaded_at memory = record {
  elf_memory = memory;
  virtual_base_address = 0;
  virtual_end_address = 0;
  physical_base_address = 0;
  physical_end_address = 0;
}

elf_process_loaded-run : elf_process_loaded one_segment (loaded_at 0x1000) ≡ (
  pos 0,
  record (loaded_at 0x1000) {
    virtual_base_address = 0x400000;
    virtual_end_address = 0x400010;
    physical_base_address = 0x1000;
    physical_end_address = 0x1010;
  },
)
unfolding elf_process_loaded memcmp
elf_process_loaded-run = refl

one_segment-NonZero : NonZero one_segment 0x1000 1
unfolding elf_program_header
one_segment-NonZero zero h l e = ground arith
one_segment-NonZero (suc k) h l e = omega arith

elf_process_pheaders-Spans_example :
    Spans one_segment 0x1000 1 (elf_process_pheaders one_segment (loaded_at 0x1000))
elf_process_pheaders-Spans_example =
    elf_process_pheaders-Spans one_segment 0x1000 one_segment-NonZero
