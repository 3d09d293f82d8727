-- ===== src/Elf.antt =====
-- src/loader/formats/elfloader.c, elf.c and elf.h: the loader of ELF files. `mem` is the physical memory, one
-- byte for each address, and the structures of a file are read where the file stands in it, by the
-- offsets of the packed `struct`s. Addresses wrap at 2 ^ 32.
pub mod Segments
pub mod Load
pub mod Store
mod Tests
use peach_os.Prelude.{
  ℕ, zero, suc, ◌+◌, ◌*◌, Bool, true, false, not, ◌&&◌, ◌||◌, Option, none, some, List, [], ◌∷◌,
  ◌==◌, leb, ltb, if◌then◌else◌, add32, ℤ, pos, negsuc, eq_ℤ, is_negative,
}
use peach_os.Memory.{memcmp}

-- The bytes of the physical memory.
abbrev pub Bytes : Type 0
Bytes = ℕ → ℕ

abbrev pub read16 : Bytes → ℕ → ℕ
read16 mem p = mem p + 256 * mem (add32 p 1)

abbrev pub read32 : Bytes → ℕ → ℕ
read32 mem p = read16 mem p + 65536 * read16 mem (add32 p 2)

-- The fields of `struct elf_header` at an address.
abbrev pub e_ident : Bytes → (header i : ℕ) → ℕ
e_ident mem header i = mem (add32 header i)

abbrev pub e_type : Bytes → ℕ → ℕ
e_type mem header = read16 mem (add32 header 16)

abbrev pub e_entry : Bytes → ℕ → ℕ
e_entry mem header = read32 mem (add32 header 24)

abbrev pub e_phoff : Bytes → ℕ → ℕ
e_phoff mem header = read32 mem (add32 header 28)

abbrev pub e_shoff : Bytes → ℕ → ℕ
e_shoff mem header = read32 mem (add32 header 32)

abbrev pub e_phnum : Bytes → ℕ → ℕ
e_phnum mem header = read16 mem (add32 header 44)

abbrev pub e_shstrndx : Bytes → ℕ → ℕ
e_shstrndx mem header = read16 mem (add32 header 50)

-- The fields of `struct elf32_phdr` and `struct elf32_shdr` at an address.
abbrev pub p_type : Bytes → ℕ → ℕ
p_type mem phdr = read32 mem phdr

abbrev pub p_offset : Bytes → ℕ → ℕ
p_offset mem phdr = read32 mem (add32 phdr 4)

abbrev pub p_vaddr : Bytes → ℕ → ℕ
p_vaddr mem phdr = read32 mem (add32 phdr 8)

abbrev pub p_filesz : Bytes → ℕ → ℕ
p_filesz mem phdr = read32 mem (add32 phdr 16)

abbrev pub p_memsz : Bytes → ℕ → ℕ
p_memsz mem phdr = read32 mem (add32 phdr 20)

abbrev pub p_flags : Bytes → ℕ → ℕ
p_flags mem phdr = read32 mem (add32 phdr 24)

abbrev pub sh_offset : Bytes → ℕ → ℕ
sh_offset mem shdr = read32 mem (add32 shdr 16)

-- PT_LOAD, ET_EXEC, and the sizes of a program header and a section header.
abbrev pub pt_load : ℕ
pt_load = 1

abbrev pub et_exec : ℕ
et_exec = 2

abbrev pub phdr_size : ℕ
phdr_size = 32

abbrev pub shdr_size : ℕ
shdr_size = 40

-- `struct elf_file`, without the name and the size in memory, which nothing reads.
pub record ElfFile : Type 0 where
  pub elf_memory : ℕ
  pub virtual_base_address : ℕ
  pub virtual_end_address : ℕ
  pub physical_base_address : ℕ
  pub physical_end_address : ℕ

abbrev pub elf_signature : List ℕ
elf_signature = 0x7f ∷ b'E' ∷ b'L' ∷ b'F' ∷ []

module _ (mem : Bytes) where
  unfoldable pub valid_signature : (buffer : ℕ) → Bool
  unfolding memcmp
  valid_signature p =
      elim (memcmp (mem p ∷ mem (add32 p 1) ∷ mem (add32 p 2) ∷ mem (add32 p 3) ∷ []) elf_signature
        4) [ none ↦ false | some r ↦ eq_ℤ r (pos 0) ]

  unfoldable pub valid_class : (header : ℕ) → Bool
  valid_class header = (e_ident mem header 4 == 0) || (e_ident mem header 4 == 1)

  unfoldable pub valid_encoding : (header : ℕ) → Bool
  valid_encoding header = (e_ident mem header 5 == 0) || (e_ident mem header 5 == 1)

  -- Nothing calls it.
  unfoldable pub is_executable : (header : ℕ) → Bool
  is_executable header = (e_type mem header == et_exec) && leb 0x400000 (e_entry mem header)

  unfoldable pub has_program_header : (header : ℕ) → Bool
  has_program_header header = not (e_phoff mem header == 0)

  -- 0 is the null pointer.
  unfoldable pub elf_pheader : (header : ℕ) → ℕ
  elf_pheader header = if e_phoff mem header == 0 then 0 else add32 header (e_phoff mem header)

  unfoldable pub elf_sheader : (header : ℕ) → ℕ
  elf_sheader header = add32 header (e_shoff mem header)

  unfoldable pub elf_program_header : (header index : ℕ) → ℕ
  unfolding elf_pheader
  elf_program_header header index = add32 (elf_pheader header) (phdr_size * index)

  unfoldable pub elf_section_header : (header index : ℕ) → ℕ
  unfolding elf_sheader
  elf_section_header header index = add32 (elf_sheader header) (shdr_size * index)

  unfoldable pub elf_str_table : (header : ℕ) → ℕ
  unfolding elf_section_header
  elf_str_table header =
      add32 header (sh_offset mem (elf_section_header header (e_shstrndx mem header)))

  unfoldable pub elf_phdr_phys_address : ElfFile → (phdr : ℕ) → ℕ
  elf_phdr_phys_address file phdr = add32 file.elf_memory (p_offset mem phdr)

  -- `-EINFORMAT` for an invalid file.
  unfoldable pub elf_validate_loaded : (header : ℕ) → ℤ
  unfolding valid_signature valid_class valid_encoding has_program_header
  elf_validate_loaded header =
      if valid_signature header
        && valid_class header
        && valid_encoding header
        && has_program_header header
      then pos 0
      else negsuc 8

  -- The two halves of `elf_process_pheader_pt_load`.
  unfoldable pub lower_base : ElfFile → (phdr : ℕ) → ElfFile
  lower_base file phdr =
      if leb (p_vaddr mem phdr) file.virtual_base_address || (file.virtual_base_address == 0)
      then record file {
        virtual_base_address = p_vaddr mem phdr;
        physical_base_address = add32 file.elf_memory (p_offset mem phdr);
      }
      else file

  unfoldable pub raise_end : ElfFile → (phdr : ℕ) → ElfFile
  raise_end file phdr =
      let end_virtual_address = add32 (p_vaddr mem phdr) (p_filesz mem phdr) in
      if leb file.virtual_end_address end_virtual_address || (file.virtual_end_address == 0)
      then record file {
        virtual_end_address = end_virtual_address;
        physical_end_address =
            add32 (add32 file.elf_memory (p_offset mem phdr)) (p_filesz mem phdr);
      }
      else file

  unfoldable pub elf_process_pheader_pt_load : ElfFile → (phdr : ℕ) → ElfFile
  unfolding lower_base raise_end
  elf_process_pheader_pt_load file phdr = raise_end (lower_base file phdr) phdr

  -- Its result is always 0.
  unfoldable pub elf_process_pheader : ElfFile → (phdr : ℕ) → ElfFile
  unfolding elf_process_pheader_pt_load
  elf_process_pheader file phdr =
      if p_type mem phdr == pt_load then elf_process_pheader_pt_load file phdr else file

  -- The loop of `elf_process_pheaders` from header `i` on.
  unfoldable pub process_from : (rounds i : ℕ) → ElfFile → ElfFile
  unfolding elf_process_pheader elf_program_header
  process_from zero i file = file
  process_from (suc k) i file =
      process_from k (suc i) (elf_process_pheader file (elf_program_header file.elf_memory i))

  unfoldable pub elf_process_pheaders : ElfFile → ElfFile
  unfolding process_from
  elf_process_pheaders file = process_from (e_phnum mem file.elf_memory) 0 file

  -- The result and the file. The result is 0 also behind `goto out`.
  unfoldable pub elf_process_loaded : ElfFile → ℤ × ElfFile
  unfolding elf_validate_loaded elf_process_pheaders
  elf_process_loaded file =
      if is_negative (elf_validate_loaded file.elf_memory)
      then (pos 0, file)
      else (pos 0, elf_process_pheaders file)
