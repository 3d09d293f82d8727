-- ===== src/Elf/Store.antt =====
-- `elf_load` and `elf_close`, over the memory, the open files, and the `struct elf_file`s by their
-- addresses. `none` is a panic, or a read past the end of the file's name.
use peach_os.Prelude.{
  ℕ, Option, some, ◌>>=◌, List, [], ◌∷◌, ◌==◌, ◌||◌, if◌then◌else◌, ℤ, pos, negsuc, is_negative,
  eq_ℤ,
}
use peach_os.KernelHeap.{Ram, kzalloc, kfree, write_bytes}
use peach_os.File.{Filesystem, Files, fopen, fstat, fread, fclose}
use peach_os.Elf.{ElfFile, elf_process_loaded}

pub record Store (P D : Type 0) : Type 0 where
  pub ram : Ram
  pub files : Files P D
  pub elf_at : ℕ → ElfFile

abbrev pub elf_file_size : ℕ
elf_file_size = 132

abbrev pub zero_file : ElfFile
zero_file = record {
  elf_memory = 0;
  virtual_base_address = 0;
  virtual_end_address = 0;
  physical_base_address = 0;
  physical_end_address = 0;
}

-- "r"
abbrev pub read_mode : List ℕ
read_mode = b'r' ∷ 0 ∷ []

abbrev pub set_elf : (ℕ → ElfFile) → ℕ → ElfFile → ℕ → ElfFile
set_elf files p file q = if q == p then file else files q

module _ {P D : Type 0} where
  abbrev pub with_ram : Store P D → Ram → Store P D
  with_ram s ram = record s { ram = ram }

  -- `elf_load` from the allocation for the file's bytes to `out`: the result, and what is written to
  -- `file_out`, 0 for nothing.
  unfoldable pub read_elf : (elf_file file_size : ℕ) → ℤ → Store P D → Option ((ℤ × ℕ) × Store P D)
  unfolding kzalloc fread elf_process_loaded
  read_elf elf_file file_size fd s = kzalloc file_size s.ram >>= λ (elf_memory, ram).
      let ((res, out), files) = fread file_size 1 fd s.files in
      let bytes = write_bytes elf_memory out ram.bytes in
      let file = record (s.elf_at elf_file) { elf_memory = elf_memory } in
      let s1 = record s {
        ram = record ram { bytes = bytes };
        files = files;
        elf_at = set_elf s.elf_at elf_file file;
      } in
      let (res', file') = elf_process_loaded bytes file in
      let s2 = record s1 { elf_at = set_elf s.elf_at elf_file file' } in
      some (
        if is_negative res
        then ((res, 0), s1)
        else if is_negative res'
        then ((res', 0), s2)
        else ((res', elf_file), s2))

  -- `elf_load` with an open file: up to `out`, and the `fclose` there.
  unfoldable pub load_open : (elf_file : ℕ) → ℤ → Store P D → Option ((ℤ × ℕ) × Store P D)
  unfolding fstat read_elf fclose
  load_open elf_file fd s =
      let (res, stat) = fstat fd s.files in
      let answer =
        if is_negative res
        then some ((res, 0), s)
        else stat >>= λ st. read_elf elf_file st.file_size fd s in
      answer >>= λ (r, s'). some (r, record s' { files = (fclose fd s'.files).1 })

  unfoldable pub elf_load :
      Option (Filesystem P D) → (filename : List ℕ) → Store P D → Option ((ℤ × ℕ) × Store P D)
  unfolding kzalloc fopen load_open
  elf_load mounted filename s = kzalloc elf_file_size s.ram >>= λ (elf_file, ram).
      fopen mounted filename read_mode s.files >>= λ (fd, files).
      let s' = record s {
        ram = ram;
        files = files;
        elf_at = set_elf s.elf_at elf_file zero_file;
      } in
      if is_negative fd || eq_ℤ fd (pos 0)
      then some ((negsuc 0, 0), record s' { files = (fclose (pos 0) files).1 })
      else load_open elf_file fd s'

  -- A null pointer is let through.
  unfoldable pub elf_close : (elf_file : ℕ) → Store P D → Store P D
  unfolding kfree
  elf_close elf_file s =
      if elf_file == 0
      then s
      else with_ram s (kfree elf_file (kfree (s.elf_at elf_file).elf_memory s.ram))
