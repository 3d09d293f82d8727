-- ===== src/Process/Files.antt =====
-- Loading a program, for the table of open files: whatever happens, no file stays open.
use peach_os.Prelude.{
  ℕ, suc, arith, false, ◌>>=◌, ◌<◌, ◌≡◌, inl, inr, refl, sym, ap, ◌∙◌, Option, some, List,
  if◌then◌else◌, ℤ, pos, negsuc, eq_ℤ, is_negative, Bool-cases, if_elim, ◌||◌, Ensures,
  Ensures-bind, Ensures-any, Ensures-if, Ensures-map,
}
use mathlib.Core.Path.{subst}
use peach_os.KernelHeap.{kzalloc, write_bytes}
use peach_os.File.{
  FileStat, Filesystem, Files, free_slot, fopen, fstat, fread, fclose, file_get_descriptor,
}
use peach_os.File.Close.{fclose-missing}
use peach_os.File.Kept.{Stands, Opened, ClosesAll, fopen-Opened, fread-Stands, fclose-Stands}
use peach_os.Elf.{elf_process_loaded}
use peach_os.Elf.Store.{
  set_elf, zero_file, Store, read_mode, read_elf, load_open, elf_load, elf_file_size,
}
use peach_os.Process.{Process}
use peach_os.Process.Load.{
  read_binary, load_binary_open, process_load_binary, process_load_elf, process_load_data,
}

module _ {P D : Type 0} (mounted : Option (Filesystem P D))
    (all : (files : Files P D) → ClosesAll mounted files) where
  -- The first free slot is one of the first 511.
  abbrev pub HasRoom : Files P D → Type 0
  HasRoom files = (i : ℕ) → free_slot files ≡ some i → i < 511

  abbrev Same : {A : Type 0} → Files P D → A × Store P D → Type 0
  Same files (r, s) = s.files ≡ files

  record There {A : Type 0} (files : Files P D) (i : ℕ) (x : A × Store P D) : Type 0 where
    stands : Stands mounted files i x.1.files

  number-some : (i : ℕ) → eq_ℤ (pos (suc i)) (pos 0) ≡ false
  number-some i = ground arith

  fclose-zero : (files : Files P D) → fclose (pos 0) files ≡ (negsuc 1, files)
  unfolding file_get_descriptor
  fclose-zero files = fclose-missing (pos 0) files refl

  read_elf-There :
      (files : Files P D) (i elf_file file_size : ℕ) (s : Store P D)
      → i < 511
      → Stands mounted files i s.files
      → Ensures (There files i) (read_elf elf_file file_size (pos (suc i)) s)
  unfolding read_elf
  read_elf-There files i elf_file file_size s l there =
      let there' = fread-Stands mounted files file_size 1 i s.files l there in
      Ensures-any (There files i) (kzalloc file_size s.ram) _ (λ (m, ram).
        elim (Bool-cases (is_negative (fread file_size 1 (pos (suc i)) s.files).0.0)) [
          | inl bad ↦ rw bad (record { stands = there' })
          | inr ok ↦
              let answer =
                elf_process_loaded
                  (write_bytes m (fread file_size 1 (pos (suc i)) s.files).0.1 ram.bytes)
                  (record (s.elf_at elf_file) { elf_memory = m }) in
              elim (Bool-cases (is_negative answer.0)) [
                | inl bad' ↦ rw (ok, bad') (record { stands = there' })
                | inr ok' ↦ rw (ok, ok') (record { stands = there' })
              ]
        ])

  closed :
      (files : Files P D) (i : ℕ) (gs : Files P D)
      → HasRoom files
      → Stands mounted files i gs
      → (fclose (pos (suc i)) gs).1 ≡ files
  closed files i gs room there =
      ap (λ (r : ℤ × Files P D). r.1)
        (fclose-Stands mounted files i gs (all files) (room i there.0) there)

  load_open-Same :
      (files : Files P D) (i elf_file : ℕ) (s : Store P D)
      → HasRoom files
      → Stands mounted files i s.files
      → Ensures (Same files) (load_open elf_file (pos (suc i)) s)
  unfolding load_open
  load_open-Same files i elf_file s room there =
      let found = fstat (pos (suc i)) s.files in
      elim (Bool-cases (is_negative found.0)) [
        | inl bad ↦ rw bad (closed files i s.files room there)
        | inr ok ↦ rw ok (
            Ensures-bind (There files i) (Same {A = ℤ × ℕ} files)
              (found.1 >>= λ (st : FileStat). read_elf elf_file st.file_size (pos (suc i)) s) _
              (Ensures-any (There files i) found.1 _
                (λ st. read_elf-There files i elf_file st.file_size s (room i there.0) there))
              (λ (r, s') there'. closed files i s'.files room there'.stands))
      ]

  -- `elf_load` behind `fopen`.
  abbrev or_open : (elf_file : ℕ) → Store P D → ℤ → Option ((ℤ × ℕ) × Store P D)
  or_open elf_file s fd =
      if is_negative fd || eq_ℤ fd (pos 0)
      then some ((negsuc 0, 0), record s { files = (fclose (pos 0) s.files).1 })
      else load_open elf_file fd s

  elf_load-Same :
      (filename : List ℕ) (s : Store P D)
      → HasRoom s.files
      → Ensures (Same s.files) (elf_load mounted filename s)
  unfolding elf_load
  elf_load-Same filename s room =
      Ensures-any (Same s.files) (kzalloc elf_file_size s.ram) _ (λ (elf_file, ram).
        Ensures-bind (Opened mounted s.files) (Same s.files)
          (fopen mounted filename read_mode s.files) _
          (fopen-Opened mounted s.files filename read_mode)
          (λ (fd, gs) opened. elim opened [
            | inl (z, same) ↦ rw z (ap (λ (r : ℤ × Files P D). r.1) (fclose-zero gs) ∙ same)
            | inr (i, number, there) ↦
                let s1 = record s {
                  ram = ram;
                  files = gs;
                  elf_at = set_elf s.elf_at elf_file zero_file;
                } in
                subst (λ (f : ℤ). Ensures (Same {A = ℤ × ℕ} s.files) (or_open elf_file s1 f))
                  (sym number)
                  (if_elim
                    (λ (m : Option ((ℤ × ℕ) × Store P D)). Ensures (Same {A = ℤ × ℕ} s.files) m)
                    (is_negative (pos (suc i)) || eq_ℤ (pos (suc i)) (pos 0))
                    (some ((negsuc 0, 0), record s1 { files = (fclose (pos 0) gs).1 }))
                    (load_open elf_file (pos (suc i)) s1) (λ bad. absurd (ground (arith, bad)))
                    (λ _. load_open-Same s.files i elf_file s1 room there))
          ]))

  read_binary-There :
      (files : Files P D) (i file_size : ℕ) (p : Process) (s : Store P D)
      → i < 511
      → Stands mounted files i s.files
      → Ensures (There files i) (read_binary file_size (pos (suc i)) p s)
  unfolding read_binary
  read_binary-There files i file_size p s l there =
      let there' = fread-Stands mounted files file_size 1 i s.files l there in
      Ensures-any (There files i) (kzalloc file_size s.ram) _ (λ (m, ram).
        elim (Bool-cases (eq_ℤ (fread file_size 1 (pos (suc i)) s.files).0.0 (pos 1))) [
          | inl ok ↦ rw ok (record { stands = there' })
          | inr bad ↦ rw bad (record { stands = there' })
        ])

  load_binary_open-There :
      (files : Files P D) (i : ℕ) (p : Process) (s : Store P D)
      → HasRoom files
      → Stands mounted files i s.files
      → Ensures (There files i) (load_binary_open (pos (suc i)) p s)
  unfolding load_binary_open
  load_binary_open-There files i p s room there =
      let found = fstat (pos (suc i)) s.files in
      let answer = found.1 >>= λ (st : FileStat). read_binary st.file_size (pos (suc i)) p s in
      Ensures-if (There files i) (eq_ℤ (pos (suc i)) (pos 0)) (some ((negsuc 0, p), s))
        (if eq_ℤ found.0 (pos 0) then answer else some ((found.0, p), s))
        (record { stands = there })
        (Ensures-if (There files i) (eq_ℤ found.0 (pos 0)) answer (some ((found.0, p), s))
          (Ensures-any (There files i) found.1 _
            (λ st. read_binary-There files i st.file_size p s (room i there.0) there))
          (record { stands = there }))

  -- `process_load_binary` behind `fopen`.
  abbrev binary_from : Process → Store P D → ℤ → Option ((ℤ × Process) × Store P D)
  binary_from p s fd =
      load_binary_open fd p s >>= λ (r, s'). some (r, record s' { files = (fclose fd s'.files).1 })

  process_load_binary-Same :
      (filename : List ℕ) (p : Process) (s : Store P D)
      → HasRoom s.files
      → Ensures (Same s.files) (process_load_binary mounted filename p s)
  unfolding process_load_binary
  process_load_binary-Same filename p s room =
      Ensures-bind (Opened mounted s.files) (Same s.files)
        (fopen mounted filename read_mode s.files) _
        (fopen-Opened mounted s.files filename read_mode)
        (λ (fd, gs) opened. elim opened [
          | inl (z, same) ↦ rw z (ap (λ (r : ℤ × Files P D). r.1) (fclose-zero gs) ∙ same)
          | inr (i, number, there) ↦
              let s1 = record s { files = gs } in
              subst (λ (f : ℤ). Ensures (Same {A = ℤ × Process} s.files) (binary_from p s1 f))
                (sym number)
                (Ensures-bind (There s.files i) (Same {A = ℤ × Process} s.files)
                  (load_binary_open (pos (suc i)) p s1) _
                  (load_binary_open-There s.files i p s1 room there)
                  (λ (r, s') there'. closed s.files i s'.files room there'.stands))
        ])

  -- Let the filesystem close every file, and let the first free slot of the table, if there is one,
  -- be one of the first 511. Then loading a program leaves the table of open files as it was, whether
  -- it succeeds or not.
  pub process_load_data-Same :
      (filename : List ℕ) (p : Process) (s : Store P D)
      → HasRoom s.files
      → Ensures
          (λ ((r, s') : (ℤ × Process) × Store P D). s'.files ≡ s.files)
          (process_load_data mounted filename p s)
  unfolding process_load_data process_load_elf
  process_load_data-Same filename p s room =
      Ensures-bind (Same s.files) (Same s.files) (process_load_elf mounted filename p s) _
        (Ensures-bind (Same s.files) (Same s.files) (elf_load mounted filename s) _
          (elf_load-Same filename s room) (λ r same. same))
        (λ ((res, p'), s') same.
          Ensures-if (Same s.files) (eq_ℤ res (negsuc 8))
            (process_load_binary mounted filename p' s') (some ((res, p'), s'))
            (Ensures-map (Same s'.files) (Same s.files) _
              (process_load_binary-Same filename p' s'
                (λ i free. room i (ap free_slot (sym same) ∙ free)))
              (λ r same'. same' ∙ same))
            same)
