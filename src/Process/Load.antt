-- ===== src/Process/Load.antt =====
-- Loading a process: its file, its memory and its task. `none` is a panic, or undefined behaviour.
use peach_os.Prelude.{
  ℕ, zero, suc, ◌+◌, ◌-◌, ◌*◌, Option, none, some, ◌>>=◌, List, ◌==◌, if◌then◌else◌, replicate, ℤ,
  pos, negsuc, is_negative, eq_ℤ, add32, bit_and,
}
use peach_os.PathParser.{max_path}
use peach_os.Keyboard.{buffer_size}
use peach_os.KernelHeap.{Ram, kzalloc, kfree, write_bytes}
use peach_os.Paging.{align_address, align_to_lower_page, map_to}
use peach_os.Paging.Chunk.{is_present, access_from_all}
use peach_os.File.{Filesystem, fopen, fstat, fread, fclose}
use peach_os.Task.{Tasks, program_virtual_address, stack_address_start}
use peach_os.Elf.{
  Bytes, ElfFile, e_phnum, elf_pheader, elf_phdr_phys_address, p_vaddr, p_memsz, p_flags, phdr_size,
}
use peach_os.Elf.Store.{Store, elf_load, read_mode}
use peach_os.Process.{Process, no_allocation, max_allocations, user_flags}

-- The kernel: memory and files, the tasks, the processes by their addresses, their table, and the
-- current process.
pub record Kernel (P D : Type 0) : Type 0 where
  pub store : Store P D
  pub tasks : Tasks
  pub process_at : ℕ → Process
  pub processes : List ℕ
  pub current_process : ℕ

-- PROCESS_FILETYPE_ELF and PROCESS_FILETYPE_BINARY
abbrev pub filetype_elf : ℕ
filetype_elf = 0

abbrev pub filetype_binary : ℕ
filetype_binary = 1

abbrev pub stack_size : ℕ
stack_size = 1024 * 16

-- The sizes of `struct process` and `struct task`.
abbrev pub process_size : ℕ
process_size = 9368

abbrev pub task_size : ℕ
task_size = 64

-- `process_init`
abbrev pub process_init : Process
process_init = record {
  id = 0;
  filename = replicate max_path 0;
  task = 0;
  active_allocations = 0;
  allocations = replicate max_allocations no_allocation;
  filetype = 0;
  program = 0;
  stack = 0;
  size = 0;
  keyboard = record { cells = replicate buffer_size 0; tail = 0; head = 0 };
  argc = 0;
  argv = 0;
}

abbrev pub set_process : (ℕ → Process) → ℕ → Process → ℕ → Process
set_process ps a p q = if q == a then p else ps q

module _ {P D : Type 0} where
  -- `process_load_binary` with an open file, from the allocation to `out`.
  unfoldable pub read_binary :
      (file_size : ℕ) → ℤ → Process → Store P D → Option ((ℤ × Process) × Store P D)
  unfolding kzalloc kfree fread
  read_binary file_size fd p s = kzalloc file_size s.ram >>= λ (program_data_ptr, ram).
      let ((res, out), files) = fread file_size 1 fd s.files in
      let ram1 = record ram { bytes = write_bytes program_data_ptr out ram.bytes } in
      some (
        if eq_ℤ res (pos 1)
        then (
          (
            pos 0,
            record p { filetype = filetype_binary; program = program_data_ptr; size = file_size },
          ),
          record s { ram = ram1; files = files },
        )
        else ((negsuc 0, p), record s { ram = kfree program_data_ptr ram1; files = files }))

  -- `process_load_binary` behind `fopen`, up to `out`.
  unfoldable pub load_binary_open : ℤ → Process → Store P D → Option ((ℤ × Process) × Store P D)
  unfolding fstat read_binary
  load_binary_open fd p s =
      let (res, stat) = fstat fd s.files in
      if eq_ℤ fd (pos 0)
      then some ((negsuc 0, p), s)
      else if eq_ℤ res (pos 0)
      then (stat >>= λ st. read_binary st.file_size fd p s)
      else some ((res, p), s)

  unfoldable pub process_load_binary :
      Option (Filesystem P D)
      → (filename : List ℕ) → Process
      → Store P D
      → Option ((ℤ × Process) × Store P D)
  unfolding fopen fclose load_binary_open
  process_load_binary mounted filename p s =
      fopen mounted filename read_mode s.files >>= λ (fd, files).
      load_binary_open fd p (record s { files = files }) >>= λ (r, s').
      some (r, record s' { files = (fclose fd s'.files).1 })

  unfoldable pub process_load_elf :
      Option (Filesystem P D)
      → (filename : List ℕ) → Process
      → Store P D
      → Option ((ℤ × Process) × Store P D)
  unfolding elf_load
  process_load_elf mounted filename p s = elf_load mounted filename s >>= λ ((res, elf_file), s').
      some (
        (if is_negative res
            then (res, p)
            else (res, record p { filetype = filetype_elf; program = elf_file })),
        s',
      )

  -- `-EINFORMAT` is -9.
  unfoldable pub process_load_data :
      Option (Filesystem P D)
      → (filename : List ℕ) → Process
      → Store P D
      → Option ((ℤ × Process) × Store P D)
  unfolding process_load_elf process_load_binary
  process_load_data mounted filename p s =
      process_load_elf mounted filename p s >>= λ ((res, p'), s').
      if eq_ℤ res (negsuc 8)
      then process_load_binary mounted filename p' s'
      else some ((res, p'), s')

-- Its result is always 0.
unfoldable pub process_map_binary : (directory : ℕ) → Process → (ℕ → ℕ) → ℕ → ℕ
process_map_binary directory p words =
    (map_to words directory program_virtual_address p.program
      (align_address (add32 p.program p.size)) user_flags).1

-- The mapping of one program header: PF_W is 2.
unfoldable pub map_phdr : Bytes → (directory : ℕ) → ElfFile → (phdr : ℕ) → (ℕ → ℕ) → ℤ × (ℕ → ℕ)
unfolding elf_phdr_phys_address
map_phdr mem directory file phdr words =
    let phys = elf_phdr_phys_address mem file phdr in
    let flags =
      if bit_and (p_flags mem phdr) 2 == 0 then is_present + access_from_all else user_flags in
    map_to words directory (align_to_lower_page (p_vaddr mem phdr)) (align_to_lower_page phys)
      (align_address (add32 phys (p_memsz mem phdr))) flags

-- The loop of `process_map_elf` from header `i` on, with the result so far.
unfoldable pub map_phdrs :
    Bytes → (directory : ℕ) → ElfFile → (rounds i : ℕ) → ℤ → (ℕ → ℕ) → ℤ × (ℕ → ℕ)
unfolding map_phdr elf_pheader
map_phdrs mem directory file zero i res words = (res, words)
map_phdrs mem directory file (suc k) i res words =
    let phdr = add32 (elf_pheader mem file.elf_memory) (phdr_size * i) in
    let (res', words') = map_phdr mem directory file phdr words in
    let rest = map_phdrs mem directory file k (suc i) res' words' in
    if is_negative res' then (res', words') else rest

unfoldable pub process_map_elf : Bytes → (directory : ℕ) → ElfFile → (ℕ → ℕ) → ℤ × (ℕ → ℕ)
unfolding map_phdrs
process_map_elf mem directory file words =
    map_phdrs mem directory file (e_phnum mem file.elf_memory) 0 (pos 0) words

-- `none` is the panic for another type of file.
unfoldable pub map_program : (directory : ℕ) → (ℕ → ElfFile) → Process → Ram → Option (ℤ × Ram)
unfolding process_map_elf process_map_binary
map_program directory elf_at p ram =
    let (res, words) = process_map_elf ram.bytes directory (elf_at p.program) ram.words in
    if p.filetype == filetype_elf
    then some (res, record ram { words = words })
    else if p.filetype == filetype_binary
    then some (pos 0, record ram { words = process_map_binary directory p ram.words })
    else none

unfoldable pub process_map_memory :
    (directory : ℕ) → (ℕ → ElfFile) → Process → Ram → Option (ℤ × Ram)
unfolding map_program
process_map_memory directory elf_at p ram = map_program directory elf_at p ram >>= λ (res, ram1).
    let (res', words) =
      map_to ram1.words directory (stack_address_start - stack_size) p.stack
        (align_address (add32 p.stack stack_size)) user_flags in
    some (if is_negative res then (res, ram1) else (res', record ram1 { words = words }))
