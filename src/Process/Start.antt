-- ===== src/Process/Start.antt =====
-- `process_load_for_slot`, `process_load` and `process_load_switch`. A result stands with what is
-- written to `*process`, 0 for nothing. The lines that `process_load_switch` prints for a program that is not
-- found are left out, here and where it is called: the kernel's state holds no screen.
use peach_os.Prelude.{
  ℕ, ◌+◌, Option, none, some, ◌>>=◌, List, ◌==◌, if◌then◌else◌, not, set, ℤ, pos, negsuc,
  is_negative, eq_ℤ,
}
use peach_os.CString.{strncpy}
use peach_os.PathParser.{max_path}
use peach_os.KernelHeap.{Ram, kzalloc, kfree}
use peach_os.Paging.Chunk.{new_4gb, free_4gb, is_present, access_from_all}
use peach_os.File.{Filesystem}
use peach_os.Task.{Tasks, task_new, task_list_remove}
use peach_os.Elf.{Bytes, ElfFile, e_entry}
use peach_os.Process.{Process, process_get, process_get_free_slot}
use peach_os.Process.Load.{
  Kernel, filetype_elf, process_size, task_size, stack_size, process_init, set_process,
  process_load_data, process_map_memory,
}

-- What `task_init` reads of a process.
abbrev pub seen_by_task : (process : ℕ) → Process → Bytes → (ℕ → ElfFile) → peach_os.Task.Process
seen_by_task process p bytes elf_at = record {
  address = process;
  elf_entry =
      if p.filetype == filetype_elf
      then some (e_entry bytes (elf_at p.program).elf_memory)
      else none;
}

module _ {P D : Type 0} where
  abbrev pub with_memory : Ram → Kernel P D → Kernel P D
  with_memory ram k = record k { store = record k.store { ram = ram } }

  -- `task_new` with the memory that it takes, for the process at an address.
  unfoldable pub create_task : (process : ℕ) → Process → Kernel P D → Option (ℕ × Kernel P D)
  unfolding kzalloc new_4gb task_new
  create_task process p k = kzalloc task_size k.store.ram >>= λ (task, ram1).
      new_4gb (is_present + access_from_all) ram1 >>= λ (chunk, ram2).
      task_new task (seen_by_task process p ram2.bytes k.store.elf_at) chunk k.tasks >>= λ tasks.
      some (task, record (with_memory ram2 k) { tasks = tasks })

  -- `task_free`
  unfoldable pub free_task : (task : ℕ) → Kernel P D → Option (Kernel P D)
  unfolding free_4gb task_list_remove kfree
  free_task task k =
      let ram = free_4gb (k.tasks.at task).page_directory k.store.ram in
      task_list_remove task k.tasks >>= λ tasks.
      some (record (with_memory (kfree task ram) k) { tasks = tasks })

  -- The process in its slot of the table, with its memory mapped. After an error the task is freed, and
  -- the process stays in the table.
  unfoldable pub enter_process :
      (process process_slot : ℕ) → Process → Kernel P D → Option ((ℤ × ℕ) × Kernel P D)
  unfolding process_map_memory free_task
  enter_process process process_slot p k =
      let chunk = (k.tasks.at p.task).page_directory in
      process_map_memory (k.store.ram.words chunk) k.store.elf_at p k.store.ram >>= λ (res, ram).
      let k' = record (with_memory ram k) {
        process_at = set_process k.process_at process p;
        processes = set k.processes process_slot process;
      } in
      if is_negative res
      then (free_task p.task k' >>= λ freed. some ((res, process), freed))
      else some ((res, process), k')

  -- From the allocation of the stack on.
  unfoldable pub prepare_process :
      (filename : List ℕ)
      → (process process_slot : ℕ) → Process
      → Kernel P D
      → Option ((ℤ × ℕ) × Kernel P D)
  unfolding kzalloc strncpy create_task enter_process
  prepare_process filename process process_slot p k =
      kzalloc stack_size k.store.ram >>= λ (program_stack_ptr, ram).
      strncpy p.filename filename max_path >>= λ name.
      let p1 = record p { filename = name; stack = program_stack_ptr; id = process_slot } in
      create_task process p1 (with_memory ram k) >>= λ (task, k1).
      enter_process process process_slot (record p1 { task = task }) k1

  -- A slot that is taken is undefined behaviour: the code then reads an uninitialised `_process`.
  unfoldable pub process_load_for_slot :
      Option (Filesystem P D)
      → (filename : List ℕ) → (process_slot : ℕ) → Kernel P D
      → Option ((ℤ × ℕ) × Kernel P D)
  unfolding process_get kzalloc process_load_data prepare_process
  process_load_for_slot mounted filename process_slot k =
      if not (process_get (pos process_slot) k.processes == 0)
      then none
      else kzalloc process_size k.store.ram >>= λ (process, ram).
          process_load_data mounted filename process_init (record k.store { ram = ram })
          >>= λ ((res, p), store).
              if is_negative res
              then some ((res, 0), record k { store = store })
              else prepare_process filename process process_slot p (record k { store = store })

  unfoldable pub process_load :
      Option (Filesystem P D) → (filename : List ℕ) → Kernel P D → Option ((ℤ × ℕ) × Kernel P D)
  unfolding process_get_free_slot process_load_for_slot
  process_load mounted filename k = elim (process_get_free_slot k.processes) [
    | none ↦ some ((negsuc 7, 0), k)
    | some process_slot ↦ process_load_for_slot mounted filename process_slot k
  ]

  unfoldable pub process_load_switch :
      Option (Filesystem P D) → (filename : List ℕ) → Kernel P D → Option ((ℤ × ℕ) × Kernel P D)
  unfolding process_load
  process_load_switch mounted filename k =
      process_load mounted filename k >>= λ ((res, process), k').
      some
        ((res, process), if eq_ℤ res (pos 0) then record k' { current_process = process } else k')
