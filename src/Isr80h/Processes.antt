-- ===== src/Isr80h/Processes.antt =====
-- src/isr80h/process.c: the commands on processes. A command that does not return to the program
-- answers the registers of the task that goes on. What process.c itself prints is left out.
use peach_os.Prelude.{
  ℕ, zero, suc, ◌-◌, ◌^◌, Option, none, some, ◌>>=◌, ◌⊎◌, inl, inr, List, [], ◌∷◌, ◌==◌,
  if◌then◌else◌, ltb, add32, signed32, is_negative,
}
use peach_os.CString.{strlen}
use peach_os.PathParser.{max_path}
use peach_os.File.{Filesystem}
use peach_os.Terminal.{Terminal, int, str, printf}
use peach_os.KernelHeap.{read_bytes}
use peach_os.Paging.{store}
use peach_os.Task.{Registers, task_switch, task_next}
use peach_os.Task.Memory.{task_virtual_address_to_physical, copy_string_from_task}
use peach_os.Process.{process_inject_arguments, argument_size}
use peach_os.Process.Load.{Kernel, set_process}
use peach_os.Process.Start.{with_memory, process_load_switch}
use peach_os.Process.Terminate.{process_terminate}
use peach_os.Isr80h.{running_task, own_process, stack_item}

-- "\nProcess \"%s\" ended with exit code %i\n"
abbrev exit_format : List ℕ
exit_format =
    10 ∷ b'P' ∷ b'r' ∷ b'o' ∷ b'c' ∷ b'e' ∷ b's' ∷ b's' ∷ b' ' ∷ 34 ∷ b'%' ∷ b's' ∷ 34 ∷ b' ' ∷ b'e'
    ∷ b'n' ∷ b'd' ∷ b'e' ∷ b'd' ∷ b' ' ∷ b'w' ∷ b'i' ∷ b't' ∷ b'h' ∷ b' ' ∷ b'e' ∷ b'x' ∷ b'i'
    ∷ b't' ∷ b' ' ∷ b'c' ∷ b'o' ∷ b'd' ∷ b'e' ∷ b' ' ∷ b'%' ∷ b'i' ∷ 10 ∷ 0 ∷ []

-- The texts of a list of `struct command_argument`s, the pointer to the next one behind its 512 bytes.
-- `none` is a list of more than `fuel` arguments.
unfoldable pub arguments_from : (fuel root : ℕ) → (bytes words : ℕ → ℕ) → Option (List (List ℕ))
arguments_from zero root bytes words = if root == 0 then some [] else none
arguments_from (suc fuel) root bytes words =
    let rest = arguments_from fuel (words (add32 root argument_size)) bytes words in
    if root == 0
    then some []
    else (rest >>= λ texts. some (read_bytes argument_size root bytes ∷ texts))

module _ {P D : Type 0} where
  unfoldable pub command0_process_exit :
      Terminal → Kernel P D → Option (Registers × Terminal × Kernel P D)
  unfolding printf process_terminate task_next
  command0_process_exit screen k =
      printf exit_format (str (own_process k).filename ∷ int (signed32 (stack_item 0 k)) ∷ [])
        screen
      >>= λ screen'. process_terminate (running_task k).process k >>= λ (res, k1).
          task_next k1.tasks >>= λ (registers, tasks).
          some (registers, screen', record k1 { tasks = tasks })

  -- `task_switch(process->task)` and `task_return`; a null pointer for the process is a fault.
  unfoldable pub enter : (process : ℕ) → Kernel P D → Option ((ℕ ⊎ Registers) × Kernel P D)
  unfolding task_switch
  enter process k =
      let task = (k.process_at process).task in
      if process == 0
      then none
      else some (inr (k.tasks.at task).registers, record k { tasks = task_switch task k.tasks })

  -- `buffer` is what stands in `path` before.
  unfoldable pub command6_process_load_start :
      Option (Filesystem P D)
      → (buffer : List ℕ) → Kernel P D
      → Option ((ℕ ⊎ Registers) × Kernel P D)
  unfolding copy_string_from_task process_load_switch enter
  command6_process_load_start mounted buffer k =
      copy_string_from_task (running_task k).page_directory (stack_item 0 k) buffer max_path
        k.store.ram
      >>= λ ((res, path), ram).
          if is_negative res
          then some (inl 0, with_memory ram k)
          else process_load_switch mounted path (with_memory ram k) >>= λ ((res', process), k1).
              if is_negative res' then some (inl 0, k1) else enter process k1

  -- The arguments are injected into the process that is loaded.
  unfoldable pub invoke :
      (fuel root process : ℕ) → Kernel P D → Option ((ℕ ⊎ Registers) × Kernel P D)
  unfolding arguments_from process_inject_arguments enter
  invoke fuel root process k =
      arguments_from fuel root k.store.ram.bytes k.store.ram.words >>= λ arguments.
      let p = k.process_at process in
      process_inject_arguments (k.tasks.at p.task).page_directory arguments p k.store.ram
      >>= λ (res, p', ram).
          let k' = record (with_memory ram k) {
            process_at = set_process k.process_at process p';
          } in
          if is_negative res then some (inl 0, k') else enter process k'

  -- `-EINVARG` is -2. A name that is too long is the panic.
  unfoldable pub command7_invoke_system_command :
      Option (Filesystem P D) → (fuel : ℕ) → Kernel P D → Option ((ℕ ⊎ Registers) × Kernel P D)
  unfolding task_virtual_address_to_physical process_load_switch invoke
  command7_invoke_system_command mounted fuel k =
      let root =
        task_virtual_address_to_physical (running_task k).page_directory (stack_item 0 k)
          k.store.ram.words in
      let path = read_bytes argument_size root k.store.ram.bytes in
      if root == 0
      then some (inl (2 ^ 32 - 2), k)
      else strlen path >>= λ len.
          if len == 0
          then some (inl (2 ^ 32 - 2), k)
          else if ltb (max_path - 4) len
          then none
          else process_load_switch mounted path k >>= λ ((res, process), k1).
              if is_negative res then some (inl 0, k1) else invoke fuel root process k1

  unfoldable pub command8_get_program_arguments : Kernel P D → ℕ × Kernel P D
  unfolding task_virtual_address_to_physical
  command8_get_program_arguments k =
      let p = own_process k in
      let arguments =
        task_virtual_address_to_physical (running_task k).page_directory (stack_item 0 k)
          k.store.ram.words in
      let words = store (store k.store.ram.words arguments p.argc) (add32 arguments 4) p.argv in
      (0, with_memory (record k.store.ram { words = words }) k)
