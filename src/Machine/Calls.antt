-- ===== src/Machine/Calls.antt =====
-- src/idt/idt.c: the system calls. The number of a call leads to its command in Isr80h.
use peach_os.Prelude.{ℕ, Option, none, some, ◌>>=◌, ◌⊎◌, inl, inr, List, ℤ}
use peach_os.Task.{Registers, task_current_save_state}
use peach_os.Idt.{find_command, kernel_page, task_page}
use peach_os.Process.Load.{Kernel}
use peach_os.Isr80h.{
  command1_print, command2_putchar, command3_getkey, command4_malloc, command5_free,
}
use peach_os.Isr80h.Processes.{
  command0_process_exit, command6_process_load_start, command7_invoke_system_command,
  command8_get_program_arguments,
}
use peach_os.Isr80h.Register.{SystemCommand}
use peach_os.Machine.{Machine, with_tasks, enter_kernel}

-- `buffer` is what stands in the local arrays of the commands before, and `fuel` bounds the list of
-- arguments that command 7 reads.
module _ {P D : Type 0} (buffer : List ℕ) (fuel : ℕ) where
  -- A command with the kernel alone.
  abbrev with_kernel : {A : Type 0} → Machine P D → A × Kernel P D → Option (A × Machine P D)
  with_kernel m (a, k) = some (a, record m { kernel = k })

  abbrev value : ℕ × Kernel P D → (ℕ ⊎ Registers) × Kernel P D
  value (n, k) = (inl n, k)

  -- The value for the program, or the registers of the task that goes on.
  unfoldable pub run_command : SystemCommand → Machine P D → Option ((ℕ ⊎ Registers) × Machine P D)
  unfolding command0_process_exit command1_print command2_putchar command3_getkey command4_malloc
      command5_free command6_process_load_start command7_invoke_system_command
      command8_get_program_arguments
  run_command SystemCommand.system_exit m =
      command0_process_exit m.screen m.kernel >>= λ (registers, screen, k).
      some (inr registers, record m { screen = screen; kernel = k })
  run_command SystemCommand.system_print m =
      command1_print buffer m.screen m.kernel >>= λ (n, screen, k).
      some (inl n, record m { screen = screen; kernel = k })
  run_command SystemCommand.system_putchar m =
      let (n, screen, k) = command2_putchar m.screen m.kernel in
      some (inl n, record m { screen = screen; kernel = k })
  run_command SystemCommand.system_getkey m = with_kernel m (value (command3_getkey m.kernel))
  run_command SystemCommand.system_malloc m =
      command4_malloc m.kernel >>= λ r. with_kernel m (value r)
  run_command SystemCommand.system_free m = with_kernel m (value (command5_free m.kernel))
  run_command SystemCommand.system_process_load_start m =
      command6_process_load_start m.mounted buffer m.kernel >>= with_kernel m
  run_command SystemCommand.system_invoke_system_command m =
      command7_invoke_system_command m.mounted fuel m.kernel >>= with_kernel m
  run_command SystemCommand.system_get_program_arguments m =
      with_kernel m (value (command8_get_program_arguments m.kernel))

  -- A number with no command answers 0.
  unfoldable pub isr80h_handle_command : ℤ → Machine P D → Option ((ℕ ⊎ Registers) × Machine P D)
  unfolding find_command run_command
  isr80h_handle_command command m = elim (find_command command m.commands) [
    | none ↦ some (inl 0, m)
    | some c ↦ run_command c m
  ]

  -- A command that does not return leaves no page to be loaded.
  unfoldable pub leave_call : (ℕ ⊎ Registers) × Machine P D → (ℕ ⊎ Registers) × Machine P D
  unfolding task_page
  leave_call (inl n, m) = (inl n, with_tasks (task_page m.kernel.tasks) m)
  leave_call (inr registers, m) = (inr registers, m)

  unfoldable pub isr80h_handler :
      ℤ → (frame : Registers) → Machine P D → Option ((ℕ ⊎ Registers) × Machine P D)
  unfolding kernel_page task_current_save_state isr80h_handle_command leave_call
  isr80h_handler command frame m =
      let m1 = enter_kernel m in
      task_current_save_state frame m1.kernel.tasks >>= λ tasks.
      isr80h_handle_command command (with_tasks tasks m1) >>= λ r. some (leave_call r)
