-- ===== src/Machine/Dispatch.antt =====
-- Registering system calls, and calling them.
use peach_os.Prelude.{
  ℕ, ◌<◌, ◌≡◌, ◌≢◌, inl, refl, arith, none, some, List, leb, get_or, set, length, ◌>>=◌, ℤ, pos,
  get_or-set_self, ne→==, eq→==, false,
}
use peach_os.Task.{Registers, task_save_frame, task_current_save_state, task_switch}
use peach_os.Idt.{isr80h_register_command, find_command, kernel_page, task_page}
use peach_os.Isr80h.Register.{SystemCommand}
use peach_os.Machine.{Machine, with_tasks}
use peach_os.Machine.Calls.{run_command, isr80h_handle_command, isr80h_handler}

below : (n : ℕ) → n < 1024 → leb 1024 n ≡ false
below n h = ground arith

module _ {P D : Type 0} where
  handle_command-set :
      (buffer : List ℕ) (fuel n : ℕ) (c : SystemCommand) (m : Machine P D)
      → n < 1024
      → n < length m.commands
      → isr80h_handle_command buffer fuel
          (pos n)
          (record m { commands = set m.commands n (some c) })
        ≡ run_command buffer fuel c (record m { commands = set m.commands n (some c) })
  unfolding isr80h_handle_command find_command
  handle_command-set buffer fuel n c m h l =
      rw
        (
          isr80h_handle_command,
          find_command,
          below n h,
          get_or-set_self m.commands n (some c) none l,
        )
        refl

  -- A command that is registered under a free number below 1024 is the one that is run under that number.
  isr80h_handle_command-registered :
      (buffer : List ℕ) (fuel n : ℕ) (c : SystemCommand) (m : Machine P D)
      → n < 1024
      → n < length m.commands
      → get_or m.commands n none ≡ none
      → (isr80h_register_command (pos n) c m.commands >>= λ commands.
          isr80h_handle_command buffer fuel (pos n) (record m { commands = commands }))
        ≡ run_command buffer fuel c (record m { commands = set m.commands n (some c) })
  unfolding isr80h_register_command
  isr80h_handle_command-registered buffer fuel n c m h l e =
      rw (below n h, e) (handle_command-set buffer fuel n c m h l)

  -- A system call that finds no command answers 0; the frame is saved in the current task, and the page
  -- directory of that task is loaded again.
  isr80h_handler-missing :
      (buffer : List ℕ) (fuel : ℕ) (command : ℤ) (frame : Registers) (m : Machine P D)
      → m.kernel.tasks.current_task ≢ 0
      → find_command command m.commands ≡ none
      → isr80h_handler buffer fuel command frame m
        ≡ some (
          inl 0,
          let s = m.kernel.tasks in
              with_tasks
                (record (task_save_frame s.current_task frame s) {
                  loaded = (s.at s.current_task).page_directory;
                })
                m,
        )
  unfolding isr80h_handler isr80h_handle_command kernel_page task_page task_switch
      task_current_save_state task_save_frame
  isr80h_handler-missing buffer fuel command frame m h e =
      rw
        (
          isr80h_handler,
          task_current_save_state,
          ne→== m.kernel.tasks.current_task 0 h,
          isr80h_handle_command,
          e,
          task_page,
          task_switch,
          task_save_frame,
          kernel_page,
          eq→== m.kernel.tasks.current_task m.kernel.tasks.current_task refl,
        )
        refl
