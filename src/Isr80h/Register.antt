-- ===== src/Isr80h/Register.antt =====
-- src/isr80h/isr80h.c: the commands in their table.
use peach_os.Prelude.{ℕ, suc, Option, some, ◌>>=◌, List, [], ◌∷◌, pos}
use peach_os.Idt.{isr80h_register_command}

-- `enum SystemCommands`, from 0 on, and the function for each.
pub data SystemCommand : Type 0 where
  system_exit : SystemCommand
  system_print : SystemCommand
  system_putchar : SystemCommand
  system_getkey : SystemCommand
  system_malloc : SystemCommand
  system_free : SystemCommand
  system_process_load_start : SystemCommand
  system_invoke_system_command : SystemCommand
  system_get_program_arguments : SystemCommand

abbrev pub all_commands : List SystemCommand
all_commands =
    system_exit ∷ system_print ∷ system_putchar ∷ system_getkey ∷ system_malloc ∷ system_free
    ∷ system_process_load_start ∷ system_invoke_system_command ∷ system_get_program_arguments ∷ []

-- The calls of `isr80h_register_command`, for the numbers from `i` on.
unfoldable pub register_from :
    (i : ℕ)
    → List SystemCommand
    → List (Option SystemCommand)
    → Option (List (Option SystemCommand))
unfolding isr80h_register_command
register_from i [] table = some table
register_from i (c ∷ commands) table =
    isr80h_register_command (pos i) c table >>= λ table'. register_from (suc i) commands table'

unfoldable pub isr80h_register_all_commands :
    List (Option SystemCommand) → Option (List (Option SystemCommand))
unfolding register_from
isr80h_register_all_commands table = register_from 0 all_commands table
