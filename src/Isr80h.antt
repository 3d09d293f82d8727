-- ===== src/Isr80h.antt =====
-- src/isr80h: the commands of system calls, over the kernel of Process and the screen of Terminal. The task is the current
-- one, and its process is found by its address. Each command answers the value that goes back to
-- the program, and the state. `none` is a panic or a fault.
pub mod Heap
pub mod Processes
pub mod Register
mod Tests
use peach_os.Prelude.{
  ℕ, zero, suc, ◌+◌, ◌-◌, Bool, Option, none, some, ◌>>=◌, List, [], ◌∷◌, ◌++◌, ◌==◌, ◌||◌,
  if◌then◌else◌, replicate, ltb, u8, u32, add32, shl, ℤ, pos, negsuc, is_negative, signed32,
}
use peach_os.CString.{strlen}
use peach_os.PathParser.{max_path}
use peach_os.Keyboard.{pop_from}
use peach_os.File.{Filesystem}
use peach_os.Terminal.{Terminal, Arg, int, str, print, printf, terminal_writechar, default_colour}
use peach_os.KernelHeap.{Ram, read_bytes}
use peach_os.Task.{Task, Tasks, Registers, task_switch, task_next}
use peach_os.Task.Memory.{
  task_get_stack_item, task_virtual_address_to_physical, copy_string_from_task,
}
use peach_os.Paging.{store}
use peach_os.Process.{
  Process, process_malloc, process_free, process_inject_arguments, argument_size,
}
use peach_os.Process.Load.{Kernel, set_process}
use peach_os.Process.Start.{with_memory, process_load_switch}
use peach_os.Process.Terminate.{process_terminate}

module _ {P D : Type 0} where
  abbrev pub running_task : Kernel P D → Task
  running_task k = k.tasks.at k.tasks.current_task

  -- The process of the current task, and a write to it.
  abbrev pub own_process : Kernel P D → Process
  own_process k = k.process_at (running_task k).process

  abbrev pub set_own_process : Process → Ram → Kernel P D → Kernel P D
  set_own_process p ram k = record (with_memory ram k) {
    process_at = set_process k.process_at (running_task k).process p;
  }

  abbrev pub stack_item : (index : ℕ) → Kernel P D → ℕ
  stack_item index k = task_get_stack_item (running_task k) index k.store.ram.words

  -- It is not registered.
  unfoldable pub command0_sum : Kernel P D → ℕ × Kernel P D
  unfolding task_get_stack_item
  command0_sum k = let v2 = stack_item 1 k in let v1 = stack_item 0 k in (add32 v1 v2, k)

  -- `buffer` is what stands in `message_real_buffer` before.
  unfoldable pub command1_print :
      (buffer : List ℕ) → Terminal → Kernel P D → Option (ℕ × Terminal × Kernel P D)
  unfolding task_get_stack_item print
  command1_print buffer screen k =
      copy_string_from_task (running_task k).page_directory (stack_item 0 k) buffer 1024 k.store.ram
      >>= λ ((res, text), ram).
          print text screen >>= λ screen'. some (0, screen', with_memory ram k)

  unfoldable pub command2_putchar : Terminal → Kernel P D → ℕ × Terminal × Kernel P D
  unfolding task_get_stack_item terminal_writechar
  command2_putchar screen k = (0, terminal_writechar (u8 (stack_item 0 k)) default_colour screen, k)

  -- A `char` is sign extended.
  unfoldable pub command3_getkey : Kernel P D → ℕ × Kernel P D
  unfolding pop_from
  command3_getkey k =
      let p = own_process k in
      let (c, keyboard) = pop_from p.keyboard in
      (
        if ltb c 128 then c else c + 0xFFFFFF00,
        set_own_process (record p { keyboard = keyboard }) k.store.ram k,
      )

  unfoldable pub command4_malloc : Kernel P D → Option (ℕ × Kernel P D)
  unfolding task_get_stack_item process_malloc
  command4_malloc k =
      process_malloc (running_task k).page_directory (stack_item 0 k) (own_process k) k.store.ram
      >>= λ (ptr, p, ram). some (ptr, set_own_process p ram k)

  unfoldable pub command5_free : Kernel P D → ℕ × Kernel P D
  unfolding task_get_stack_item process_free
  command5_free k =
      let (p, ram) =
        process_free (running_task k).page_directory (stack_item 0 k) (own_process k) k.store.ram in
      (0, set_own_process p ram k)
