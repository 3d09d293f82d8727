-- ===== src/Machine.antt =====
-- The machine as src/idt/idt.c sees it: the interrupts and the system calls over the whole kernel,
-- with the screen of Terminal, the processes of Process and the keyboard of Keyboard. A step answers
-- where the processor goes on: in the program that was interrupted, or in a task with its registers.
-- `none` is a panic or a fault; the acknowledgement to the interrupt controller is left out.
pub mod Calls
pub mod Dispatch
pub mod Clock
pub mod Keys
pub mod Exceptions
mod Tests
use peach_os.Prelude.{
  ℕ, zero, suc, ◌+◌, Option, none, some, ◌>>=◌, List, [], ◌∷◌, ◌==◌, if◌then◌else◌, get_or,
  replicate, ℤ, pos,
}
use peach_os.Terminal.{Terminal, println}
use peach_os.Keyboard.{Driver, handle_interrupt}
use peach_os.File.{Filesystem}
use peach_os.Task.{Registers, Tasks, task_current_save_state, task_next}
use peach_os.Idt.{idt_register_interrupt_callback, kernel_page, task_page, total_interrupts}
use peach_os.Process.Load.{Kernel, set_process}
use peach_os.Process.Terminate.{process_terminate}
use peach_os.Isr80h.{running_task}
use peach_os.Isr80h.Register.{SystemCommand}

-- The functions that are registered for interrupts: `idt_handle_exception`, `idt_zero`, `idt_clock` and
-- `classic_keyboard_handle_interrupt`.
pub data Callback : Type 0 where
  exception : Callback
  zero_division : Callback
  clock : Callback
  keyboard : Callback

pub record Machine (P D : Type 0) : Type 0 where
  pub screen : Terminal
  pub kernel : Kernel P D
  pub driver : Driver
  pub callbacks : List (Option Callback)
  pub commands : List (Option SystemCommand)
  pub mounted : Option (Filesystem P D)
  pub kernel_chunk : ℕ

-- The loop of `idt_init` over the exceptions from `i` on.
unfoldable pub register_exceptions :
    (rounds i : ℕ) → List (Option Callback) → List (Option Callback)
unfolding idt_register_interrupt_callback
register_exceptions zero i callbacks = callbacks
register_exceptions (suc k) i callbacks =
    register_exceptions k (suc i) (idt_register_interrupt_callback (pos i) exception callbacks).1

-- The callbacks that `idt_init` registers.
unfoldable pub init_callbacks : List (Option Callback) → List (Option Callback)
unfolding register_exceptions idt_register_interrupt_callback
init_callbacks callbacks =
    let exceptions = register_exceptions 0x20 0 callbacks in
    let zeroed = (idt_register_interrupt_callback (pos 0) zero_division exceptions).1 in
    (idt_register_interrupt_callback (pos 0x20) clock zeroed).1

-- What `classic_keyboard_init` registers.
unfoldable pub keyboard_callbacks : List (Option Callback) → List (Option Callback)
unfolding idt_register_interrupt_callback
keyboard_callbacks callbacks = (idt_register_interrupt_callback (pos 0x21) keyboard callbacks).1

-- "\nException reached"
abbrev pub exception_reached : List ℕ
exception_reached =
    10 ∷ b'E' ∷ b'x' ∷ b'c' ∷ b'e' ∷ b'p' ∷ b't' ∷ b'i' ∷ b'o' ∷ b'n' ∷ b' ' ∷ b'r' ∷ b'e' ∷ b'a'
    ∷ b'c' ∷ b'h' ∷ b'e' ∷ b'd' ∷ 0 ∷ []

module _ {P D : Type 0} where
  abbrev pub with_tasks : Tasks → Machine P D → Machine P D
  with_tasks tasks m = record m { kernel = record m.kernel { tasks = tasks } }

  -- `task_next` does not return.
  unfoldable pub idt_clock : Machine P D → Option (Registers × Machine P D)
  unfolding task_next
  idt_clock m =
      task_next m.kernel.tasks >>= λ (registers, tasks). some (registers, with_tasks tasks m)

  -- Without the line that `process_terminate` prints.
  unfoldable pub idt_handle_exception : Machine P D → Option (Registers × Machine P D)
  idt_handle_exception m = println exception_reached m.screen >>= λ screen.
      process_terminate (running_task m.kernel).process m.kernel >>= λ (res, k).
      task_next k.tasks >>= λ (registers, tasks).
      some (registers, record m { screen = screen; kernel = record k { tasks = tasks } })

  -- `scancode` is what the keyboard's port holds, and `memory` what follows the table of characters.
  -- The character goes to the current process.
  unfoldable pub keyboard_interrupt : (scancode memory : ℕ) → Machine P D → Machine P D
  unfolding handle_interrupt
  keyboard_interrupt scancode memory m =
      let k = m.kernel in
      let p = k.process_at k.current_process in
      let shown = if k.current_process == 0 then none else some p.keyboard in
      let (driver, pushed) = handle_interrupt scancode memory m.driver shown in
      record m {
        driver = driver;
        kernel = record k {
          process_at = elim pushed [
            | none ↦ k.process_at
            | some buffer ↦
                set_process k.process_at k.current_process (record p { keyboard = buffer })
          ];
        };
      }

  -- Where the callback goes on; `none` inside is the interrupted program.
  unfoldable pub run_callback :
      Callback → (scancode memory : ℕ) → Machine P D → Option (Option Registers × Machine P D)
  unfolding idt_clock idt_handle_exception keyboard_interrupt
  run_callback exception scancode memory m =
      idt_handle_exception m >>= λ (registers, m'). some (some registers, m')
  run_callback zero_division scancode memory m = none
  run_callback clock scancode memory m =
      idt_clock m >>= λ (registers, m'). some (some registers, m')
  run_callback keyboard scancode memory m = some (none, keyboard_interrupt scancode memory m)

  -- `kernel_page`: the directory of the kernel's chunk.
  abbrev pub enter_kernel : Machine P D → Machine P D
  enter_kernel m =
      with_tasks (kernel_page (m.kernel.store.ram.words m.kernel_chunk) m.kernel.tasks) m

  -- A callback that does not return leaves no page to be loaded.
  unfoldable pub leave : Option Registers × Machine P D → Option Registers × Machine P D
  unfolding task_page
  leave (none, m) = (none, with_tasks (task_page m.kernel.tasks) m)
  leave (some registers, m) = (some registers, m)

  unfoldable pub interrupt_handler :
      (interrupt : ℕ)
      → (scancode memory : ℕ) → (frame : Registers) → Machine P D
      → Option (Option Registers × Machine P D)
  unfolding run_callback leave kernel_page task_current_save_state
  interrupt_handler interrupt scancode memory frame m =
      let m1 = enter_kernel m in
      elim (get_or m.callbacks interrupt none) [
        | none ↦ some (leave (none, m1))
        | some callback ↦ task_current_save_state frame m1.kernel.tasks >>= λ tasks.
            run_callback callback scancode memory (with_tasks tasks m1) >>= λ r. some (leave r)
      ]
