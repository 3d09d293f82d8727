-- ===== src/Idt.antt =====
-- src/idt/idt.c: the interrupt descriptor table, and the tables of callbacks and of system calls. The
-- addresses of the assembly stubs are parameters. Machine has the handlers.
pub mod Descriptors
mod Tests
use peach_os.Prelude.{
  ℕ, zero, suc, ◌+◌, ◌-◌, ◌*◌, Bool, true, false, not, ◌||◌, Option, none, some, List, [], ◌∷◌,
  ◌==◌, ltb, leb, ◌>>=◌, if◌then◌else◌, get_or, set, replicate, bit_and, shr, u16, ℤ, pos, negsuc,
}
use peach_os.Task.{Registers, Tasks, task_current_save_state, task_switch}

-- PEACHOS_TOTAL_INTERRUPTS and PEACHOS_MAX_ISR80H_COMMANDS
abbrev pub total_interrupts : ℕ
total_interrupts = 512

abbrev pub max_commands : ℕ
max_commands = 1024

-- KERNEL_CODE_SELECTOR
abbrev pub kernel_code_selector : ℕ
kernel_code_selector = 0x08

pub record IdtDesc : Type 0 where
  pub offset_1 : ℕ
  pub selector : ℕ
  pub zero_byte : ℕ
  pub type_attr : ℕ
  pub offset_2 : ℕ

abbrev pub zero_desc : IdtDesc
zero_desc = record { offset_1 = 0; selector = 0; zero_byte = 0; type_attr = 0; offset_2 = 0 }

unfoldable pub idt_set : (interrupt_no address : ℕ) → List IdtDesc → List IdtDesc
idt_set interrupt_no address descriptors = set descriptors interrupt_no (record {
  offset_1 = bit_and address 0x0000FFFF;
  selector = kernel_code_selector;
  zero_byte = 0x00;
  type_attr = 0xEE;
  offset_2 = u16 (shr address 16);
})

-- The loop of `idt_init` over the interrupts from `i` on; `pointers` is the table of the stubs.
unfoldable pub set_all : (rounds i : ℕ) → (pointers : ℕ → ℕ) → List IdtDesc → List IdtDesc
unfolding idt_set
set_all zero i pointers descriptors = descriptors
set_all (suc k) i pointers descriptors =
    set_all k (suc i) pointers (idt_set i (pointers i) descriptors)

-- The descriptors that `idt_init` loads.
unfoldable pub init_descriptors : (pointers : ℕ → ℕ) → (isr80h_wrapper : ℕ) → List IdtDesc
unfolding set_all idt_set
init_descriptors pointers isr80h_wrapper =
    idt_set 0x80 isr80h_wrapper
      (set_all total_interrupts 0 pointers (replicate total_interrupts zero_desc))

module _ {C : Type 0} where
  unfoldable pub idt_register_interrupt_callback : ℤ → C → List (Option C) → ℤ × List (Option C)
  idt_register_interrupt_callback (negsuc n) callback callbacks = (negsuc 1, callbacks)
  idt_register_interrupt_callback (pos n) callback callbacks =
      if leb total_interrupts n
      then (negsuc 1, callbacks)
      else (pos 0, set callbacks n (some callback))

  -- `none` is the panic.
  unfoldable pub isr80h_register_command : ℤ → C → List (Option C) → Option (List (Option C))
  isr80h_register_command (negsuc n) command_func commands = none
  isr80h_register_command (pos n) command_func commands =
      if leb max_commands n then none else elim (get_or commands n none) [
        | none ↦ some (set commands n (some command_func))
        | some c ↦ none
      ]

  -- The command that `isr80h_handle_command` calls, if it calls one.
  unfoldable pub find_command : ℤ → List (Option C) → Option C
  find_command (negsuc n) commands = none
  find_command (pos n) commands = if leb max_commands n then none else get_or commands n none

-- `kernel_page` and `task_page`; the segment registers are set by assembly.
unfoldable pub kernel_page : (kernel_directory : ℕ) → Tasks → Tasks
kernel_page kernel_directory s = record s { loaded = kernel_directory }

unfoldable pub task_page : Tasks → Tasks
unfolding task_switch
task_page s = task_switch s.current_task s
