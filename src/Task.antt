-- ===== src/Task.antt =====
-- src/task/task.c: the list of tasks and the task that runs. Tasks are found by their addresses, and 0
-- is the null pointer. A switch loads the page directory of a task; `user_registers` and the return to
-- the task are assembly, and `paging_free_4gb` and `kfree` change no task.
pub mod Queue
pub mod Remove
pub mod Skip
pub mod Memory
pub mod Copy
pub mod Turns
mod Tests
use peach_os.Prelude.{ℕ, zero, suc, Bool, true, false, not, Option, none, some, ◌==◌, if◌then◌else◌}

pub record Registers : Type 0 where
  pub edi : ℕ
  pub esi : ℕ
  pub ebp : ℕ
  pub ebx : ℕ
  pub edx : ℕ
  pub ecx : ℕ
  pub eax : ℕ
  pub ip : ℕ
  pub cs : ℕ
  pub flags : ℕ
  pub esp : ℕ
  pub ss : ℕ

pub record Task : Type 0 where
  pub page_directory : ℕ
  pub registers : Registers
  pub process : ℕ
  pub next : ℕ
  pub prev : ℕ

-- The tasks by their addresses, the two ends of the list, the current task, and the page directory
-- that is loaded.
pub record Tasks : Type 0 where
  pub at : ℕ → Task
  pub task_head : ℕ
  pub task_tail : ℕ
  pub current_task : ℕ
  pub loaded : ℕ

-- What the code reads of a process: its address, and the entry point if it is an ELF file.
pub record Process : Type 0 where
  pub address : ℕ
  pub elf_entry : Option ℕ

abbrev pub program_virtual_address : ℕ
program_virtual_address = 0x400000

abbrev pub stack_address_start : ℕ
stack_address_start = 0x3FF000

abbrev pub user_data_segment : ℕ
user_data_segment = 0x23

abbrev pub user_code_segment : ℕ
user_code_segment = 0x1B

abbrev pub zero_registers : Registers
zero_registers = record {
  edi = 0;
  esi = 0;
  ebp = 0;
  ebx = 0;
  edx = 0;
  ecx = 0;
  eax = 0;
  ip = 0;
  cs = 0;
  flags = 0;
  esp = 0;
  ss = 0;
}

abbrev pub zero_task : Task
zero_task = record {
  page_directory = 0;
  registers = zero_registers;
  process = 0;
  next = 0;
  prev = 0;
}

-- A write to one task.
abbrev pub update : (ℕ → Task) → ℕ → Task → ℕ → Task
update ts p task q = if q == p then task else ts q

abbrev pub set_next : (ℕ → Task) → (p q : ℕ) → ℕ → Task
set_next ts p q = update ts p (record (ts p) { next = q })

abbrev pub set_prev : (ℕ → Task) → (p q : ℕ) → ℕ → Task
set_prev ts p q = update ts p (record (ts p) { prev = q })

-- `none` is a read through the null pointer.
unfoldable pub task_get_next : Tasks → Option ℕ
task_get_next s =
    if s.current_task == 0
    then none
    else let next = (s.at s.current_task).next in some (if next == 0 then s.task_head else next)

-- The four tests of `task_list_remove`, in their order.
unfoldable pub unlink : ℕ → Tasks → Tasks
unlink task s =
    if not ((s.at task).prev == 0)
    then record s { at = set_next s.at (s.at task).prev (s.at task).next }
    else s

unfoldable pub move_head : ℕ → Tasks → Tasks
move_head task s = if task == s.task_head then record s { task_head = (s.at task).next } else s

unfoldable pub move_tail : ℕ → Tasks → Tasks
move_tail task s = if task == s.task_tail then record s { task_tail = (s.at task).prev } else s

unfoldable pub move_current : ℕ → Tasks → Option Tasks
unfolding task_get_next
move_current task s =
    if task == s.current_task
    then (elim (task_get_next s) [ none ↦ none | some t ↦ some (record s { current_task = t }) ])
    else some s

unfoldable pub task_list_remove : ℕ → Tasks → Option Tasks
unfolding unlink move_head move_tail move_current
task_list_remove task s = move_current task (move_tail task (move_head task (unlink task s)))

-- The task of a process with its page directory, and `task_init`, where `directory` is what
-- `paging_new_4gb` answers and `none` is `-EIO`.
abbrev pub initial_task : Process → (directory : ℕ) → Task
initial_task process directory = record zero_task {
  page_directory = directory;
  process = process.address;
  registers = record zero_registers {
    ip = elim process.elf_entry [ none ↦ program_virtual_address | some entry ↦ entry ];
    ss = user_data_segment;
    cs = user_code_segment;
    esp = stack_address_start;
  };
}

unfoldable pub task_init : Process → (directory : ℕ) → Option Task
task_init process directory = if directory == 0 then none else some (initial_task process directory)

-- `task` is the address that `kzalloc` answers. `none` is a task without memory or without a page
-- directory: the code then frees the null page directory.
unfoldable pub task_new : ℕ → Process → (directory : ℕ) → Tasks → Option Tasks
unfolding task_init
task_new task process directory s = if task == 0 then none else elim (task_init process directory) [
  | none ↦ none
  | some t ↦
      let s1 = record s { at = update s.at task t } in
      if s1.task_head == 0
      then some (record s1 { task_head = task; task_tail = task; current_task = task })
      else let s2 = record s1 { at = set_next s1.at s1.task_tail task } in
        let s3 = record s2 { at = set_prev s2.at task s2.task_tail } in
        some (record s3 { task_tail = task })
]

-- The frame that an interrupt pushes has the fields of the registers.
unfoldable pub task_save_frame : ℕ → (frame : Registers) → Tasks → Tasks
task_save_frame task frame s = record s {
  at = update s.at task (record (s.at task) { registers = frame });
}

-- `none` is the panic.
unfoldable pub task_current_save_state : (frame : Registers) → Tasks → Option Tasks
unfolding task_save_frame
task_current_save_state frame s =
    if s.current_task == 0 then none else some (task_save_frame s.current_task frame s)

unfoldable pub task_switch : ℕ → Tasks → Tasks
task_switch task s = record s { current_task = task; loaded = (s.at task).page_directory }

-- The registers that are returned to, and the tasks.
unfoldable pub task_next : Tasks → Option (Registers × Tasks)
unfolding task_get_next task_switch
task_next s = elim (task_get_next s) [
  | none ↦ none
  | some next_task ↦
      if next_task == 0 then none else some ((s.at next_task).registers, task_switch next_task s)
]

unfoldable pub task_run_first_ever_task : Tasks → Option (Registers × Tasks)
unfolding task_switch
task_run_first_ever_task s =
    if s.current_task == 0
    then none
    else some ((s.at s.task_head).registers, task_switch s.task_head s)
