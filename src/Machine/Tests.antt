-- ===== src/Machine/Tests.antt =====
-- Two tasks of one process: clock interrupts, and a key.
use peach_os.Prelude.{
  ℕ, ◌+◌, ◌%◌, ◌≡◌, inl, inr, get_or, refl, false, some, none, [], ◌∷◌, ◌++◌, ◌==◌, if◌then◌else◌,
  arith, replicate, length-replicate, get_or-replicate, pos,
}
use peach_os.Keyboard.{KeyboardBuffer, Driver, scancode_to_char}
use peach_os.Keyboard.Fifo.{Holds}
use peach_os.Task.{Registers, Task, Tasks, zero_task, zero_registers}
use peach_os.Task.Queue.{IsQueue}
use peach_os.Idt.{find_command}
use peach_os.Elf.Store.{zero_file}
use peach_os.Process.Load.{process_init}
use peach_os.Isr80h.{own_process}
use peach_os.Isr80h.Register.{system_getkey}
use peach_os.Machine.{Machine, exception, clock, keyboard, interrupt_handler}
use peach_os.Machine.Exceptions.{interrupt_handler-exception}
use peach_os.Process.Table.{InTable}
use peach_os.Machine.Calls.{isr80h_handler}
use peach_os.Machine.Clock.{ticks, ticks-round}
use peach_os.Machine.Keys.{getkey-key}

abbrev task_at : ℕ → Task
task_at p =
    if p == 0x100
    then record zero_task { next = 0x200; process = 0x5000 }
    else record zero_task { prev = 0x100; process = 0x5000 }

abbrev two_tasks : Tasks
two_tasks = record {
  at = task_at;
  task_head = 0x100;
  task_tail = 0x200;
  current_task = 0x100;
  loaded = 0;
}

two_tasks-IsQueue : IsQueue two_tasks (0x100 ∷ 0x200 ∷ [])
two_tasks-IsQueue = record {
  links = (λ e. omega arith, refl, refl, (λ e. omega arith, refl, refl, tt));
  distinct = ((λ e. omega arith, tt), (tt, tt));
  head = refl;
  tail = refl;
}

abbrev no_keys : KeyboardBuffer
no_keys = record { cells = replicate 1024 0; tail = 0; head = 0 }

abbrev ps2 : Driver
ps2 = record { init = some (pos 0); capslock_on = false }

abbrev machine : Machine ℕ ℕ
machine = record {
  screen = record { video_mem = λ p. 0; terminal_row = 0; terminal_col = 0 };
  kernel = record {
    store = record {
      ram = record {
        heap = record { entries = λ i. 0; total = 25600; saddr = 0x1000000 };
        bytes = λ p. 0;
        words = λ p. 0;
      };
      files = [];
      elf_at = λ p. zero_file;
    };
    tasks = two_tasks;
    process_at = λ p. record process_init { keyboard = no_keys };
    processes = 0x5000 ∷ [];
    current_process = 0x5000;
  };
  driver = ps2;
  callbacks = replicate 0x20 none ++ some clock ∷ some keyboard ∷ [];
  commands = none ∷ none ∷ none ∷ some system_getkey ∷ [];
  mounted = none;
  kernel_chunk = 0;
}

abbrev busy : Registers
busy = record zero_registers { eax = 7 }

no_keys-Holds : Holds no_keys []
no_keys-Holds = record {
  size = length-replicate {A = ℕ} 1024 0;
  head_word = omega arith;
  count = refl;
  fits = omega arith;
  keys = tt;
  cells = λ i h. get_or-replicate {A = ℕ} 1024 ((0 + i) % 1024) 0;
}

key_a : scancode_to_char 0x1E ps2 0 ≡ b'a'
unfolding scancode_to_char
key_a = refl

getkey-registered : find_command (pos 3) machine.commands ≡ some system_getkey
unfolding find_command
getkey-registered = refl

ticks-round_example :
    ticks 0 0 (busy ∷ zero_registers ∷ []) machine
    ≡ some ((0x200, zero_registers) ∷ (0x100, busy) ∷ [])
ticks-round_example =
    ticks-round 0 0 [] (0x200 ∷ []) 0x100 busy (zero_registers ∷ []) machine refl two_tasks-IsQueue
      refl refl

getkey-key_example :
    (m1 : Machine ℕ ℕ) × (m2 : Machine ℕ ℕ) × (interrupt_handler 0x21 0x1E 0 zero_registers machine
      ≡ some (none, m1))
    × (isr80h_handler [] 0 (pos 3) busy m1 ≡ some (inl b'a', m2))
    × Holds (own_process m2.kernel).keyboard []
    × (m2.kernel.process_at 0x6000 ≡ machine.kernel.process_at 0x6000)
getkey-key_example =
    getkey-key [] 0 0x1E 0 b'a' b'a' 0x6000 [] [] zero_registers busy machine refl getkey-registered
      (λ e. omega arith) (λ e. omega arith) refl no_keys-Holds (omega arith) refl (λ e. omega arith)
      key_a (λ e. omega arith) refl (λ e. omega arith)

-- Three tasks, one of each of three programs; the one in the middle runs.
abbrev third_at : ℕ → Task
third_at p =
    if p == 0x100
    then record zero_task { next = 0x200; process = 0x5000 }
    else if p == 0x200
    then record zero_task { prev = 0x100; next = 0x300; process = 0x6000 }
    else record zero_task { prev = 0x200; process = 0x5000 }

abbrev three_tasks : Tasks
three_tasks = record {
  at = third_at;
  task_head = 0x100;
  task_tail = 0x300;
  current_task = 0x200;
  loaded = 0x200;
}

three_tasks-IsQueue : IsQueue three_tasks (0x100 ∷ 0x200 ∷ 0x300 ∷ [])
three_tasks-IsQueue = record {
  links = (
    λ e. omega arith,
    refl,
    refl,
    (λ e. omega arith, refl, refl, (λ e. omega arith, refl, refl, tt)),
  );
  distinct = ((λ e. omega arith, (λ e. omega arith, tt)), ((λ e. omega arith, tt), (tt, tt)));
  head = refl;
  tail = refl;
}

abbrev faulting : Machine ℕ ℕ
faulting = record machine {
  kernel = record machine.kernel {
    tasks = three_tasks;
    process_at = λ p. record process_init { id = 1; task = 0x200; filetype = 1 };
    processes = 0x5000 ∷ 0x6000 ∷ [];
  };
  callbacks = some exception ∷ [];
}

interrupt_handler-exception_example :
    (registers : Registers) × (m' : Machine ℕ ℕ) × (interrupt_handler 0 0 0 busy faulting
      ≡ some (some registers, m'))
    × (get_or m'.kernel.processes 1 0 ≡ 0)
    × InTable m'.kernel.processes m'.kernel.current_process
    × (m'.kernel.tasks.current_task ≡ 0x100)
interrupt_handler-exception_example =
    interrupt_handler-exception 0 0 0 0 0x100 0x200 0x300 [] [] busy faulting refl
      three_tasks-IsQueue refl (omega arith) refl (omega arith) (λ e. omega arith)
      (λ e. omega arith) (inr refl)
