-- ===== src/Isr80h/Tests.antt =====
-- System calls of a program at address 0x5000, whose stack holds the number 8.
use peach_os.Prelude.{ℕ, ◌≡◌, refl, true, arith, some, none, ◌>>=◌, [], ◌∷◌, replicate, get_or}
use peach_os.KernelHeap.Alloc.{HasRun}
use peach_os.Task.{Tasks, zero_task, zero_registers}
use peach_os.Elf.Store.{zero_file}
use peach_os.Process.{Process, no_allocation, process_ptr_belongs_to_process}
use peach_os.Process.Load.{Kernel}
use peach_os.Process.Slots.{FirstFree, here}
use peach_os.Isr80h.{own_process, stack_item, command4_malloc}
use peach_os.Isr80h.Heap.{command4_malloc_lem}
use peach_os.Isr80h.Register.{system_malloc, isr80h_register_all_commands}

abbrev program : Process
program = record {
  id = 0;
  filename = [];
  task = 0x4000;
  active_allocations = 0;
  allocations = no_allocation ∷ [];
  filetype = 1;
  program = 0x6000;
  stack = 0x7000;
  size = 16;
  keyboard = record { cells = []; tail = 0; head = 0 };
  argc = 0;
  argv = 0;
}

-- All words are 8: the entries of the page tables give frame 0.
abbrev running : Kernel ℕ ℕ
running = record {
  store = record {
    ram = record {
      heap = record { entries = λ i. 0; total = 25600; saddr = 0x1000000 };
      bytes = λ p. 0;
      words = λ p. 8;
    };
    files = [];
    elf_at = λ p. zero_file;
  };
  tasks = record {
    at = λ p. record zero_task { process = 0x5000; page_directory = 0x2000 };
    task_head = 0x4000;
    task_tail = 0x4000;
    current_task = 0x4000;
    loaded = 0;
  };
  process_at = λ p. program;
  processes = 0x5000 ∷ [];
  current_process = 0x5000;
}

running-HasRun : HasRun running.store.ram.heap (stack_item 0 running) 0
unfolding peach_os.Task.Memory.task_get_stack_item
running-HasRun = record {
  positive = omega arith;
  aligned = refl;
  above_null = omega arith;
  near = omega arith;
  inside = omega arith;
  addressed = omega arith;
  used = λ j p q. absurd (omega arith);
  unused = λ j p q. refl;
}

running-FirstFree : FirstFree (own_process running).allocations 0
running-FirstFree = here []

register-malloc :
    (isr80h_register_all_commands (replicate 9 none) >>= λ table. get_or table 4 none)
    ≡ some system_malloc
unfolding isr80h_register_all_commands
register-malloc = refl

command4_malloc_lem_example :
    (k' : Kernel ℕ ℕ) × (command4_malloc running ≡ some (0x1000000, k'))
    × (process_ptr_belongs_to_process (own_process k').allocations 0x1000000 ≡ true)
    × (k'.process_at 0x9000 ≡ program)
command4_malloc_lem_example =
    command4_malloc_lem 0 0 running 0x9000 running-HasRun running-FirstFree (λ e. omega arith)
