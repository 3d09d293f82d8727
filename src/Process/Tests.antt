-- ===== src/Process/Tests.antt =====
-- A process with two slots, an empty heap, and the theorems of Process at them.
use peach_os.Prelude.{
  ℕ, negsuc, is_negative, true, ◌<◌, length, ◌≡◌, ◌≢◌, ◌⊎◌, inl, inr, refl, false, arith, none,
  some, [], ◌∷◌, ℤ, pos, get_or, set, Ensures, List, Option, sym, ap, replicate,
}
use peach_os.Heap.{Heap}
use peach_os.KernelHeap.{Ram}
use peach_os.KernelHeap.Alloc.{HasRun}
use peach_os.Task.{zero_task}
use peach_os.File.{Filesystem, Files, free_slot}
use peach_os.File.Kept.{ClosesAll}
use peach_os.Elf.Store.{Store, zero_file}
use peach_os.Process.{
  Process, no_allocation, process_malloc, process_free, process_ptr_belongs_to_process,
  process_count_commands,
}
use peach_os.Process.Load.{Kernel, process_load_data}
use peach_os.Process.Files.{HasRoom, process_load_data-Same}
use peach_os.Process.Start.{process_load}
use peach_os.Process.Terminate.{process_terminate}
use peach_os.Process.Slots.{FirstFree, here}
use peach_os.Process.Malloc.{process_free-process_malloc}
use peach_os.Process.Count.{begin, free_call, IsCounted, Reachable-IsCounted}
use peach_os.Process.Table.{InTable, process_terminate-InTable}
use peach_os.Process.Enter.{process_load-Enters}

abbrev empty_heap : Heap
empty_heap = record { entries = λ i. 0; total = 25600; saddr = 0x1000000 }

abbrev empty_ram : Ram
empty_ram = record { heap = empty_heap; bytes = λ p. 0; words = λ p. 0 }

abbrev shell : Process
shell = record {
  id = 1;
  filename = [];
  task = 0x1003000;
  active_allocations = 0;
  allocations = no_allocation ∷ no_allocation ∷ [];
  filetype = 1;
  program = 0x1004000;
  stack = 0x1005000;
  size = 16;
  keyboard = record { cells = []; tail = 0; head = 0 };
  argc = 0;
  argv = 0;
}

-- The process at 0x1002000 ends; the one at 0x1001000 is another.
abbrev two_processes : Kernel ℕ ℕ
two_processes = record {
  store = record { ram = empty_ram; files = []; elf_at = λ p. zero_file };
  tasks = record {
    at = λ p. zero_task;
    task_head = 0x1003000;
    task_tail = 0x1003000;
    current_task = 0x1003000;
    loaded = 0;
  };
  process_at = λ p. shell;
  processes = 0x1001000 ∷ 0x1002000 ∷ 0 ∷ [];
  current_process = 0x1002000;
}

empty_ram-HasRun : HasRun empty_ram.heap 5000 0
empty_ram-HasRun = record {
  positive = omega arith;
  aligned = refl;
  above_null = omega arith;
  near = omega arith;
  inside = omega arith;
  addressed = omega arith;
  used = λ j p q. absurd (omega arith);
  unused = λ j p q. refl;
}

shell-FirstFree : FirstFree shell.allocations 0
shell-FirstFree = here (no_allocation ∷ [])

shell-fresh : process_ptr_belongs_to_process shell.allocations 0x1000000 ≡ false
unfolding process_ptr_belongs_to_process
shell-fresh = refl

process_count_commands-two : process_count_commands ((b'a' ∷ []) ∷ (b'b' ∷ []) ∷ []) ≡ 2
unfolding process_count_commands
process_count_commands-two = refl

process_free-process_malloc_example :
    (r : ℕ × Process × Ram) × (process_malloc 0x2000000 5000 shell empty_ram ≡ some r)
    × (r.0 ≢ 0)
    × ((process_free 0x2000000 r.0 r.1 r.2).0 ≡ shell)
    × ((j : ℤ) → (process_free 0x2000000 r.0 r.1 r.2).1.heap.entries j ≡ 0)
process_free-process_malloc_example =
    process_free-process_malloc 0x2000000 5000 0 0 shell empty_ram empty_ram-HasRun shell-FirstFree
      shell-fresh (omega arith)

Reachable-IsCounted_example : IsCounted (process_free 0x2000000 0x1000000 shell empty_ram).0
Reachable-IsCounted_example =
    Reachable-IsCounted shell (process_free 0x2000000 0x1000000 shell empty_ram).0 refl
      (free_call 0x2000000 0x1000000 shell empty_ram begin (λ e. omega arith) (omega arith))

process_terminate-InTable_example :
    (k' : Kernel ℕ ℕ) × (process_terminate 0x1002000 two_processes ≡ some (pos 0, k'))
    × (get_or k'.processes 1 0 ≡ 0)
    × InTable k'.processes k'.current_process
process_terminate-InTable_example =
    process_terminate-InTable 0x1002000 0 two_processes (omega arith) (λ e. omega arith)
      (omega arith) (λ e. omega arith) (λ e. omega arith) (inl refl)

process_load-Enters_example :
    Ensures
      (λ ((res, process), k').
        (((j : ℕ) → j < length two_processes.processes → get_or two_processes.processes j 0 ≢ 0)
          × (res ≡ negsuc 7)
          × (process ≡ 0)
          × (k'.processes ≡ two_processes.processes))
        ⊎ ((i : ℕ) × (i < length two_processes.processes)
            × (get_or two_processes.processes i 0 ≡ 0)
            × ((j : ℕ) → j < i → get_or two_processes.processes j 0 ≢ 0)
            × (((is_negative res ≡ true) × (process ≡ 0) × (k'.processes ≡ two_processes.processes))
                ⊎ ((k'.processes ≡ set two_processes.processes i process)
                    × ((k'.process_at process).id ≡ i)))))
      (process_load none (b'0' ∷ b':' ∷ b'/' ∷ b'a' ∷ 0 ∷ []) two_processes)
process_load-Enters_example =
    process_load-Enters none (b'0' ∷ b':' ∷ b'/' ∷ b'a' ∷ 0 ∷ []) two_processes

-- A filesystem whose files have ten bytes.
abbrev ten_bytes : Filesystem ℕ Unit
ten_bytes = record {
  resolve = λ d. (pos 0, d);
  open_file = λ parts mode. inr 0;
  read = λ p size n. ((pos n, replicate size p), p);
  close = λ p. pos 0;
  seek = λ p offset whence. (pos 0, offset);
  stat = λ p. (pos 0, record { flags = 0; file_size = 10 });
}

ten_bytes-ClosesAll : (files : Files ℕ Unit) → ClosesAll (some ten_bytes) files
ten_bytes-ClosesAll files fs p m =
    ap (λ (o : Option (Filesystem ℕ Unit)). elim o [ none ↦ pos 0 | some f ↦ f.close p ]) (sym m)

abbrev two_slots : Store ℕ Unit
two_slots = record { ram = empty_ram; files = none ∷ none ∷ []; elf_at = λ p. zero_file }

-- "0:/a"
abbrev path_a : List ℕ
path_a = b'0' ∷ b':' ∷ b'/' ∷ b'a' ∷ 0 ∷ []

two_slots-HasRoom : HasRoom (some ten_bytes) ten_bytes-ClosesAll two_slots.files
unfolding free_slot
two_slots-HasRoom i e =
    omega (arith, ap {B = ℕ} (λ (o : Option ℕ). elim o [ none ↦ 0 | some k ↦ k ]) e)

process_load_data-Same_example :
    Ensures
      (λ ((r, s') : (ℤ × Process) × Store ℕ Unit). s'.files ≡ two_slots.files)
      (process_load_data (some ten_bytes) path_a shell two_slots)
process_load_data-Same_example =
    process_load_data-Same (some ten_bytes) ten_bytes-ClosesAll path_a shell two_slots
      two_slots-HasRoom
