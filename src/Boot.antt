-- ===== src/Boot.antt =====
-- src/kernel.c: the start of the kernel. What stands in memory before, the disk, the filesystem and the
-- addresses that the linker gives are parameters; loading the descriptor tables and turning paging on are
-- assembly. `none` is a panic.
pub mod FreshHeap
pub mod Tables
pub mod Ready
mod Tests
use peach_os.Prelude.{
  ℕ, ◌+◌, Option, none, some, ◌>>=◌, List, [], ◌∷◌, replicate, ℤ, pos, is_negative, eq_ℤ, not,
  if◌then◌else◌, false,
}
use peach_os.CString.{strcpy}
use peach_os.Heap.{Heap}
use peach_os.KernelHeap.{Ram, kheap_init}
use peach_os.Paging.Chunk.{new_4gb, is_present, is_writeable, access_from_all}
use peach_os.Gdt.{Gdt, GdtStructured, structured_to_gdt}
use peach_os.File.{Filesystem, fs_init, fs_insert_filesystem, fs_resolve}
use peach_os.Terminal.{Terminal, terminal_initialize, print, println}
use peach_os.Keyboard.{Driver, insert, set_capslock}
use peach_os.Task.{Registers, Tasks, zero_task, task_run_first_ever_task}
use peach_os.Elf.Store.{zero_file}
use peach_os.Idt.{IdtDesc, init_descriptors, total_interrupts, max_commands}
use peach_os.Process.{max_processes, process_inject_arguments}
use peach_os.Process.Load.{Kernel, process_init, set_process}
use peach_os.Process.Start.{with_memory, process_load_switch}
use peach_os.Isr80h.Register.{SystemCommand, isr80h_register_all_commands}
use peach_os.Machine.{Machine, init_callbacks, keyboard_callbacks, with_tasks}

-- PEACHOS_MAX_FILESYSTEMS
abbrev pub max_filesystems : ℕ
max_filesystems = 12

-- The fields of `struct tss` that are not 0.
pub record Tss : Type 0 where
  pub esp0 : ℕ
  pub ss0 : ℕ

abbrev pub kernel_tss : Tss
kernel_tss = record { esp0 = 0x600000; ss0 = 0x10 }

-- `sizeof(tss)` is 100.
abbrev pub gdt_structured : (tss_address : ℕ) → List GdtStructured
gdt_structured tss_address =
    record { base = 0x00; limit = 0x00; type = 0x00 }
    ∷ record { base = 0x00; limit = 0xFFFFFFFF; type = 0x9A }
    ∷ record { base = 0x00; limit = 0xFFFFFFFF; type = 0x92 }
    ∷ record { base = 0x00; limit = 0xFFFFFFFF; type = 0xF8 }
    ∷ record { base = 0x00; limit = 0xFFFFFFFF; type = 0xF2 }
    ∷ record { base = tss_address; limit = 100; type = 0xE9 }
    ∷ []

-- What the kernel finds. `allocations` is what mounting the disk leaves of the memory: the filesystem's
-- functions do not show what they allocate. That of FAT16 leaves a gap in the heap: the stream that it
-- frees stands before the root directory.
pub record Hardware (P D : Type 0) : Type 0 where
  pub screen : Terminal
  pub entries : ℤ → ℕ
  pub heap : Heap
  pub bytes : ℕ → ℕ
  pub words : ℕ → ℕ
  pub disk : D
  pub filesystem : Filesystem P D
  pub allocations : Ram → Ram
  pub tss_address : ℕ
  pub pointers : ℕ → ℕ
  pub isr80h_wrapper : ℕ

-- What it makes of it, with the descriptor tables.
pub record System (P D : Type 0) : Type 0 where
  pub machine : Machine P D
  pub gdt : List Gdt
  pub idt : List IdtDesc
  pub tss : Tss
  pub disk : D
  pub keyboards : List Driver

-- "Initialised heap"
abbrev pub initialised_heap : List ℕ
initialised_heap =
    b'I' ∷ b'n' ∷ b'i' ∷ b't' ∷ b'i' ∷ b'a' ∷ b'l' ∷ b'i' ∷ b's' ∷ b'e' ∷ b'd' ∷ b' ' ∷ b'h' ∷ b'e'
    ∷ b'a' ∷ b'p' ∷ 0 ∷ []

-- "Initialised IDT", "Enabled paging" and "\n"
abbrev pub initialised_idt : List ℕ
initialised_idt =
    b'I' ∷ b'n' ∷ b'i' ∷ b't' ∷ b'i' ∷ b'a' ∷ b'l' ∷ b'i' ∷ b's' ∷ b'e' ∷ b'd' ∷ b' ' ∷ b'I' ∷ b'D'
    ∷ b'T' ∷ 0 ∷ []

abbrev pub enabled_paging : List ℕ
enabled_paging =
    b'E' ∷ b'n' ∷ b'a' ∷ b'b' ∷ b'l' ∷ b'e' ∷ b'd' ∷ b' ' ∷ b'p' ∷ b'a' ∷ b'g' ∷ b'i' ∷ b'n' ∷ b'g'
    ∷ 0 ∷ []

abbrev pub line_end : List ℕ
line_end = 10 ∷ 0 ∷ []

-- "0:/blank.elf"
abbrev blank : List ℕ
blank = b'0' ∷ b':' ∷ b'/' ∷ b'b' ∷ b'l' ∷ b'a' ∷ b'n' ∷ b'k' ∷ b'.' ∷ b'e' ∷ b'l' ∷ b'f' ∷ 0 ∷ []

-- "Booting PeachOS....\n"
abbrev booting : List ℕ
booting =
    b'B' ∷ b'o' ∷ b'o' ∷ b't' ∷ b'i' ∷ b'n' ∷ b'g' ∷ b' ' ∷ b'P' ∷ b'e' ∷ b'a' ∷ b'c' ∷ b'h' ∷ b'O'
    ∷ b'S' ∷ b'.' ∷ b'.' ∷ b'.' ∷ b'.' ∷ 10 ∷ 0 ∷ []

-- `classic_keyboard` after `classic_keyboard_init`.
abbrev pub classic_keyboard : Driver
classic_keyboard = record { init = some (pos 0); capslock_on = false }

-- No task and no process; the page directory is the kernel's.
abbrev pub no_tasks : (directory : ℕ) → Tasks
no_tasks directory = record {
  at = λ p. zero_task;
  task_head = 0;
  task_tail = 0;
  current_task = 0;
  loaded = directory;
}

module _ {P D : Type 0} where
  abbrev pub first_kernel : (chunk : ℕ) → Ram → Kernel P D
  first_kernel chunk ram = record {
    store = record { ram = ram; files = fs_init P D; elf_at = λ p. zero_file };
    tasks = no_tasks (ram.words chunk);
    process_at = λ p. process_init;
    processes = replicate max_processes 0;
    current_process = 0;
  }

  unfoldable pub kernel_init : Hardware P D → Option (System P D)
  kernel_init h = terminal_initialize h.screen >>= λ screen1.
      structured_to_gdt (gdt_structured h.tss_address) >>= λ gdt.
      kheap_init h.entries h.heap >>= λ heap. println initialised_heap screen1 >>= λ screen_heap.
      fs_insert_filesystem h.filesystem (replicate max_filesystems none) >>= λ filesystems.
      let (mounted, disk) = fs_resolve filesystems h.disk in
      let ram = h.allocations (record { heap = heap; bytes = h.bytes; words = h.words }) in
      println initialised_idt screen_heap >>= λ screen2.
      new_4gb (is_writeable + is_present + access_from_all) ram >>= λ (chunk, ram').
      println enabled_paging screen2 >>= λ screen3.
      isr80h_register_all_commands (replicate max_commands none) >>= λ commands.
      print line_end screen3 >>= λ screen4. some (record {
        machine = record {
          screen = screen4;
          kernel = first_kernel chunk ram';
          driver = classic_keyboard;
          callbacks = keyboard_callbacks (init_callbacks (replicate total_interrupts none));
          commands = commands;
          mounted = mounted;
          kernel_chunk = chunk;
        };
        gdt = gdt;
        idt = init_descriptors h.pointers h.isr80h_wrapper;
        tss = kernel_tss;
        disk = disk;
        keyboards = (insert classic_keyboard []).1;
      })

  -- The text of an argument in its array, which holds `buffer` before. The code leaves `next`
  -- uninitialised: `behind` are the arguments that it leads to. The result of injecting is not tested.
  unfoldable pub start_blank :
      Option (Filesystem P D)
      → (argument buffer : List ℕ) → (behind : List (List ℕ)) → Kernel P D
      → Option (Kernel P D)
  unfolding process_load_switch strcpy process_inject_arguments
  start_blank mounted argument buffer behind k =
      process_load_switch mounted blank k >>= λ ((res, process), k1).
      if not (eq_ℤ res (pos 0))
      then none
      else strcpy buffer argument >>= λ text.
          let p = k1.process_at process in
          process_inject_arguments (k1.tasks.at p.task).page_directory (text ∷ behind) p
            k1.store.ram
          >>= λ (res', p', ram).
              some
                (record (with_memory ram k1) { process_at = set_process k1.process_at process p' })

  -- The registers of the first task, and the machine when it runs.
  unfoldable pub kernel_main :
      Hardware P D
      → (buffer : List ℕ) → (behind behind_2 : List (List ℕ)) → Option (Registers × System P D)
  unfolding kernel_init println start_blank task_run_first_ever_task
  kernel_main h buffer behind behind_2 = kernel_init h >>= λ system.
      let m = system.machine in
      println booting m.screen >>= λ screen.
      start_blank m.mounted (b'T' ∷ b'W' ∷ b'O' ∷ 0 ∷ []) buffer behind m.kernel >>= λ k1.
      start_blank m.mounted (b'O' ∷ b'N' ∷ b'E' ∷ 0 ∷ []) buffer behind_2 k1 >>= λ k2.
      task_run_first_ever_task k2.tasks >>= λ (registers, tasks). some (
        registers,
        record system {
          machine = record m { screen = screen; kernel = record k2 { tasks = tasks } };
        },
      )
