-- ===== src/Boot/Tests.antt =====
-- A machine whose disk, when it is mounted, leaves blocks 0 to 3 and 5 to 8 of the heap in use.
use peach_os.Heap.{is_free}
use peach_os.KernelHeap.{Ram}
use peach_os.KernelHeap.Bump.{IsBump, HasGap}
use peach_os.Prelude.{
  ℕ, ℤ, negsuc, ◌==◌, ltb, if◌then◌else◌, ne→==, true, false, refl, ◌≡◌, none, some, arith,
  replicate, get_or, inr, pos, ◌+◌, ◌%◌,
}
use peach_os.Paging.{get_physical_address}
use peach_os.File.{Filesystem}
use peach_os.Idt.{find_command}
use peach_os.Isr80h.Register.{system_getkey}
use peach_os.Machine.{clock}
use peach_os.Boot.{Hardware, System, kernel_init}
use peach_os.Boot.Ready.{kernel_init-ready}

abbrev no_disk : Filesystem ℕ ℕ
no_disk = record {
  resolve = λ d. (pos 0, d);
  open_file = λ parts mode. inr 0;
  read = λ p size n. ((pos n, replicate size p), p);
  close = λ p. pos 0;
  seek = λ p offset whence. (pos 0, offset);
  stat = λ p. (pos 0, record { flags = 0; file_size = 10 });
}

abbrev mounted_entries : (ℤ → ℕ) → ℤ → ℕ
mounted_entries entries (negsuc n) = entries (negsuc n)
mounted_entries entries (pos n) =
    if n == 4 then entries (pos n) else if ltb n 9 then 1 else entries (pos n)

abbrev mounting : Ram → Ram
mounting ram = record ram { heap = record ram.heap { entries = mounted_entries ram.heap.entries } }

mounting-HasGap : (ram : Ram) → IsBump ram.heap 0 25600 → HasGap (mounting ram).heap 4 8 25591
unfolding is_free
mounting-HasGap ram b = record {
  aligned = b.aligned;
  above_null = b.above_null;
  below = omega arith;
  near = omega arith;
  inside = omega (arith, b.inside);
  addressed = omega (arith, b.addressed);
  used =
      λ j p q. rw (ne→== j 4 (λ e. omega arith), (let l : ltb j 9 ≡ true = ground arith in l)) refl;
  gap = b.unused 4 (omega arith) (omega arith);
  between =
      λ j p q. rw (ne→== j 4 (λ e. omega arith), (let l : ltb j 9 ≡ true = ground arith in l)) refl;
  unused = λ j p q.
      rw (ne→== j 4 (λ e. omega arith), (let l : ltb j 9 ≡ false = ground arith in l))
        (b.unused j (omega arith) (omega arith));
}

abbrev hardware : Hardware ℕ ℕ
hardware = record {
  screen = record { video_mem = λ p. 7; terminal_row = 3; terminal_col = 5 };
  entries = λ i. 9;
  heap = record { entries = λ i. 0; total = 0; saddr = 0 };
  bytes = λ p. p % 256;
  words = λ p. p;
  disk = 0;
  filesystem = no_disk;
  allocations = mounting;
  tss_address = 0x120000;
  pointers = λ n. 0x130000 + n;
  isr80h_wrapper = 0x140000;
}

kernel_init-ready_example :
    (system : System ℕ ℕ) × (kernel_init hardware ≡ some system)
    × (get_physical_address system.machine.kernel.store.ram.words system.machine.kernel.tasks.loaded
          0xB8000
        ≡ 0xB8000)
    × (get_or system.machine.callbacks 0x20 none ≡ some clock)
    × (find_command (pos 3) system.machine.commands ≡ some system_getkey)
kernel_init-ready_example =
    kernel_init-ready 4 8 24566 0xB8000 0x20 3 hardware mounting-HasGap (omega arith)
