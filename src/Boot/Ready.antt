-- ===== src/Boot/Ready.antt =====
-- What stands when the kernel has started.
use peach_os.Prelude.{
  ℕ, ◌+◌, ◌^◌, ◌<◌, ◌≡◌, refl, arith, Option, none, some, List, [], get_or, get_elem?, take,
  replicate, pos,
}
use peach_os.KernelHeap.{Ram}
use peach_os.KernelHeap.Bump.{IsBump, HasGap}
use peach_os.Paging.{get_physical_address}
use peach_os.Paging.Identity.{new_4gb-gap}
use peach_os.Terminal.Print.{line_written, print-some, println-some}
use peach_os.Terminal.{
  Terminal, default_colour, vga_height, initialised, clear_rows, write_all, terminal_writechar,
  terminal_initialize,
}
use peach_os.File.{Filesystem, free_slot, fs_insert_filesystem, fs_resolve}
use peach_os.Idt.{find_command, init_descriptors, total_interrupts}
use peach_os.Isr80h.Register.{all_commands}
use peach_os.Machine.{init_callbacks, keyboard_callbacks}
use peach_os.Boot.{
  Hardware, System, initialised_heap, initialised_idt, enabled_paging, line_end, kernel_tss,
  classic_keyboard, max_filesystems, first_kernel, kernel_init,
}
use peach_os.Boot.FreshHeap.{kheap_init-IsBump}
use peach_os.Keyboard.{insert}
use peach_os.Boot.Tables.{
  commands, callback, callbacks-at, isr80h_register_all_commands-some, find_command-commands,
  gdt-some,
}

terminal_initialize-some : (s : Terminal) → (s' : Terminal) × (terminal_initialize s ≡ some s')
unfolding terminal_initialize
terminal_initialize-some s =
    let blank = clear_rows vga_height 0 (record s { terminal_row = 0; terminal_col = 0 }) in
    (
      terminal_writechar 10 default_colour (write_all (take 20 initialised) default_colour blank),
      println-some (take 20 initialised) [] blank (omega arith),
    )

module _ {P D : Type 0} where
  insert-some :
      (fs : Filesystem P D)
      → (fss : List (Option (Filesystem P D))) × (fs_insert_filesystem fs
            (replicate max_filesystems none)
          ≡ some fss)
  unfolding fs_insert_filesystem free_slot
  insert-some fs = (_, refl)

  -- Let mounting the disk, in a heap of 25600 free blocks, leave a heap that begins on a page above 0, in
  -- which block `g` is the first free one, the blocks between it and block `a + 1`, if any, are in use, and
  -- 1025 blocks or more stand free from there on, inside the heap and the address space and at most 2 ^ 31
  -- bytes from the heap's beginning. Then the kernel starts without a panic; the directory that it loads
  -- leads every 32-bit address to itself; the exceptions from 1 on, division by zero, the clock and the
  -- keyboard have their callbacks, and other interrupts none; and the numbers from 0 on lead to the
  -- commands of system calls in their order, and other numbers to none.
  pub kernel_init-ready :
      (g a k v n i : ℕ) (h : Hardware P D)
      → ((ram : Ram) → IsBump ram.heap 0 25600 → HasGap (h.allocations ram).heap g a (1025 + k))
      → v < 2 ^ 32
      → (system : System P D) × (kernel_init h ≡ some system)
        × (get_physical_address system.machine.kernel.store.ram.words
              system.machine.kernel.tasks.loaded v
            ≡ v)
        × (get_or system.machine.callbacks n none ≡ callback n)
        × (find_command (pos i) system.machine.commands ≡ get_elem? all_commands i)
  unfolding kernel_init
  kernel_init-ready g a k v n i h mount small =
      let (screen1, e1) = terminal_initialize-some h.screen in
      let (gdt, e2) = gdt-some h.tss_address in
      let (heap, e3, bump) = kheap_init-IsBump h.entries h.heap in
      let start : Ram = record { heap = heap; bytes = h.bytes; words = h.words } in
      let e3' = println-some (take 16 initialised_heap) [] screen1 (omega arith) in
      let screen_heap = line_written 16 initialised_heap screen1 in
      let e4 = println-some (take 15 initialised_idt) [] screen_heap (omega arith) in
      let ((chunk, ram), e5, same, _, _) =
        new_4gb-gap 7 v g a k (h.allocations start) (mount start bump) (omega arith) small in
      let (fss, e6) = insert-some h.filesystem in
      let screen2 = line_written 15 initialised_idt screen_heap in
      let e7 = println-some (take 14 enabled_paging) [] screen2 (omega arith) in
      let screen3 = line_written 14 enabled_paging screen2 in
      let e8 = print-some (take 1 line_end) [] screen3 (omega arith) in
      let (mounted, disk) = fs_resolve fss h.disk in
      (
        record {
          machine = record {
            screen = write_all (take 1 line_end) default_colour screen3;
            kernel = first_kernel chunk ram;
            driver = classic_keyboard;
            callbacks = keyboard_callbacks (init_callbacks (replicate total_interrupts none));
            commands = commands;
            mounted = mounted;
            kernel_chunk = chunk;
          };
          gdt = gdt;
          idt = init_descriptors h.pointers h.isr80h_wrapper;
          tss = kernel_tss;
          disk = disk;
          keyboards = (insert classic_keyboard []).1;
        },
        rw (e1, e2, e3, e3', e6, e4, e5, e7, isr80h_register_all_commands-some, e8) refl,
        same,
        callbacks-at n,
        find_command-commands i,
      )
