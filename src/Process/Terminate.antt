-- ===== src/Process/Terminate.antt =====
-- `process_terminate`. `none` is a panic or a fault. The line "Terminating process: ..." that it prints is
-- left out, here and where it is called: the kernel's state holds no screen.
use peach_os.Prelude.{
  ℕ, Option, some, ◌>>=◌, List, [], ◌∷◌, ◌==◌, if◌then◌else◌, ℤ, pos, negsuc, is_negative,
}
use peach_os.KernelHeap.{Ram, kfree}
use peach_os.Elf.Store.{Store, elf_close}
use peach_os.Process.{Process, Allocation, process_unlink}
use peach_os.Process.Load.{Kernel, filetype_elf, filetype_binary}
use peach_os.Process.Start.{with_memory, free_task}

-- The loop frees the pointer of every slot, also 0. Its result is always 0.
unfoldable pub process_terminate_allocations : List Allocation → Ram → Ram
unfolding kfree
process_terminate_allocations [] ram = ram
process_terminate_allocations (a ∷ allocations) ram =
    process_terminate_allocations allocations (kfree a.ptr ram)

module _ {P D : Type 0} where
  unfoldable pub process_terminate_program_data : Process → Store P D → ℤ × Store P D
  unfolding kfree elf_close
  process_terminate_program_data p s =
      if p.filetype == filetype_binary
      then (pos 0, record s { ram = kfree p.program s.ram })
      else if p.filetype == filetype_elf
      then (pos 0, elf_close p.program s)
      else (negsuc 1, s)

  -- From the freeing of the stack on.
  unfoldable pub remove_process : (process : ℕ) → Process → Kernel P D → Option (Kernel P D)
  unfolding kfree free_task process_unlink
  remove_process process p k =
      free_task p.task (with_memory (kfree p.stack k.store.ram) k) >>= λ k1.
      process_unlink process p.id k1.processes k1.current_process
      >>= λ (processes, current_process).
          some (record (with_memory (kfree process k1.store.ram) k1) {
            processes = processes;
            current_process = current_process;
          })

  unfoldable pub process_terminate : (process : ℕ) → Kernel P D → Option (ℤ × Kernel P D)
  unfolding process_terminate_allocations process_terminate_program_data remove_process
  process_terminate process k =
      let p = k.process_at process in
      let freed = process_terminate_allocations p.allocations k.store.ram in
      let (res, store) = process_terminate_program_data p (record k.store { ram = freed }) in
      let k1 = record k { store = store } in
      if is_negative res
      then some (res, k1)
      else (remove_process process p k1 >>= λ k2. some (res, k2))
