-- ===== src/Isr80h/Heap.antt =====
-- What a program gets from its system calls for memory.
use peach_os.Prelude.{ℕ, ◌+◌, ◌*◌, ◌≡◌, ◌≢◌, refl, sym, ap, ◌∙◌, true, some, eq→==, ne→==}
use peach_os.KernelHeap.Alloc.{HasRun}
use peach_os.Process.{process_ptr_belongs_to_process}
use peach_os.Process.Slots.{FirstFree}
use peach_os.Process.Load.{Kernel}
use peach_os.Process.Malloc.{process_malloc_lem}
use peach_os.Isr80h.{running_task, own_process, stack_item, set_own_process, command4_malloc}

module _ {P D : Type 0} where
  -- Let the heap begin on a page above 0, let all its blocks below `a` be in use, and let the blocks that
  -- the size on the stack of the current task, above 0, needs stand free from block `a` on, inside the
  -- heap, with `a * 4096` below 2 ^ 31 and their end in the address space. Let the first slot of the task's
  -- process without an allocation, slot `i`, be cleared. Then the system call for memory answers the
  -- address of block `a`, which that process owns then, and no other process changes.
  pub command4_malloc_lem :
      (a i : ℕ) (k : Kernel P D) (other : ℕ)
      → HasRun k.store.ram.heap (stack_item 0 k) a
      → FirstFree (own_process k).allocations i
      → other ≢ (running_task k).process
      → (k' : Kernel P D) × (command4_malloc k ≡ some (k.store.ram.heap.saddr + a * 4096, k'))
        × (process_ptr_belongs_to_process
              (own_process k').allocations
              (k.store.ram.heap.saddr + a * 4096)
            ≡ true)
        × (k'.process_at other ≡ k.process_at other)
  unfolding command4_malloc
  command4_malloc_lem a i k other run f ne =
      let chunk = (running_task k).page_directory in
      let ((ptr, p, ram), e, at, owned, counted, zeroed) =
        process_malloc_lem chunk (stack_item 0 k) a i 0 (own_process k) k.store.ram run f
          run.positive in
      let own = (running_task k).process in
      (
        set_own_process p ram k,
        rw (e, at) refl,
        rw (eq→== own own refl)
            (ap (λ (q : ℕ). process_ptr_belongs_to_process p.allocations q) (sym at) ∙ owned),
        rw (ne→== other own ne) refl,
      )
