-- ===== src/Process/EndTask.antt =====
-- What `process_terminate` does to the tasks.
use peach_os.Prelude.{
  ℕ, ◌<◌, ◌≡◌, some, Ensures, Ensures-bind, Ensures-any, Ensures-eq, Option-cases, inl, inr, ℤ, pos,
}
use peach_os.KernelHeap.{kfree}
use peach_os.Task.{task_list_remove}
use peach_os.Process.{Process, process_unlink}
use peach_os.Process.Load.{Kernel}
use peach_os.Process.Start.{with_memory, free_task}
use peach_os.Process.Table.{process_terminate_program_data-known}
use peach_os.Process.Terminate.{remove_process, process_terminate, process_terminate_allocations}

module _ {P D : Type 0} where
  -- The tasks without the one that is removed.
  abbrev Without : (task : ℕ) → Kernel P D → Kernel P D → Type 0
  Without task k k' = task_list_remove task k.tasks ≡ some k'.tasks

  free_task-Without : (task : ℕ) (k : Kernel P D) → Ensures (Without task k) (free_task task k)
  unfolding free_task
  free_task-Without task k = elim (Option-cases (task_list_remove task k.tasks)) [
    | inl e ↦ rw (e, free_task) tt
    | inr (tasks, e) ↦ rw (e, free_task) e
  ]

  remove_process-Without :
      (process : ℕ) (p : Process) (k : Kernel P D)
      → Ensures (Without p.task k) (remove_process process p k)
  unfolding remove_process
  remove_process-Without process p k =
      let start = with_memory (kfree p.stack k.store.ram) k in
      Ensures-bind (Without p.task k) (Without p.task k) (free_task p.task start) _
        (free_task-Without p.task start)
        (λ k1 e.
          Ensures-any (Without p.task k)
            (process_unlink process p.id k1.processes k1.current_process) _ (λ (ps, current). e))

  -- A process of a known file type that is terminated takes its task from the list.
  pub process_terminate-Without :
      (process : ℕ) (k : Kernel P D) {k' : Kernel P D}
      → (k.process_at process).filetype < 2
      → process_terminate process k ≡ some (pos 0, k')
      → task_list_remove (k.process_at process).task k.tasks ≡ some k'.tasks
  unfolding process_terminate
  process_terminate-Without process k {k'} type e =
      let p = k.process_at process in
      let freed = record k.store {
        ram = process_terminate_allocations p.allocations k.store.ram;
      } in
      let (store, known) = process_terminate_program_data-known p freed type in
      let After : ℤ × Kernel P D → Type 0 = λ r. Without p.task k r.1 in
      let all : Ensures After (process_terminate process k) = rw known (
        Ensures-bind (Without p.task k) After
          (remove_process process p (record k { store = store })) (λ k2. some (pos 0, k2))
          (remove_process-Without process p (record k { store = store })) (λ k2 w. w)) in
      Ensures-eq After (process_terminate process k) all e
