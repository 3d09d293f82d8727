-- ===== src/Process/Table.antt =====
-- The table of processes after a process is removed.
use peach_os.Prelude.{
  ℕ, zero, suc, ◌<◌, ◌≡◌, ◌≢◌, ◌⊎◌, inl, inr, refl, sym, ◌∙◌, arith, Option, none, some, List, [],
  ◌∷◌, get_or, set, length, Ensures, Ensures-eq, eq→==, ne→==, ℕ_discrete, get_or-set_self,
  get_or-set_ne, pos,
}
use peach_os.KernelHeap.{kfree}
use peach_os.Paging.Chunk.{free_4gb}
use peach_os.Task.Remove.{task_list_remove-some}
use peach_os.Elf.Store.{Store, elf_close}
use peach_os.Process.{Process, process_switch_to_any, process_unlink}
use peach_os.Process.Load.{Kernel}
use peach_os.Process.Start.{free_task, with_memory}
use peach_os.Process.Terminate.{
  remove_process, process_terminate, process_terminate_allocations, process_terminate_program_data,
}

-- A process that the table holds.
abbrev pub InTable : List ℕ → ℕ → Type 0
InTable ps p = (p ≢ 0) × ((i : ℕ) × (get_or ps i 0 ≡ p))

process_switch_to_any-InTable : (ps : List ℕ) → Ensures (InTable ps) (process_switch_to_any ps)
unfolding process_switch_to_any
process_switch_to_any-InTable [] = tt
process_switch_to_any-InTable (p ∷ ps) = elim (ℕ_discrete p 0) [
  | yes e ↦ rw (eq→== p 0 e) (shift (process_switch_to_any ps) (process_switch_to_any-InTable ps))
  | no ne ↦ rw (ne→== p 0 ne) (ne, (0, refl))
]
  where
    shift : (o : Option ℕ) → Ensures (InTable ps) o → Ensures (InTable (p ∷ ps)) o
    shift none h = tt
    shift (some q) (ne, (i, e)) = (ne, (suc i, e))

process_switch_to_any-some :
    (ps : List ℕ) (i : ℕ) → get_or ps i 0 ≢ 0 → (q : ℕ) × (process_switch_to_any ps ≡ some q)
unfolding process_switch_to_any
process_switch_to_any-some [] i h = absurd (h refl)
process_switch_to_any-some (p ∷ ps) zero h = rw (ne→== p 0 h) (p, refl)
process_switch_to_any-some (p ∷ ps) (suc i) h = elim (ℕ_discrete p 0) [
  | yes e ↦ rw (eq→== p 0 e) (process_switch_to_any-some ps i h)
  | no ne ↦ rw (ne→== p 0 ne) (p, refl)
]

-- Where another process stands in slot `j`, and the current process is that one or the one that is
-- removed: `process_unlink` succeeds, its slot is empty then, and the current process is one that the
-- table holds.
pub process_unlink-InTable :
    (process id current j : ℕ) (ps : List ℕ)
    → id < length ps
    → id ≢ j
    → get_or ps j 0 ≢ 0
    → (current ≡ process) ⊎ (current ≡ get_or ps j 0)
    → (r : List ℕ × ℕ) × (process_unlink process id ps current ≡ some r)
      × (get_or r.0 id 0 ≡ 0)
      × InTable r.0 r.1
unfolding process_unlink
process_unlink-InTable process id current j ps l ne other h =
    let stays : get_or (set ps id 0) j 0 ≡ get_or ps j 0 = get_or-set_ne ps id j 0 0 ne in
    elim (ℕ_discrete current process) [
      | yes e ↦
          let (q, found) =
            process_switch_to_any-some (set ps id 0) j (λ z. other (sym stays ∙ z)) in
          (
            (set ps id 0, q),
            rw (eq→== current process e, found) refl,
            get_or-set_self ps id 0 0 l,
            Ensures-eq (InTable (set ps id 0)) (process_switch_to_any (set ps id 0))
                (process_switch_to_any-InTable (set ps id 0)) found,
          )
      | no e ↦ (
        (set ps id 0, current),
        rw (ne→== current process e) refl,
        get_or-set_self ps id 0 0 l,
        keeps h e stays,
      )
    ]
  where
    keeps :
        (current ≡ process) ⊎ (current ≡ get_or ps j 0)
        → current ≢ process
        → get_or (set ps id 0) j 0 ≡ get_or ps j 0
        → InTable (set ps id 0) current
    keeps (inl e) no_process stays = absurd (no_process e)
    keeps (inr e) no_process stays = (λ z. other (sym e ∙ z), (j, stays ∙ sym e))

module _ {P D : Type 0} where
  free_task-some :
      (task : ℕ) (k : Kernel P D)
      → task ≢ 0
      → (k' : Kernel P D) × (free_task task k ≡ some k')
        × (k'.processes ≡ k.processes)
        × (k'.current_process ≡ k.current_process)
  unfolding free_task
  free_task-some task k ne =
      let (tasks, e) = task_list_remove-some task k.tasks ne in
      let ram = kfree task (free_4gb (k.tasks.at task).page_directory k.store.ram) in
      (record (with_memory ram k) { tasks = tasks }, rw e refl, refl, refl)

  remove_process-some :
      (process j : ℕ) (p : Process) (k : Kernel P D)
      → p.task ≢ 0
      → p.id < length k.processes
      → p.id ≢ j
      → get_or k.processes j 0 ≢ 0
      → (k.current_process ≡ process) ⊎ (k.current_process ≡ get_or k.processes j 0)
      → (k' : Kernel P D) × (remove_process process p k ≡ some k')
        × (get_or k'.processes p.id 0 ≡ 0)
        × InTable k'.processes k'.current_process
  unfolding remove_process
  remove_process-some process j p k task l ne other h =
      let start = with_memory (kfree p.stack k.store.ram) k in
      let (k1, freed, ps, cur) = free_task-some p.task start task in
      let ((ps', cur'), e, cleared, inside) =
        process_unlink-InTable process p.id k.current_process j k.processes l ne other h in
      (
        record (with_memory (kfree process k1.store.ram) k1) {
          processes = ps';
          current_process = cur';
        },
        rw (freed, ps, cur, e) refl,
        cleared,
        inside,
      )

  pub process_terminate_program_data-known :
      (p : Process) (s : Store P D)
      → p.filetype < 2
      → (s' : Store P D) × (process_terminate_program_data p s ≡ (pos 0, s'))
  unfolding process_terminate_program_data
  process_terminate_program_data-known p s type = elim (ℕ_discrete p.filetype 1) [
    | yes e ↦ (record s { ram = kfree p.program s.ram }, rw (eq→== p.filetype 1 e) refl)
    | no ne ↦
        (elf_close p.program s, rw (ne→== p.filetype 1 ne, eq→== p.filetype 0 (omega arith)) refl)
  ]

  -- A process of a known file type, with a task, where another process stands in slot `j` and the
  -- current process is that one or the one that ends: `process_terminate` returns 0, the slot of the
  -- process is empty then, and the current process is one that the table holds.
  pub process_terminate-InTable :
      (process j : ℕ) (k : Kernel P D)
      → (k.process_at process).filetype < 2
      → (k.process_at process).task ≢ 0
      → (k.process_at process).id < length k.processes
      → (k.process_at process).id ≢ j
      → get_or k.processes j 0 ≢ 0
      → (k.current_process ≡ process) ⊎ (k.current_process ≡ get_or k.processes j 0)
      → (k' : Kernel P D) × (process_terminate process k ≡ some (pos 0, k'))
        × (get_or k'.processes (k.process_at process).id 0 ≡ 0)
        × InTable k'.processes k'.current_process
  unfolding process_terminate
  process_terminate-InTable process j k type task l ne other h =
      let p = k.process_at process in
      let freed = record k.store {
        ram = process_terminate_allocations p.allocations k.store.ram;
      } in
      let (store, e) = process_terminate_program_data-known p freed type in
      let (k', removed, cleared, inside) =
        remove_process-some process j p (record k { store = store }) task l ne other h in
      (k', rw (e, removed) refl, cleared, inside)
