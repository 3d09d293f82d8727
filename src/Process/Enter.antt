-- ===== src/Process/Enter.antt =====
-- The table of processes after a process is loaded.
use peach_os.Prelude.{
  ℕ, ◌+◌, ◌<◌, ◌≢◌, get_or, length, ◌≡◌, ◌⊎◌, inl, inr, refl, ap, ◌∙◌, Option, none, some, List,
  ◌==◌, set, Ensures, Option-cases, Ensures-if, if_elim, true, negsuc, Ensures-map, Ensures-bind,
  Ensures-any, eq→==, ℤ, pos, is_negative, not,
}
use peach_os.CString.{strncpy}
use peach_os.PathParser.{max_path}
use peach_os.KernelHeap.{kzalloc}
use peach_os.Paging.Chunk.{new_4gb, is_present, access_from_all}
use peach_os.Task.{task_new, task_list_remove}
use peach_os.File.{Filesystem}
use peach_os.Process.{Process, process_get, process_get_free_slot}
use peach_os.Process.Slots.{process_get_free_slot-lem}
use peach_os.Process.Load.{
  Kernel, process_init, process_size, task_size, stack_size, process_map_memory, process_load_data,
  set_process,
}
use peach_os.Process.Start.{
  with_memory, seen_by_task, free_task, create_task, enter_process, prepare_process,
  process_load_for_slot, process_load,
}

stored :
    (process : ℕ) (p : Process) (ps : ℕ → Process) → (set_process ps process p process).id ≡ p.id
stored process p ps = rw (eq→== process process refl) refl

module _ {P D : Type 0} where
  free_task-keeps :
      (task : ℕ) (k : Kernel P D)
      → Ensures
          (λ k'. (k'.processes ≡ k.processes) × (k'.process_at ≡ k.process_at))
          (free_task task k)
  unfolding free_task
  free_task-keeps task k =
      Ensures-any (λ k'. (k'.processes ≡ k.processes) × (k'.process_at ≡ k.process_at))
        (task_list_remove task k.tasks) _ (λ tasks. (refl, refl))

  -- A process stands in a slot.
  abbrev Enters : (process_slot : ℕ) → Kernel P D → (ℤ × ℕ) × Kernel P D → Type 0
  Enters process_slot k (r, k') =
      (k'.processes ≡ set k.processes process_slot r.1) × ((k'.process_at r.1).id ≡ process_slot)

  enter_process-Enters :
      (process : ℕ) (p : Process) (k : Kernel P D)
      → Ensures (Enters p.id k) (enter_process process p.id p k)
  unfolding enter_process
  enter_process-Enters process p k =
      Ensures-any (Enters p.id k)
        (process_map_memory (k.store.ram.words (k.tasks.at p.task).page_directory) k.store.elf_at p
          k.store.ram)
        _
        (λ (res, ram).
          let k' = record (with_memory ram k) {
            process_at = set_process k.process_at process p;
            processes = set k.processes p.id process;
          } in
          Ensures-if (Enters p.id k) (is_negative res) _ _
            (Ensures-bind
              (λ (freed : Kernel P D).
                (freed.processes ≡ k'.processes) × (freed.process_at ≡ k'.process_at))
              (Enters p.id k) (free_task p.task k') (λ freed. some ((res, process), freed))
              (free_task-keeps p.task k')
              (λ freed (e, f).
                (e, ap (λ (ps : ℕ → Process). (ps process).id) f ∙ stored process p k.process_at)))
            (refl, stored process p k.process_at))

  create_task-keeps :
      (process : ℕ) (p : Process) (k : Kernel P D)
      → Ensures (λ (r : ℕ × Kernel P D). r.1.processes ≡ k.processes) (create_task process p k)
  unfolding create_task
  create_task-keeps process p k =
      let Keeps : ℕ × Kernel P D → Type 0 = λ r. r.1.processes ≡ k.processes in
      Ensures-any Keeps (kzalloc task_size k.store.ram) _ (λ (task, ram1).
        Ensures-any Keeps (new_4gb (is_present + access_from_all) ram1) _ (λ (chunk, ram2).
          Ensures-any Keeps
            (task_new task (seen_by_task process p ram2.bytes k.store.elf_at) chunk k.tasks)
            (λ tasks. some (task, record (with_memory ram2 k) { tasks = tasks })) (λ tasks. refl)))

  prepare_process-Enters :
      (filename : List ℕ) (process process_slot : ℕ) (p : Process) (k : Kernel P D)
      → Ensures (Enters process_slot k) (prepare_process filename process process_slot p k)
  unfolding prepare_process
  prepare_process-Enters filename process process_slot p k =
      Ensures-any (Enters process_slot k) (kzalloc stack_size k.store.ram) _
        (λ (program_stack_ptr, ram).
          Ensures-any (Enters process_slot k) (strncpy p.filename filename max_path) _ (λ name.
            let p1 = record p { filename = name; stack = program_stack_ptr; id = process_slot } in
            Ensures-bind (λ (r : ℕ × Kernel P D). r.1.processes ≡ k.processes)
              (Enters process_slot k) (create_task process p1 (with_memory ram k)) _
              (create_task-keeps process p1 (with_memory ram k))
              (λ (task, k1) same.
                Ensures-map (Enters process_slot k1) (Enters process_slot k)
                  (enter_process process process_slot (record p1 { task = task }) k1)
                  (enter_process-Enters process (record p1 { task = task }) k1)
                  (λ r (e, f). (e ∙ ap (λ (ps : List ℕ). set ps process_slot r.0.1) same, f)))))

  -- No process is written, or it stands in the slot.
  abbrev Outcome : (process_slot : ℕ) → Kernel P D → (ℤ × ℕ) × Kernel P D → Type 0
  Outcome process_slot k (r, k') =
      ((is_negative r.0 ≡ true) × (r.1 ≡ 0) × (k'.processes ≡ k.processes))
      ⊎ Enters process_slot k (r, k')

  process_load_for_slot-Outcome :
      (mounted : Option (Filesystem P D)) (filename : List ℕ) (process_slot : ℕ) (k : Kernel P D)
      → Ensures (Outcome process_slot k) (process_load_for_slot mounted filename process_slot k)
  unfolding process_load_for_slot
  process_load_for_slot-Outcome mounted filename process_slot k =
      Ensures-if (Outcome process_slot k) (not (process_get (pos process_slot) k.processes == 0))
        none _ tt
        (Ensures-any (Outcome process_slot k) (kzalloc process_size k.store.ram) _
          (λ (process, ram).
            Ensures-any (Outcome process_slot k)
              (process_load_data mounted filename process_init (record k.store { ram = ram })) _
              (λ ((res, p), store).
                let k1 = record k { store = store } in
                if_elim (λ m. Ensures (Outcome process_slot k) m) (is_negative res)
                  (some ((res, 0), k1)) (prepare_process filename process process_slot p k1)
                  (λ failed. inl (failed, refl, refl))
                  (λ _.
                    Ensures-map (Enters process_slot k1) (Outcome process_slot k)
                      (prepare_process filename process process_slot p k1)
                      (prepare_process-Enters filename process process_slot p k1) (λ r e. inr e)))))

  -- Where `process_load` returns: if no slot of the table is null, it answers -EISTKN, writes no process
  -- and leaves the table as it is. Otherwise it fails with a negative result and does the same, or it
  -- puts the process in the first slot that is null, under that slot's number.
  pub process_load-Enters :
      (mounted : Option (Filesystem P D)) (filename : List ℕ) (k : Kernel P D)
      → Ensures
          (λ ((res, process), k').
            (((j : ℕ) → j < length k.processes → get_or k.processes j 0 ≢ 0)
              × (res ≡ negsuc 7)
              × (process ≡ 0)
              × (k'.processes ≡ k.processes))
            ⊎ ((i : ℕ) × (i < length k.processes)
                × (get_or k.processes i 0 ≡ 0)
                × ((j : ℕ) → j < i → get_or k.processes j 0 ≢ 0)
                × (((is_negative res ≡ true) × (process ≡ 0) × (k'.processes ≡ k.processes))
                    ⊎ ((k'.processes ≡ set k.processes i process)
                        × ((k'.process_at process).id ≡ i)))))
          (process_load mounted filename k)
  unfolding process_load
  process_load-Enters mounted filename k = elim (Option-cases (process_get_free_slot k.processes)) [
    | inl e ↦
        rw (e, process_load) (inl (process_get_free_slot-lem k.processes none e, refl, refl, refl))
    | inr (i, e) ↦
        let (l, null, used) = process_get_free_slot-lem k.processes (some i) e in
        rw (e, process_load)
          (Ensures-map (Outcome i k) _ (process_load_for_slot mounted filename i k)
            (process_load_for_slot-Outcome mounted filename i k) (λ r o. inr (i, l, null, used, o)))
  ]
