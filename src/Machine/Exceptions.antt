-- ===== src/Machine/Exceptions.antt =====
-- An exception in a program: its process ends, and another task goes on.
use peach_os.Prelude.{
  ℕ, ◌<◌, ◌≡◌, ◌≢◌, ◌⊎◌, refl, sym, ◌∙◌, arith, some, none, List, [], ◌∷◌, ◌++◌, get_or, length,
  take, ne→==,
}
use mathlib.Core.Path.{subst}
use mathlib.Core.List.{append_assoc}
use peach_os.Terminal.Print.{line_written, println-some}
use peach_os.Task.{Registers, task_current_save_state, task_list_remove, task_switch}
use peach_os.Task.Queue.{first, Links, IsQueue, Links-at}
use peach_os.Task.Turns.{saved, saved-current, IsQueue-saved}
use peach_os.Task.Skip.{task_next-task_list_remove}
use peach_os.Idt.{kernel_page}
use peach_os.Process.Load.{Kernel}
use peach_os.Process.Table.{InTable, process_terminate-InTable}
use peach_os.Process.EndTask.{process_terminate-Without}
use peach_os.Isr80h.{running_task, own_process}
use peach_os.Machine.{
  Machine, exception, exception_reached, idt_handle_exception, run_callback, leave,
  interrupt_handler,
}
use peach_os.Machine.Keys.{own_process-saved}

module _ {P D : Type 0} where
  -- The kernel when the current task is interrupted.
  abbrev interrupted : Registers → Machine P D → Kernel P D
  interrupted frame m = record m.kernel {
    tasks = saved (m.kernel.store.ram.words m.kernel_chunk) frame m.kernel.tasks;
  }

  -- Let the list of tasks be well formed, with the current task `t` behind `w` and before `y`. Let
  -- its process be of a known file type, with `t` as its task and with its number in the table, let
  -- another process stand in slot `j`, and let the current process be the one or the other. An interrupt
  -- whose callback is the one for exceptions does not return to the program: the slot of its process
  -- is empty then, the current process is one that the table holds, and the task that goes on is the
  -- one behind `y`, or the first one of the list: `y` loses its turn.
  pub interrupt_handler-exception :
      (n scancode memory j w t y : ℕ) (ws ys : List ℕ) (frame : Registers) (m : Machine P D)
      → get_or m.callbacks n none ≡ some exception
      → IsQueue m.kernel.tasks (ws ++ w ∷ t ∷ y ∷ ys)
      → m.kernel.tasks.current_task ≡ t
      → (own_process m.kernel).filetype < 2
      → (own_process m.kernel).task ≡ t
      → (own_process m.kernel).id < length m.kernel.processes
      → (own_process m.kernel).id ≢ j
      → get_or m.kernel.processes j 0 ≢ 0
      → (m.kernel.current_process ≡ (running_task m.kernel).process)
        ⊎ (m.kernel.current_process ≡ get_or m.kernel.processes j 0)
      → (registers : Registers) × (m' : Machine P D) × (interrupt_handler n scancode memory frame m
          ≡ some (some registers, m'))
        × (get_or m'.kernel.processes (own_process m.kernel).id 0 ≡ 0)
        × InTable m'.kernel.processes m'.kernel.current_process
        × (m'.kernel.tasks.current_task ≡ first (ys ++ (ws ++ w ∷ [])))
  unfolding interrupt_handler run_callback idt_handle_exception leave kernel_page
      task_current_save_state task_switch
  interrupt_handler-exception n scancode memory j w t y ws ys frame m e q c type task l ne other h =
      let k = interrupted frame m in
      let process = (running_task m.kernel).process in
      let t0 =
        (Links-at m.kernel.tasks.at 0 t (ws ++ w ∷ []) (y ∷ ys) (
          subst (λ (xs : List ℕ). Links m.kernel.tasks.at 0 xs)
            (sym (append_assoc ws (w ∷ []) (t ∷ y ∷ ys))) q.links)).0 in
      let (k', ended, cleared, inside) =
        process_terminate-InTable process j k type (λ z. t0 (sym task ∙ z)) l ne other h in
      let removed =
        subst (λ (a : ℕ). task_list_remove a k.tasks ≡ some k'.tasks) task
          (process_terminate-Without process k type ended) in
      let next =
        task_next-task_list_remove k.tasks ws w t y ys
          (IsQueue-saved (m.kernel.store.ram.words m.kernel_chunk) frame m.kernel.tasks
            (ws ++ w ∷ t ∷ y ∷ ys) q)
          (saved-current (m.kernel.store.ram.words m.kernel_chunk) frame m.kernel.tasks ∙ c)
          removed in
      let z = first (ys ++ (ws ++ w ∷ [])) in
      (
        (k'.tasks.at z).registers,
        record m {
          screen = line_written 18 exception_reached m.screen;
          kernel = record k' { tasks = task_switch z k'.tasks };
        },
        rw
            (
              interrupt_handler,
              e,
              task_current_save_state,
              ne→== m.kernel.tasks.current_task 0 (λ a. t0 (sym c ∙ a)),
              run_callback,
              idt_handle_exception,
              println-some (take 18 exception_reached) [] m.screen (omega arith),
              own_process-saved (m.kernel.store.ram.words m.kernel_chunk) frame m.kernel,
              ended,
              next,
            )
            refl,
        cleared,
        inside,
        refl,
      )
