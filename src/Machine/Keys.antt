-- ===== src/Machine/Keys.antt =====
-- From a key to the program: the keyboard's interrupt, and the system call that reads a character.
use peach_os.Prelude.{
  ℕ, ◌+◌, ◌<◌, ◌≡◌, ◌≢◌, inl, refl, sym, ◌∙◌, none, some, List, [], ◌∷◌, ◌++◌, length, get_or,
  ne→==, eq→==, ltb, if◌then◌else◌, bit_and, pos,
}
use mathlib.Core.Path.{subst}
use peach_os.Keyboard.{
  KeyboardBuffer, Driver, handle_interrupt, scancode_to_char, push, push_to, pop_from,
}
use peach_os.Keyboard.Fifo.{Holds, push_to-Holds, pop_from-cons}
use peach_os.Task.{Registers, Tasks, task_switch, task_save_frame, task_current_save_state}
use peach_os.Task.Turns.{saved}
use peach_os.Idt.{kernel_page, task_page, find_command}
use peach_os.Process.{Process}
use peach_os.Process.Load.{Kernel, set_process}
use peach_os.Isr80h.{running_task, own_process, command3_getkey}
use peach_os.Isr80h.Register.{system_getkey}
use peach_os.Machine.{Machine, keyboard, keyboard_interrupt, run_callback, leave, interrupt_handler}
use peach_os.Machine.Calls.{run_command, isr80h_handle_command, isr80h_handler, leave_call}

handle_interrupt-key :
    (scancode memory c : ℕ) (driver : Driver) (b : KeyboardBuffer)
    → bit_and scancode 0x80 ≡ 0
    → scancode ≢ 15
    → scancode_to_char scancode driver memory ≡ c
    → c ≢ 0
    → handle_interrupt scancode memory driver (some b) ≡ (driver, some (push_to c b))
unfolding handle_interrupt push
handle_interrupt-key scancode memory c driver b pressed other e c0 =
    rw (handle_interrupt, pressed, ne→== scancode 15 other, e, ne→== c 0 c0) refl

-- A `char` as the value of a system call.
abbrev as_int : ℕ → ℕ
as_int c = if ltb c 128 then c else c + 0xFFFFFF00

-- The tasks when the current one goes on after an interrupt.
abbrev resumed : (directory : ℕ) → Registers → Tasks → Tasks
resumed directory frame s = task_switch s.current_task (saved directory frame s)

resumed-current :
    (d : ℕ) (frame : Registers) (s : Tasks) → (resumed d frame s).current_task ≡ s.current_task
unfolding task_switch
resumed-current d frame s = refl

module _ {P D : Type 0} where
  abbrev shown : Machine P D → Process
  shown m = m.kernel.process_at m.kernel.current_process

  abbrev directory : Machine P D → ℕ
  directory m = m.kernel.store.ram.words m.kernel_chunk

  -- The machine with the tasks and the keyboard buffer of one process.
  abbrev with_buffer : (process : ℕ) → KeyboardBuffer → Tasks → Machine P D → Machine P D
  with_buffer process b tasks m = record m {
    kernel = record m.kernel {
      tasks = tasks;
      process_at =
          set_process m.kernel.process_at process
            (record (m.kernel.process_at process) { keyboard = b });
    };
  }

  interrupt_handler-key :
      (scancode memory c : ℕ) (frame : Registers) (m : Machine P D)
      → get_or m.callbacks 0x21 none ≡ some keyboard
      → m.kernel.tasks.current_task ≢ 0
      → m.kernel.current_process ≢ 0
      → bit_and scancode 0x80 ≡ 0
      → scancode ≢ 15
      → scancode_to_char scancode m.driver memory ≡ c
      → c ≢ 0
      → interrupt_handler 0x21 scancode memory frame m
        ≡ some (
          none,
          with_buffer m.kernel.current_process
              (push_to c (shown m).keyboard)
              (resumed (directory m) frame m.kernel.tasks)
              m,
        )
  unfolding interrupt_handler task_switch run_callback keyboard_interrupt leave kernel_page
      task_page task_current_save_state
  interrupt_handler-key scancode memory c frame m e t0 p0 pressed other char c0 =
      rw
        (
          interrupt_handler,
          e,
          task_current_save_state,
          ne→== m.kernel.tasks.current_task 0 t0,
          run_callback,
          keyboard_interrupt,
          ne→== m.kernel.current_process 0 p0,
          handle_interrupt-key scancode memory c m.driver (shown m).keyboard pressed other char c0,
        )
        refl

  pub own_process-saved :
      (d : ℕ) (frame : Registers) (k : Kernel P D)
      → (running_task (record k { tasks = saved d frame k.tasks })).process
        ≡ (running_task k).process
  unfolding task_save_frame
  own_process-saved d frame k = rw (eq→== k.tasks.current_task k.tasks.current_task refl) refl

  isr80h_handler-getkey :
      (buffer : List ℕ) (fuel c : ℕ) (q : List ℕ) (frame : Registers) (m : Machine P D)
      → find_command (pos 3) m.commands ≡ some system_getkey
      → m.kernel.tasks.current_task ≢ 0
      → Holds (own_process m.kernel).keyboard (c ∷ q)
      → isr80h_handler buffer fuel (pos 3) frame m
        ≡ some (
          inl (as_int c),
          with_buffer
              (running_task m.kernel).process
              (pop_from (own_process m.kernel).keyboard).1
              (resumed (directory m) frame m.kernel.tasks)
              m,
        )
  unfolding isr80h_handler task_switch isr80h_handle_command run_command command3_getkey leave_call
      kernel_page task_page task_current_save_state
  isr80h_handler-getkey buffer fuel c q frame m e t0 h =
      rw
        (
          isr80h_handler,
          task_current_save_state,
          ne→== m.kernel.tasks.current_task 0 t0,
          isr80h_handle_command,
          e,
          run_command,
          command3_getkey,
          own_process-saved (directory m) frame m.kernel,
          (pop_from-cons c q h).0,
        )
        refl

  -- The process of the running task after an interrupt, and its buffer when it is written.
  resumed-process :
      (process d : ℕ) (b : KeyboardBuffer) (frame : Registers) (m : Machine P D)
      → (running_task m.kernel).process ≡ process
      → (running_task (with_buffer process b (resumed d frame m.kernel.tasks) m).kernel).process
        ≡ process
  unfolding task_switch task_save_frame
  resumed-process process d b frame m own =
      rw (eq→== m.kernel.tasks.current_task m.kernel.tasks.current_task refl) own

  with_buffer-own :
      (process d : ℕ) (b : KeyboardBuffer) (frame : Registers) (m : Machine P D)
      → (running_task m.kernel).process ≡ process
      → (own_process (with_buffer process b (resumed d frame m.kernel.tasks) m).kernel).keyboard ≡ b
  with_buffer-own process d b frame m own =
      rw
        (eq→==
          (running_task (with_buffer process b (resumed d frame m.kernel.tasks) m).kernel).process
          process (resumed-process process d b frame m own))
        refl

  with_buffer-other :
      (process other : ℕ) (b : KeyboardBuffer) (tasks : Tasks) (m : Machine P D)
      → other ≢ process
      → (with_buffer process b tasks m).kernel.process_at other ≡ m.kernel.process_at other
  with_buffer-other process other b tasks m ne = rw (ne→== other process ne) refl

  -- Let the list of callbacks have the keyboard's, and that of commands the one that reads a character;
  -- let a task run whose process is the current one, and let its buffer hold the sequence `q` of fewer
  -- than 1024 characters. A key that is pressed, not the one for caps lock, whose character is `c`, not
  -- 0: the interrupt goes back to the program, and its next call for a character answers the first one of
  -- `q` and then `c`, sign extended, and leaves the others in the buffer; no other process changes.
  pub getkey-key :
      (buffer : List ℕ) (fuel scancode memory c d other : ℕ) (q q' : List ℕ)
      (frame frame' : Registers) (m : Machine P D)
      → get_or m.callbacks 0x21 none ≡ some keyboard
      → find_command (pos 3) m.commands ≡ some system_getkey
      → m.kernel.tasks.current_task ≢ 0
      → m.kernel.current_process ≢ 0
      → (running_task m.kernel).process ≡ m.kernel.current_process
      → Holds (own_process m.kernel).keyboard q
      → length q < 1024
      → bit_and scancode 0x80 ≡ 0
      → scancode ≢ 15
      → scancode_to_char scancode m.driver memory ≡ c
      → c ≢ 0
      → q ++ c ∷ [] ≡ d ∷ q'
      → other ≢ m.kernel.current_process
      → (m1 : Machine P D) × (m2 : Machine P D) × (interrupt_handler 0x21 scancode memory frame m
          ≡ some (none, m1))
        × (isr80h_handler buffer fuel (pos 3) frame' m1
            ≡ some (inl (if ltb d 128 then d else d + 0xFFFFFF00), m2))
        × Holds (own_process m2.kernel).keyboard q'
        × (m2.kernel.process_at other ≡ m.kernel.process_at other)
  getkey-key buffer fuel scancode memory c d other q q' frame frame' m e f t0 p0 own h l pressed
        no_lock char c0 split ne =
      let p = m.kernel.current_process in
      let b = push_to c (shown m).keyboard in
      let m1 = with_buffer p b (resumed (directory m) frame m.kernel.tasks) m in
      let b' = (pop_from (own_process m1.kernel).keyboard).1 in
      let p1 = (running_task m1.kernel).process in
      let own1 = resumed-process p (directory m) b frame m own in
      let m2 = with_buffer p1 b' (resumed (directory m1) frame' m1.kernel.tasks) m1 in
      let pushed =
        push_to-Holds q c (subst (λ (a : ℕ). Holds (m.kernel.process_at a).keyboard q) own h) l
          c0 in
      let holds =
        subst (λ (k : KeyboardBuffer). Holds k (d ∷ q'))
          (sym (with_buffer-own p (directory m) b frame m own)) (subst (Holds b) split pushed) in
      (
        m1,
        m2,
        interrupt_handler-key scancode memory c frame m e t0 p0 pressed no_lock char c0,
        isr80h_handler-getkey buffer fuel d q' frame' m1 f
            (λ z. t0 (sym (resumed-current (directory m) frame m.kernel.tasks) ∙ z)) holds,
        subst (λ (k : KeyboardBuffer). Holds k q')
            (sym (with_buffer-own p1 (directory m1) b' frame' m1 refl))
            (pop_from-cons d q' holds).1,
        with_buffer-other p1 other b' (resumed (directory m1) frame' m1.kernel.tasks) m1
              (λ z. ne (z ∙ own1))
            ∙ with_buffer-other p other b (resumed (directory m) frame m.kernel.tasks) m ne,
      )
