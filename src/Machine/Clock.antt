-- ===== src/Machine/Clock.antt =====
-- The clock: tasks take turns, and go on with the registers with which they were interrupted.
use peach_os.Prelude.{
  ℕ, ◌+◌, ◌≡◌, ◌≢◌, refl, sym, ap, ap₂, ◌∙◌, arith, Option, none, some, List, [], ◌∷◌, ◌++◌, map,
  length, length-append, get_or, ne→==, eq→==, ◌>>=◌,
}
use mathlib.Core.Path.{subst}
use mathlib.Core.List.{append_assoc, append-nil, map-append}
use peach_os.Task.{Registers, Tasks, task_switch, task_save_frame, task_current_save_state}
use peach_os.Task.Queue.{Absent, Distinct, IsQueue, Distinct-snoc, Links-at}
use peach_os.Task.Turns.{IsTurn, IsTurn-switch, IsTurn-saved, task_next-IsTurn, saved}
use peach_os.Idt.{kernel_page}
use peach_os.Machine.{Machine, clock, with_tasks, idt_clock, run_callback, leave, interrupt_handler}

-- A sequence in which `z` does not stand.
map-other {ℓ} :
    {B : Type ℓ} (f g : ℕ → B) (z : ℕ) (us : List ℕ)
    → Absent z us
    → ((t : ℕ) → t ≢ z → f t ≡ g t)
    → map f us ≡ map g us
map-other f g z [] h e = refl
map-other f g z (u ∷ us) (ne, h) e = ap₂ ◌∷◌ (e u ne) (map-other f g z us h e)

Absent-left : (z : ℕ) (us ws : List ℕ) → Absent z (us ++ ws) → Absent z us
Absent-left z [] ws h = tt
Absent-left z (u ∷ us) ws (ne, h) = (ne, Absent-left z us ws h)

Distinct-rotate : (xs ys : List ℕ) → Distinct (xs ++ ys) → Distinct (ys ++ xs)
Distinct-rotate [] ys d = subst Distinct (sym (append-nil ys)) d
Distinct-rotate (x ∷ xs) ys (dx, d) = subst Distinct (append_assoc ys (x ∷ []) xs) (
    Distinct-rotate xs (ys ++ x ∷ [])
      (subst Distinct (append_assoc xs ys (x ∷ [])) (Distinct-snoc x (xs ++ ys) dx d)))

module _ {P D : Type 0} (scancode memory : ℕ) where
  -- Clock interrupts, each with the registers of the task that it interrupts: the tasks that go on,
  -- with their registers.
  unfoldable pub ticks : List Registers → Machine P D → Option (List (ℕ × Registers))
  unfolding interrupt_handler
  ticks [] m = some []
  ticks (frame ∷ frames) m = interrupt_handler 0x20 scancode memory frame m >>= λ (registers, m').
      elim registers [
        | none ↦ none
        | some r ↦ ticks frames m' >>= λ rest. some ((m'.kernel.tasks.current_task, r) ∷ rest)
      ]

  -- The tasks when the clock interrupts the current one, and when the next one goes on.
  abbrev interrupted : Registers → Machine P D → Tasks
  interrupted frame m = saved (m.kernel.store.ram.words m.kernel_chunk) frame m.kernel.tasks

  abbrev after : (z : ℕ) → Registers → Machine P D → Machine P D
  after z frame m = with_tasks (task_switch z (interrupted frame m)) m

  interrupt_handler-clock :
      (c z : ℕ) (us : List ℕ) (frame : Registers) (m : Machine P D)
      → get_or m.callbacks 0x20 none ≡ some clock
      → IsTurn m.kernel.tasks c (z ∷ us)
      → interrupt_handler 0x20 scancode memory frame m
        ≡ some (some ((interrupted frame m).at z).registers, after z frame m)
  unfolding interrupt_handler run_callback idt_clock leave kernel_page task_current_save_state
  interrupt_handler-clock c z us frame m e t =
      let s = m.kernel.tasks in
      let c0 = (Links-at s.at 0 c t.before t.behind t.queue.links).0 in
      rw
        (
          interrupt_handler,
          e,
          task_current_save_state,
          ne→== s.current_task 0 (λ h. c0 (sym t.current ∙ h)),
          task_next-IsTurn (interrupted frame m) c z us
              (IsTurn-saved (m.kernel.store.ram.words m.kernel_chunk) frame s c (z ∷ us) t),
        )
        refl

  saved-other :
      (frame : Registers) (m : Machine P D) (t : ℕ)
      → t ≢ m.kernel.tasks.current_task
      → ((interrupted frame m).at t).registers ≡ (m.kernel.tasks.at t).registers
  unfolding task_save_frame
  saved-other frame m t ne = rw (ne→== t m.kernel.tasks.current_task ne) refl

  ticks-upcoming :
      (us ws : List ℕ) (c : ℕ) (frame : Registers) (frames : List Registers) (m : Machine P D)
      → length us ≡ length frames + 1
      → get_or m.callbacks 0x20 none ≡ some clock
      → IsTurn m.kernel.tasks c (us ++ ws)
      → Distinct (us ++ ws)
      → ticks (frame ∷ frames) m ≡ some (map (λ t. (t, ((interrupted frame m).at t).registers)) us)
  unfolding ticks task_switch
  ticks-upcoming [] ws c frame frames m l e t d = absurd (omega arith)
  ticks-upcoming (z ∷ []) ws c frame [] m l e t d =
      rw (interrupt_handler-clock c z ws frame m e t) refl
  ticks-upcoming (z ∷ []) ws c frame (f ∷ frames) m l e t d = absurd (omega arith)
  ticks-upcoming (z ∷ u ∷ us) ws c frame [] m l e t d = absurd (omega arith)
  ticks-upcoming (z ∷ u ∷ us) ws c frame (f ∷ frames) m l e t (dz, d) =
      let rotated = append_assoc (u ∷ us) ws (z ∷ []) in
      let m' = after z frame m in
      let turn = IsTurn-switch (interrupted frame m) c z ((u ∷ us) ++ ws) (
        IsTurn-saved (m.kernel.store.ram.words m.kernel_chunk) frame m.kernel.tasks c
          (z ∷ (u ∷ us) ++ ws) t) in
      let tail =
        ticks-upcoming (u ∷ us) (ws ++ z ∷ []) z f frames m' (omega arith) e
          (subst (IsTurn m'.kernel.tasks z) rotated turn)
          (subst Distinct rotated (Distinct-snoc z ((u ∷ us) ++ ws) dz d)) in
      rw (interrupt_handler-clock c z ((u ∷ us) ++ ws) frame m e t, tail)
        (ap (λ r. some ((z, ((interrupted frame m).at z).registers) ∷ r))
          (map-other _ _ z (u ∷ us) (Absent-left z (u ∷ us) ws dz)
            (λ t ne. ap (λ (r : Registers). (t, r)) (saved-other f m' t ne))))

  -- Let the clock's callback be registered, and the list of tasks be well formed, with the current task
  -- `c` behind the tasks `before` and before the tasks `behind`. Then as many clock interrupts as there
  -- are tasks, the first of which interrupts `c` with the registers `frame`, let every task go on once:
  -- those behind `c`, then those before it, each with the registers that were saved for it, and then
  -- `c` with `frame`.
  pub ticks-round :
      (before behind : List ℕ) (c : ℕ) (frame : Registers) (frames : List Registers)
      (m : Machine P D)
      → get_or m.callbacks 0x20 none ≡ some clock
      → IsQueue m.kernel.tasks (before ++ c ∷ behind)
      → m.kernel.tasks.current_task ≡ c
      → length frames ≡ length (behind ++ before)
      → ticks (frame ∷ frames) m
        ≡ some
            (map (λ t. (t, (m.kernel.tasks.at t).registers)) (behind ++ before) ++ (c, frame) ∷ [])
  unfolding task_save_frame
  ticks-round before behind c frame frames m e q h l =
      let others = behind ++ before in
      let us = others ++ c ∷ [] in
      let (dc, d) = Distinct-rotate before (c ∷ behind) q.distinct in
      let same = append-nil us in
      let turn : IsTurn m.kernel.tasks c (us ++ []) = record {
        before = before;
        behind = behind;
        order = same ∙ append_assoc behind before (c ∷ []);
        queue = q;
        current = h;
      } in
      ticks-upcoming us [] c frame frames m (omega (arith, l, length-append others (c ∷ []))) e turn
        (subst Distinct (sym same) (Distinct-snoc c others dc d))
      ∙ ap some (
          map-append _ others (c ∷ [])
          ∙ ap₂ ◌++◌
              (map-other _ _ c others dc
                (λ t ne. ap (λ (r : Registers). (t, r)) (saved-other frame m t (λ z. ne (z ∙ h)))))
              (ap (λ (r : Registers). (c, r) ∷ [])
                (rw (eq→== c m.kernel.tasks.current_task (sym h)) refl)))
