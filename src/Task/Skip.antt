-- ===== src/Task/Skip.antt =====
-- The turn after the current task is removed.
use peach_os.Prelude.{ℕ, ◌≡◌, ◌≢◌, refl, sym, ap, ◌∙◌, some, List, [], ◌∷◌, ◌++◌, ne→==}
use mathlib.Core.List.{append_assoc}
use mathlib.Core.Path.{subst}
use peach_os.Task.{Task, Tasks, task_get_next, task_next, task_list_remove, task_switch}
use peach_os.Task.Queue.{first, IsQueue}
use peach_os.Task.Remove.{Nexts, task_list_remove-current}

-- The first of a sequence that is linked forward is no null pointer.
Nexts-first :
    (ts : ℕ → Task) (c : ℕ) (xs : List ℕ) → Nexts ts (xs ++ c ∷ []) → first (xs ++ c ∷ []) ≢ 0
Nexts-first ts c [] l = l.0
Nexts-first ts c (x ∷ xs) l = l.0

Nexts-at :
    (ts : ℕ → Task) (c : ℕ) (xs ys : List ℕ)
    → Nexts ts (xs ++ c ∷ ys)
    → (c ≢ 0) × ((ts c).next ≡ first ys) × Nexts ts ys
Nexts-at ts c [] ys l = l
Nexts-at ts c (x ∷ xs) ys (x0, next, l) = Nexts-at ts c xs ys l

first-behind : (xs ys : List ℕ) (c : ℕ) → first (xs ++ c ∷ ys) ≡ first (xs ++ c ∷ [])
first-behind [] ys c = refl
first-behind (x ∷ xs) ys c = refl

-- The first of a sequence that is linked forward is no null pointer.
first-ne_zero :
    (ts : ℕ → Task) (xs ys : List ℕ) (c : ℕ) → Nexts ts (xs ++ c ∷ ys) → first (xs ++ c ∷ []) ≢ 0
first-ne_zero ts [] ys c l = l.0
first-ne_zero ts (x ∷ xs) ys c l = l.0

-- The task behind one of a sequence that is linked forward, and the first one behind the last.
task_next-Nexts :
    (s : Tasks) (xs ys : List ℕ) (c : ℕ)
    → Nexts s.at (xs ++ c ∷ ys)
    → s.task_head ≡ first (xs ++ c ∷ ys)
    → s.current_task ≡ c
    → task_next s
      ≡ some (
        (s.at (first (ys ++ (xs ++ c ∷ [])))).registers,
        task_switch (first (ys ++ (xs ++ c ∷ []))) s,
      )
unfolding task_next task_get_next
task_next-Nexts s xs [] c l h e =
    let (c0, next, _) = Nexts-at s.at c xs [] l in
    rw
      (
        task_next,
        task_get_next,
        e,
        ne→== c 0 c0,
        next,
        h,
        ne→== (first (xs ++ c ∷ [])) 0 (first-ne_zero s.at xs [] c l),
      )
      refl
task_next-Nexts s xs (y ∷ ys) c l h e =
    let (c0, next, more) = Nexts-at s.at c xs (y ∷ ys) l in
    rw (task_next, task_get_next, e, ne→== c 0 c0, next, ne→== y 0 more.0, ne→== y 0 more.0) refl

first-two :
    (ys ws : List ℕ) (w y : ℕ)
    → first (ys ++ ((ws ++ w ∷ []) ++ y ∷ [])) ≡ first (ys ++ (ws ++ w ∷ []))
first-two (z ∷ ys) ws w y = refl
first-two [] [] w y = refl
first-two [] (v ∷ ws) w y = refl

-- When the current task of a well-formed list is removed, with tasks before it and behind it, and then
-- the next task is asked for, it is not the one behind the removed task but the one after that.
pub task_next-task_list_remove :
    (s : Tasks) (ws : List ℕ) (w t y : ℕ) (ys : List ℕ) {s' : Tasks}
    → IsQueue s (ws ++ w ∷ t ∷ y ∷ ys)
    → s.current_task ≡ t
    → task_list_remove t s ≡ some s'
    → task_next s'
      ≡ some (
        (s'.at (first (ys ++ (ws ++ w ∷ [])))).registers,
        task_switch (first (ys ++ (ws ++ w ∷ []))) s',
      )
task_next-task_list_remove s ws w t y ys {s'} q e removed =
    let (s'', removed', nexts, head, tail, current) =
      task_list_remove-current s ws w t (y ∷ ys) q e in
    let same : s'' ≡ s' = cc (removed, removed') in
    let order = append_assoc ws (w ∷ []) (y ∷ ys) in
    let next =
      task_next-Nexts s'' (ws ++ w ∷ []) ys y (subst (Nexts s''.at) (sym order) nexts)
        (head ∙ ap first (sym order)) (current) in
    subst Next same
      (next ∙ ap (λ (n : ℕ). some ((s''.at n).registers, task_switch n s'')) (first-two ys ws w y))
  where
    Next : Tasks → Type 0
    Next u =
        task_next u
        ≡ some (
          (u.at (first (ys ++ (ws ++ w ∷ [])))).registers,
          task_switch (first (ys ++ (ws ++ w ∷ []))) u,
        )
