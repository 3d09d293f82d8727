-- ===== src/Task/Remove.antt =====
-- Removing a task from the list: what it leaves of the links in both directions.
use peach_os.Prelude.{
  ℕ, ◌≡◌, ◌≢◌, refl, sym, ap, ◌∙◌, Bool, some, List, [], ◌∷◌, ◌++◌, ◌==◌, if◌then◌else◌, eq→==,
  ne→==, ℕ_discrete,
}
use peach_os.Task.{
  Task, Tasks, set_next, task_list_remove, task_get_next, unlink, move_head, move_tail,
  move_current,
}
use peach_os.Task.Queue.{last, Absent-last, Links-at, first, Links, Absent, Distinct, IsQueue}

-- The tasks of a sequence are linked forward.
abbrev pub Nexts : (ℕ → Task) → List ℕ → Type 0
Nexts ts [] = Unit
Nexts ts (x ∷ xs) = (x ≢ 0) × ((ts x).next ≡ first xs) × Nexts ts xs

Links-Nexts : (ts : ℕ → Task) (p : ℕ) (xs : List ℕ) → Links ts p xs → Nexts ts xs
Links-Nexts ts p [] l = tt
Links-Nexts ts p (x ∷ xs) (x0, prev, next, l) = (x0, next, Links-Nexts ts x xs l)

Nexts-update :
    (ts : ℕ → Task) (q v : ℕ) (xs : List ℕ) → Absent q xs → Nexts ts xs → Nexts (set_next ts q v) xs
Nexts-update ts q v [] h l = tt
Nexts-update ts q v (x ∷ xs) (ne, h) (x0, next, l) =
    (x0, rw (ne→== x q ne) next, Nexts-update ts q v xs h l)

first-skip : (ws : List ℕ) (w t : ℕ) (ys : List ℕ) → first (ws ++ w ∷ t ∷ ys) ≡ first (ws ++ w ∷ ys)
first-skip [] w t ys = refl
first-skip (x ∷ ws) w t ys = refl

Absent-at : (x w : ℕ) (ws zs : List ℕ) → Absent x (ws ++ w ∷ zs) → w ≢ x
Absent-at x w [] zs (ne, h) = ne
Absent-at x w (y ∷ ws) zs (ne, h) = Absent-at x w ws zs h

-- The task before the removed one is linked to the one behind it.
Nexts-skip :
    (ts : ℕ → Task) (ws : List ℕ) (w t : ℕ) (ys : List ℕ)
    → Distinct (ws ++ w ∷ t ∷ ys)
    → Nexts ts (ws ++ w ∷ t ∷ ys)
    → Nexts (set_next ts w (first ys)) (ws ++ w ∷ ys)
Nexts-skip ts [] w t ys (dw, d) (w0, next, (t0, next', l)) =
    (w0, rw (eq→== w w refl) refl, Nexts-update ts w (first ys) ys dw.1 l)
Nexts-skip ts (x ∷ ws) w t ys d (x0, next, l) = (
  x0,
  rw (ne→== x w (λ e. Absent-at x w ws (t ∷ ys) d.0 (sym e))) (next ∙ first-skip ws w t ys),
  Nexts-skip ts ws w t ys d.1 l,
)

last-append : (p w : ℕ) (ws zs : List ℕ) → last p (ws ++ w ∷ zs) ≡ last w zs
last-append p w [] zs = refl
last-append p w (x ∷ ws) zs = last-append x w ws zs

Distinct-drop : (ws zs : List ℕ) → Distinct (ws ++ zs) → Distinct zs
Distinct-drop [] zs d = d
Distinct-drop (x ∷ ws) zs d = Distinct-drop ws zs d.1

first-ne :
    (ws : List ℕ) (w t : ℕ) (ys : List ℕ)
    → Distinct (ws ++ w ∷ t ∷ ys)
    → t ≢ first (ws ++ w ∷ t ∷ ys)
first-ne [] w t ys (dw, d) e = dw.0 e
first-ne (x ∷ ws) w t ys (dx, d) e = absent-second ws dx e
  where
    absent-second : (ws : List ℕ) → Absent x (ws ++ w ∷ t ∷ ys) → t ≢ x
    absent-second [] h = h.1.0
    absent-second (v ∷ ws) h = absent-second ws h.1

-- What a list says of one of its tasks and the one before it.
record IsMiddle (s : Tasks) (ws : List ℕ) (w t : ℕ) (ys : List ℕ) : Type 0 where
  prev : (s.at t).prev ≡ w
  next : (s.at t).next ≡ first ys
  behind : Links s.at t ys
  not_zero : w ≢ 0
  task : t ≢ 0
  different : t ≢ w
  not_head : t ≢ s.task_head

IsQueue-IsMiddle :
    (s : Tasks) (ws : List ℕ) (w t : ℕ) (ys : List ℕ)
    → IsQueue s (ws ++ w ∷ t ∷ ys)
    → IsMiddle s ws w t ys
IsQueue-IsMiddle s ws w t ys q =
    let (w0, _, (t0, prev, next, l)) = Links-at s.at 0 w ws (t ∷ ys) q.links in
    record {
      prev = prev;
      next = next;
      behind = l;
      not_zero = w0;
      task = t0;
      different = λ e. (Distinct-drop ws (w ∷ t ∷ ys) q.distinct).0.0 e;
      not_head = λ e. first-ne ws w t ys q.distinct (e ∙ q.head);
    }

set_next-ne : (ts : ℕ → Task) (p v q : ℕ) → q ≢ p → set_next ts p v q ≡ ts q
set_next-ne ts p v q ne = rw (ne→== q p ne) refl

module _ (s : Tasks) (ws : List ℕ) (w t : ℕ) (ys : List ℕ) (m : IsMiddle s ws w t ys) where
  -- The list when the first two tests are made.
  unlinked : Tasks
  unlinked = record s { at = set_next s.at w (first ys) }

  unlink-middle : move_head t (unlink t s) ≡ unlinked
  unfolding unlink move_head unlinked
  unlink-middle = rw (m.prev, m.next, ne→== w 0 m.not_zero, ne→== t s.task_head m.not_head) refl

  move_tail-last : s.task_tail ≡ t → move_tail t unlinked ≡ record unlinked { task_tail = w }
  unfolding move_tail unlinked
  move_tail-last tail =
      rw (tail, eq→== t t refl, set_next-ne s.at w (first ys) t m.different, m.prev) refl

  move_tail-inner : s.task_tail ≢ t → move_tail t unlinked ≡ unlinked
  unfolding move_tail unlinked
  move_tail-inner tail = rw (ne→== t s.task_tail (λ e. tail (sym e))) refl

  unlinked-next : (unlinked.at t).next ≡ first ys
  unfolding unlinked
  unlinked-next = rw (set_next-ne s.at w (first ys) t m.different) m.next

move_current-next :
    (s : Tasks) (t n : ℕ)
    → s.current_task ≡ t
    → t ≢ 0
    → (s.at t).next ≡ n
    → move_current t s ≡ some (record s { current_task = if n == 0 then s.task_head else n })
unfolding move_current task_get_next
move_current-next s t n e t0 next = rw (move_current, e, eq→== t t refl, ne→== t 0 t0, next) refl

module _ (s : Tasks) (ws : List ℕ) (w t : ℕ) (ys : List ℕ) (m : IsMiddle s ws w t ys)
    (e : s.current_task ≡ t) where
  remove-last :
      s.task_tail ≡ t
      → first ys ≡ 0
      → task_list_remove t s
        ≡ some (record s {
          at = set_next s.at w (first ys);
          task_tail = w;
          current_task = s.task_head;
        })
  unfolding task_list_remove unlinked
  remove-last tail no_next =
      ap (move_current t)
        (ap (move_tail t) (unlink-middle s ws w t ys m) ∙ move_tail-last s ws w t ys m tail)
      ∙ move_current-next (record (unlinked s ws w t ys m) { task_tail = w }) t 0 e m.task
          (unlinked-next s ws w t ys m ∙ no_next)

  remove-inner :
      s.task_tail ≢ t
      → first ys ≢ 0
      → task_list_remove t s
        ≡ some (record s { at = set_next s.at w (first ys); current_task = first ys })
  unfolding task_list_remove unlinked
  remove-inner tail some_next =
      ap (move_current t)
        (ap (move_tail t) (unlink-middle s ws w t ys m) ∙ move_tail-inner s ws w t ys m tail)
      ∙ move_current-next (unlinked s ws w t ys m) t (first ys) e m.task
          (unlinked-next s ws w t ys m)
      ∙ ap
          (λ (b : Bool). some (record (unlinked s ws w t ys m) {
            current_task = if b then s.task_head else first ys;
          }))
          (ne→== (first ys) 0 some_next)

-- Removing the current task of a well-formed list, with a task before it, succeeds: forward, the list
-- runs over the other tasks, its ends are the first and the last of them, and the current task is the
-- one behind the removed one, or the first one if there is none behind it.
pub task_list_remove-current :
    (s : Tasks) (ws : List ℕ) (w t : ℕ) (ys : List ℕ)
    → IsQueue s (ws ++ w ∷ t ∷ ys)
    → s.current_task ≡ t
    → (s' : Tasks) × (task_list_remove t s ≡ some s')
      × Nexts s'.at (ws ++ w ∷ ys)
      × (s'.task_head ≡ first (ws ++ w ∷ ys))
      × (s'.task_tail ≡ last 0 (ws ++ w ∷ ys))
      × (s'.current_task ≡ first (ys ++ ws ++ w ∷ []))
task_list_remove-current s ws w t [] q e =
    let m = IsQueue-IsMiddle s ws w t [] q in
    (
      _,
      remove-last s ws w t [] m e (q.tail ∙ last-append 0 w ws (t ∷ [])) refl,
      Nexts-skip s.at ws w t [] q.distinct (Links-Nexts s.at 0 _ q.links),
      q.head ∙ first-skip ws w t [],
      sym (last-append 0 w ws []),
      q.head ∙ first-skip ws w t [],
    )
task_list_remove-current s ws w t (y ∷ ys) q e =
    let m = IsQueue-IsMiddle s ws w t (y ∷ ys) q in
    let tail : s.task_tail ≡ last y ys = q.tail ∙ last-append 0 w ws (t ∷ y ∷ ys) in
    let absent : Absent t (y ∷ ys) = (Distinct-drop ws (w ∷ t ∷ y ∷ ys) q.distinct).1.0 in
    (
      _,
      remove-inner s ws w t (y ∷ ys) m e (λ f. Absent-last t y ys absent (sym f ∙ tail)) m.behind.0,
      Nexts-skip s.at ws w t (y ∷ ys) q.distinct (Links-Nexts s.at 0 _ q.links),
      q.head ∙ first-skip ws w t (y ∷ ys),
      tail ∙ sym (last-append 0 w ws (y ∷ ys)),
      refl,
    )

set_next-prev : (ts : ℕ → Task) (p v q : ℕ) → (set_next ts p v q).prev ≡ (ts q).prev
set_next-prev ts p v q = elim (ℕ_discrete q p) [
  | yes e ↦ rw (eq→== q p e) (ap (λ (i : ℕ). (ts i).prev) (sym e))
  | no ne ↦ rw (ne→== q p ne) refl
]

-- When the current task of a well-formed list is removed, with a task before it and one behind it, the
-- one behind it keeps its backward link to the removed task.
pub task_list_remove-prev :
    (s : Tasks) (ws : List ℕ) (w t y : ℕ) (ys : List ℕ)
    → IsQueue s (ws ++ w ∷ t ∷ y ∷ ys)
    → s.current_task ≡ t
    → (s' : Tasks) × (task_list_remove t s ≡ some s') × ((s'.at y).prev ≡ t)
task_list_remove-prev s ws w t y ys q e =
    let m = IsQueue-IsMiddle s ws w t (y ∷ ys) q in
    let tail : s.task_tail ≡ last y ys = q.tail ∙ last-append 0 w ws (t ∷ y ∷ ys) in
    let absent : Absent t (y ∷ ys) = (Distinct-drop ws (w ∷ t ∷ y ∷ ys) q.distinct).1.0 in
    (
      _,
      remove-inner s ws w t (y ∷ ys) m e (λ f. Absent-last t y ys absent (sym f ∙ tail)) m.behind.0,
      set_next-prev s.at w y y ∙ m.behind.1,
    )

move_current-some :
    (task : ℕ) (s : Tasks) → task ≢ 0 → (s' : Tasks) × (move_current task s ≡ some s')
unfolding move_current task_get_next
move_current-some task s ne = elim (ℕ_discrete task s.current_task) [
  | yes e ↦
      let next =
        if (s.at s.current_task).next == 0 then s.task_head else (s.at s.current_task).next in
      (
        record s { current_task = next },
        rw (eq→== task s.current_task e, task_get_next, ne→== s.current_task 0 (λ z. ne (e ∙ z)))
            refl,
      )
  | no other ↦ (s, rw (ne→== task s.current_task other) refl)
]

-- Removing a task that is not the null pointer does not fault.
pub task_list_remove-some :
    (task : ℕ) (s : Tasks) → task ≢ 0 → (s' : Tasks) × (task_list_remove task s ≡ some s')
unfolding task_list_remove
task_list_remove-some task s ne =
    move_current-some task (move_tail task (move_head task (unlink task s))) ne
