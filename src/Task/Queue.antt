-- ===== src/Task/Queue.antt =====
-- The list of tasks as a sequence of addresses, and the order in which tasks take turns.
use peach_os.Prelude.{ℕ, ◌≡◌, ◌≢◌, refl, sym, ap, ◌∙◌, some, List, [], ◌∷◌, ◌++◌, eq→==, ne→==}
use mathlib.Core.Path.{subst}
use peach_os.Task.{
  Task, Tasks, Process, update, set_next, set_prev, task_get_next, initial_task, task_init,
  task_new,
}

-- The first address of a sequence, and the last one, which is `p` if there is none.
abbrev pub first : List ℕ → ℕ
first [] = 0
first (x ∷ xs) = x

abbrev pub last : ℕ → List ℕ → ℕ
last p [] = p
last p (x ∷ xs) = last x xs

-- The tasks of a sequence are linked in both directions; `p` stands before the first one.
abbrev pub Links : (ℕ → Task) → ℕ → List ℕ → Type 0
Links ts p [] = Unit
Links ts p (x ∷ xs) = (x ≢ 0) × ((ts x).prev ≡ p) × ((ts x).next ≡ first xs) × Links ts x xs

abbrev pub Absent : ℕ → List ℕ → Type 0
Absent t [] = Unit
Absent t (x ∷ xs) = (x ≢ t) × Absent t xs

abbrev pub Distinct : List ℕ → Type 0
Distinct [] = Unit
Distinct (x ∷ xs) = Absent x xs × Distinct xs

-- The list that runs from `task_head` to `task_tail`.
pub record IsQueue (s : Tasks) (xs : List ℕ) : Type 0 where
  pub links : Links s.at 0 xs
  pub distinct : Distinct xs
  pub head : s.task_head ≡ first xs
  pub tail : s.task_tail ≡ last 0 xs

-- A write to a task that does not stand in a sequence.
pub Links-update :
    (ts : ℕ → Task) (p q : ℕ) (t : Task) (xs : List ℕ)
    → Absent q xs
    → Links ts p xs
    → Links (update ts q t) p xs
Links-update ts p q t [] h l = tt
Links-update ts p q t (x ∷ xs) (ne, h) (x0, prev, next, l) =
    (x0, rw (ne→== x q ne) prev, rw (ne→== x q ne) next, Links-update ts x q t xs h l)

pub Absent-last : (x y : ℕ) (ys : List ℕ) → Absent x (y ∷ ys) → x ≢ last y ys
Absent-last x y [] (ne, h) e = ne (sym e)
Absent-last x y (z ∷ ys) (ne, h) e = Absent-last x z ys h e

-- Linking a task behind the last one.
Links-snoc :
    (ts : ℕ → Task) (p t : ℕ) (x : ℕ) (xs : List ℕ)
    → t ≢ 0
    → Absent t (x ∷ xs)
    → Distinct (x ∷ xs)
    → (ts t).next ≡ 0
    → Links ts p (x ∷ xs)
    → Links (set_prev (set_next ts (last 0 (x ∷ xs)) t) t (last 0 (x ∷ xs))) p ((x ∷ xs) ++ t ∷ [])
Links-snoc ts p t x [] t0 (ne, _) d n (x0, prev, next, l) = (
  x0,
  rw (ne→== x t ne, eq→== x x refl) prev,
  rw (ne→== x t ne, eq→== x x refl) refl,
  (t0, rw (eq→== t t refl) refl, rw (eq→== t t refl, ne→== t x (λ e. ne (sym e))) n, tt),
)
Links-snoc ts p t x (y ∷ xs) t0 (ne, h) (dx, d) n (x0, prev, next, l) = (
  x0,
  rw (ne→== x t ne, ne→== x (last y xs) (Absent-last x y xs dx)) prev,
  rw (ne→== x t ne, ne→== x (last y xs) (Absent-last x y xs dx)) next,
  Links-snoc ts x t y xs t0 h d n l,
)

pub Absent-snoc : (x t : ℕ) (xs : List ℕ) → Absent x xs → t ≢ x → Absent x (xs ++ t ∷ [])
Absent-snoc x t [] h ne = (ne, tt)
Absent-snoc x t (y ∷ ys) (ne', h) ne = (ne', Absent-snoc x t ys h ne)

pub Distinct-snoc : (t : ℕ) (xs : List ℕ) → Absent t xs → Distinct xs → Distinct (xs ++ t ∷ [])
Distinct-snoc t [] h d = (tt, tt)
Distinct-snoc t (x ∷ xs) (ne, h) (dx, d) =
    (Absent-snoc x t xs dx (λ e. ne (sym e)), Distinct-snoc t xs h d)

last-snoc : (p t : ℕ) (xs : List ℕ) → last p (xs ++ t ∷ []) ≡ t
last-snoc p t [] = refl
last-snoc p t (x ∷ xs) = last-snoc x t xs

-- The task that is current after a task is made: the new one, if it is the only one.
abbrev pub current_after : Tasks → ℕ → List ℕ → ℕ
current_after s t [] = t
current_after s t (x ∷ xs) = s.current_task

task_new-first :
    (s : Tasks) (t : ℕ) (process : Process) (directory : ℕ)
    → t ≢ 0
    → directory ≢ 0
    → s.task_head ≡ 0
    → task_new t process directory s
      ≡ some (record s {
        at = update s.at t (initial_task process directory);
        task_head = t;
        task_tail = t;
        current_task = t;
      })
unfolding task_new task_init
task_new-first s t process directory t0 d0 h =
    rw (task_new, ne→== t 0 t0, ne→== directory 0 d0, h) refl

task_new-behind :
    (s : Tasks) (t : ℕ) (process : Process) (directory : ℕ)
    → t ≢ 0
    → directory ≢ 0
    → s.task_head ≢ 0
    → task_new t process directory s
      ≡ some (record s {
        at =
            set_prev
              (set_next (update s.at t (initial_task process directory)) s.task_tail t)
              t
              s.task_tail;
        task_tail = t;
      })
unfolding task_new task_init
task_new-behind s t process directory t0 d0 h =
    rw (task_new, ne→== t 0 t0, ne→== directory 0 d0, ne→== s.task_head 0 h) refl

-- A new task, with an address that is not 0 and not in a well-formed list, and with a page directory,
-- stands at the end of the list, which stays well formed, and becomes the current one if it is the
-- first.
pub task_new-IsQueue :
    (s : Tasks) (xs : List ℕ) (t : ℕ) (process : Process) (directory : ℕ)
    → IsQueue s xs
    → t ≢ 0
    → directory ≢ 0
    → Absent t xs
    → (s' : Tasks) × (task_new t process directory s ≡ some s')
      × IsQueue s' (xs ++ t ∷ [])
      × (s'.current_task ≡ current_after s t xs)
task_new-IsQueue s [] t process directory q t0 d0 h = (
  _,
  task_new-first s t process directory t0 d0 q.head,
  record {
    links = (t0, rw (eq→== t t refl) refl, rw (eq→== t t refl) refl, tt);
    distinct = (tt, tt);
    head = refl;
    tail = refl;
  },
  refl,
)
task_new-IsQueue s (x ∷ xs) t process directory q t0 d0 h = (
  _,
  task_new-behind s t process directory t0 d0 (λ e. q.links.0 (sym q.head ∙ e)),
  record {
    links =
        subst
          (λ (p : ℕ).
            Links (set_prev (set_next (update s.at t (initial_task process directory)) p t) t p) 0
              ((x ∷ xs) ++ t ∷ []))
          (sym q.tail)
          (Links-snoc (update s.at t (initial_task process directory)) 0 t x xs t0 h q.distinct
            (rw (eq→== t t refl) refl) (Links-update s.at 0 t _ (x ∷ xs) h q.links));
    distinct = Distinct-snoc t (x ∷ xs) h q.distinct;
    head = q.head;
    tail = sym (last-snoc 0 t (x ∷ xs));
  },
  refl,
)

pub Links-at :
    (ts : ℕ → Task) (p c : ℕ) (xs ys : List ℕ)
    → Links ts p (xs ++ c ∷ ys)
    → (c ≢ 0) × ((ts c).next ≡ first ys) × Links ts c ys
Links-at ts p c [] ys (c0, prev, next, l) = (c0, next, l)
Links-at ts p c (x ∷ xs) ys (x0, prev, next, l) = Links-at ts x c xs ys l

-- In a well-formed list with the current task `c`, the next one is the one behind it, and the first one of the list if there
-- is none behind it.
pub task_get_next-rotates :
    (s : Tasks) (xs ys : List ℕ) (c : ℕ)
    → IsQueue s (xs ++ c ∷ ys)
    → s.current_task ≡ c
    → task_get_next s ≡ some (first (ys ++ xs ++ c ∷ []))
unfolding task_get_next
task_get_next-rotates s xs [] c q e =
    let (c0, next, l) = Links-at s.at 0 c xs [] q.links in
    rw (task_get_next, e, ne→== c 0 c0, next) (ap some q.head)
task_get_next-rotates s xs (y ∷ ys) c q e =
    let (c0, next, l) = Links-at s.at 0 c xs (y ∷ ys) q.links in
    rw (task_get_next, e, ne→== c 0 c0, next, ne→== y 0 l.0) refl
