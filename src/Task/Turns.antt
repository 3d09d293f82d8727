-- ===== src/Task/Turns.antt =====
-- The turns that tasks take: the order of the list from the current task on, and the registers.
use peach_os.Prelude.{
  ℕ, ◌≡◌, ◌≢◌, refl, sym, ap, ◌∙◌, some, List, [], ◌∷◌, ◌++◌, eq→==, ne→==, ℕ_discrete,
}
use mathlib.Core.List.{append_assoc}
use mathlib.Core.Path.{subst}
use peach_os.Task.{Registers, Tasks, task_next, task_switch, task_save_frame}
use peach_os.Task.Queue.{first, Links, IsQueue, Links-at, task_get_next-rotates}

-- The tasks in the order in which they go on when the current one, `c`, stops: `c` is the last.
pub record IsTurn (s : Tasks) (c : ℕ) (us : List ℕ) : Type 0 where
  pub before : List ℕ
  pub behind : List ℕ
  pub order : us ≡ behind ++ (before ++ c ∷ [])
  pub queue : IsQueue s (before ++ c ∷ behind)
  pub current : s.current_task ≡ c

Links-saved :
    (s : Tasks) (c p : ℕ) (frame : Registers) (xs : List ℕ)
    → Links s.at p xs
    → Links (task_save_frame c frame s).at p xs
unfolding task_save_frame
Links-saved s c p frame [] l = tt
Links-saved s c p frame (x ∷ xs) (x0, prev, next, l) = elim (ℕ_discrete x c) [
  | yes e ↦ (
    x0,
    rw (eq→== x c e) (ap (λ (t : ℕ). (s.at t).prev) (sym e) ∙ prev),
    rw (eq→== x c e) (ap (λ (t : ℕ). (s.at t).next) (sym e) ∙ next),
    Links-saved s c x frame xs l,
  )
  | no ne ↦ (x0, rw (ne→== x c ne) prev, rw (ne→== x c ne) next, Links-saved s c x frame xs l)
]

-- The tasks when the current one is interrupted, with the kernel's pages loaded.
abbrev pub saved : (directory : ℕ) → (frame : Registers) → Tasks → Tasks
saved directory frame s = task_save_frame s.current_task frame (record s { loaded = directory })

pub IsQueue-saved :
    (directory : ℕ) (frame : Registers) (s : Tasks) (xs : List ℕ)
    → IsQueue s xs
    → IsQueue (saved directory frame s) xs
unfolding task_save_frame
IsQueue-saved directory frame s xs q = record {
  links = Links-saved (record s { loaded = directory }) s.current_task 0 frame xs q.links;
  distinct = q.distinct;
  head = q.head;
  tail = q.tail;
}

pub saved-current :
    (directory : ℕ) (frame : Registers) (s : Tasks)
    → (saved directory frame s).current_task ≡ s.current_task
unfolding task_save_frame
saved-current directory frame s = refl

IsQueue-switch : (s : Tasks) (t : ℕ) (xs : List ℕ) → IsQueue s xs → IsQueue (task_switch t s) xs
unfolding task_switch
IsQueue-switch s t xs q = record {
  links = q.links;
  distinct = q.distinct;
  head = q.head;
  tail = q.tail;
}

rest : List ℕ → List ℕ
rest [] = []
rest (x ∷ xs) = xs

-- The next task's turn: it becomes the last in the order.
pub IsTurn-switch :
    (s : Tasks) (c z : ℕ) (us : List ℕ)
    → IsTurn s c (z ∷ us)
    → IsTurn (task_switch z s) z (us ++ z ∷ [])
unfolding task_switch rest
IsTurn-switch s c z us t = go t.before t.behind t.order t.queue
  where
    go :
        (before behind : List ℕ)
        → z ∷ us ≡ behind ++ (before ++ c ∷ [])
        → IsQueue s (before ++ c ∷ behind)
        → IsTurn (task_switch z s) z (us ++ z ∷ [])
    go before (y ∷ behind) e q = record {
      before = before ++ c ∷ [];
      behind = behind;
      order =
          ap (λ (l : List ℕ). l ++ z ∷ []) (ap rest e)
          ∙ append_assoc behind (before ++ c ∷ []) (z ∷ []);
      queue = IsQueue-switch s z ((before ++ c ∷ []) ++ z ∷ behind) (
          subst (IsQueue s)
            (ap (λ (y' : ℕ). before ++ c ∷ y' ∷ behind) (sym (ap first e))
              ∙ sym (append_assoc before (c ∷ []) (z ∷ behind)))
            q);
      current = refl;
    }
    go (x ∷ before) [] e q = record {
      before = [];
      behind = before ++ c ∷ [];
      order = ap (λ (l : List ℕ). l ++ z ∷ []) (ap rest e);
      queue =
          IsQueue-switch s z (z ∷ before ++ c ∷ [])
            (subst (IsQueue s) (ap (λ (x' : ℕ). x' ∷ before ++ c ∷ []) (sym (ap first e))) q);
      current = refl;
    }
    go [] [] e q = record {
      before = [];
      behind = [];
      order = ap (λ (l : List ℕ). l ++ z ∷ []) (ap rest e);
      queue =
          IsQueue-switch s z (z ∷ [])
            (subst (IsQueue s) (ap (λ (x' : ℕ). x' ∷ []) (sym (ap first e))) q);
      current = refl;
    }

pub IsTurn-saved :
    (directory : ℕ) (frame : Registers) (s : Tasks) (c : ℕ) (us : List ℕ)
    → IsTurn s c us
    → IsTurn (saved directory frame s) c us
unfolding task_save_frame
IsTurn-saved directory frame s c us t = record {
  before = t.before;
  behind = t.behind;
  order = t.order;
  queue = IsQueue-saved directory frame s (t.before ++ c ∷ t.behind) t.queue;
  current = t.current;
}

pub IsTurn-ne : (s : Tasks) (c z : ℕ) (us : List ℕ) → IsTurn s c (z ∷ us) → z ≢ 0
IsTurn-ne s c z us t =
    let u = IsTurn-switch s c z us t in
    (Links-at (task_switch z s).at 0 z u.before u.behind u.queue.links).0

pub task_next-IsTurn :
    (s : Tasks) (c z : ℕ) (us : List ℕ)
    → IsTurn s c (z ∷ us)
    → task_next s ≡ some ((s.at z).registers, task_switch z s)
unfolding task_next
task_next-IsTurn s c z us t =
    rw
      (
        task_next,
        task_get_next-rotates s t.before t.behind c t.queue t.current,
        append_assoc t.behind t.before (c ∷ []),
        ← t.order,
        ne→== z 0 (IsTurn-ne s c z us t),
      )
      refl
