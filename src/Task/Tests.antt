-- ===== src/Task/Tests.antt =====
-- Runs of the list of tasks of Task, and its theorems at concrete inputs.
use peach_os.Prelude.{
  arith, ◌==◌, if◌then◌else◌, some, List, [], ◌∷◌, ℕ, ◌≡◌, refl, some, [], ◌∷◌, arith, ◌==◌,
  if◌then◌else◌,
}
use peach_os.KernelHeap.{Ram}
use peach_os.Task.{Task, Tasks, Process, zero_task, task_new, task_list_remove}
use peach_os.Task.Queue.{IsQueue, task_new-IsQueue}
use peach_os.Task.Remove.{Nexts, task_list_remove-current, task_list_remove-prev}

abbrev no_tasks : Tasks
no_tasks = record {
  at = λ p. zero_task;
  task_head = 0;
  task_tail = 0;
  current_task = 0;
  loaded = 0;
}

abbrev shell : Process
shell = record { address = 100; elf_entry = some 0x400000 }

no_tasks-IsQueue : IsQueue no_tasks []
no_tasks-IsQueue = record { links = tt; distinct = tt; head = refl; tail = refl }

task_new-IsQueue_example :
    (s : Tasks) × (task_new 8 shell 4096 no_tasks ≡ some s)
    × IsQueue s (8 ∷ [])
    × (s.current_task ≡ 8)
task_new-IsQueue_example =
    task_new-IsQueue no_tasks [] 8 shell 4096 no_tasks-IsQueue (ground arith) (ground arith) tt

-- Three tasks, at 8, 16 and 24, of which the second one runs.
abbrev three : ℕ → Task
three p =
    if p == 8
    then record zero_task { next = 16 }
    else if p == 16
    then record zero_task { prev = 8; next = 24 }
    else if p == 24
    then record zero_task { prev = 16 }
    else zero_task

abbrev three_tasks : Tasks
three_tasks = record { at = three; task_head = 8; task_tail = 24; current_task = 16; loaded = 0 }

three_tasks-IsQueue : IsQueue three_tasks (8 ∷ 16 ∷ 24 ∷ [])
three_tasks-IsQueue = record {
  links = (ground arith, refl, refl, (ground arith, refl, refl, (ground arith, refl, refl, tt)));
  distinct = ((ground arith, (ground arith, tt)), ((ground arith, tt), (tt, tt)));
  head = refl;
  tail = refl;
}

task_list_remove-current_example :
    (s : Tasks) × (task_list_remove 16 three_tasks ≡ some s)
    × Nexts s.at (8 ∷ 24 ∷ [])
    × (s.task_head ≡ 8)
    × (s.task_tail ≡ 24)
    × (s.current_task ≡ 24)
task_list_remove-current_example =
    task_list_remove-current three_tasks [] 8 16 (24 ∷ []) three_tasks-IsQueue refl

task_list_remove-prev_example :
    (s : Tasks) × (task_list_remove 16 three_tasks ≡ some s) × ((s.at 24).prev ≡ 16)
task_list_remove-prev_example =
    task_list_remove-prev three_tasks [] 8 16 24 [] three_tasks-IsQueue refl

-- A memory whose first bytes are a text, with an empty heap and page tables that map to address 0.
abbrev with_text : Ram
with_text = record {
  heap = record { entries = λ i. 0; total = 25600; saddr = 0x1000000 };
  bytes = λ p. if p == 0 then b'h' else if p == 1 then b'i' else 0;
  words = λ p. 0;
}

abbrev kernel_buffer : List ℕ
kernel_buffer = 9 ∷ 9 ∷ 9 ∷ 9 ∷ 9 ∷ 9 ∷ 9 ∷ 9 ∷ []

abbrev hi : List ℕ
hi = b'h' ∷ b'i' ∷ []

abbrev five_zeros : List ℕ
five_zeros = 0 ∷ 0 ∷ 0 ∷ 0 ∷ 0 ∷ []
