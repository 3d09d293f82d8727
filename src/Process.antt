-- ===== src/Process.antt =====
-- src/task/process.c and process.h: processes, their allocations and arguments, and the table of
-- processes. A process's task is the address of a task of Task, and its page directory is found
-- through it. Messages on the screen are left out. `none` is a
-- panic or a fault.
pub mod Load
pub mod Start
pub mod Table
pub mod Enter
pub mod Terminate
pub mod EndTask
pub mod Files
pub mod Count
pub mod Slots
pub mod Malloc
mod Tests
use peach_os.Prelude.{
  ℕ, zero, suc, ◌+◌, ◌*◌, Bool, true, false, ◌||◌, Option, none, some, ◌>>=◌, List, [], ◌∷◌, ◌==◌,
  leb, ltb, if◌then◌else◌, get_or, set, length, take, ℤ, pos, negsuc, is_negative, add32, sub32,
}
use peach_os.CString.{strncpy}
use peach_os.Keyboard.{KeyboardBuffer}
use peach_os.KernelHeap.{Ram, kzalloc, kfree, read_bytes, write_bytes}
use peach_os.Paging.{align_address, map_to, store, word_at}

-- config.h
abbrev pub max_allocations : ℕ
max_allocations = 1024

abbrev pub max_processes : ℕ
max_processes = 12

-- `struct process_allocation`
pub record Allocation : Type 0 where
  pub size : ℕ
  pub ptr : ℕ

abbrev pub no_allocation : Allocation
no_allocation = record { size = 0; ptr = 0 }

-- `struct process`, with the counter of allocations as a 32-bit pattern and the union of `ptr` and
-- `elf_file` as one address.
pub record Process : Type 0 where
  pub id : ℕ
  pub filename : List ℕ
  pub task : ℕ
  pub active_allocations : ℕ
  pub allocations : List Allocation
  pub filetype : ℕ
  pub program : ℕ
  pub stack : ℕ
  pub size : ℕ
  pub keyboard : KeyboardBuffer
  pub argc : ℕ
  pub argv : ℕ

-- `none` is `-ENOMEM`, also for the loop's message.
unfoldable pub find_free_allocation_index : List Allocation → Option ℕ
find_free_allocation_index [] = none
find_free_allocation_index (a ∷ more) =
    let rest = find_free_allocation_index more >>= λ i. some (suc i) in
    if a.ptr == 0 then some 0 else rest

unfoldable pub process_ptr_belongs_to_process : List Allocation → ℕ → Bool
process_ptr_belongs_to_process [] ptr = false
process_ptr_belongs_to_process (a ∷ more) ptr =
    (a.ptr == ptr) || process_ptr_belongs_to_process more ptr

unfoldable pub allocation_unjoin : List Allocation → ℕ → List Allocation
allocation_unjoin [] ptr = []
allocation_unjoin (a ∷ more) ptr =
    (if a.ptr == ptr then no_allocation else a) ∷ allocation_unjoin more ptr

unfoldable pub get_allocation_by_addr : List Allocation → ℕ → Option Allocation
get_allocation_by_addr [] addr = none
get_allocation_by_addr (a ∷ more) addr =
    let rest = get_allocation_by_addr more addr in if a.ptr == addr then some a else rest

-- PAGING_IS_WRITEABLE | PAGING_IS_PRESENT | PAGING_ACCESS_FROM_ALL
abbrev pub user_flags : ℕ
user_flags = 7

-- `paging_map_to` for an allocation, with the chunk of the process's task.
abbrev pub map_allocation : (chunk flags : ℕ) → Allocation → (ℕ → ℕ) → ℤ × (ℕ → ℕ)
map_allocation chunk flags a words =
    map_to words (words chunk) a.ptr a.ptr (align_address (add32 a.ptr a.size)) flags

-- `chunk` is `process->task->page_directory`.
unfoldable pub process_malloc : (chunk size : ℕ) → Process → Ram → Option (ℕ × Process × Ram)
unfolding kzalloc find_free_allocation_index
process_malloc chunk size p ram = kzalloc size ram >>= λ (ptr, ram1).
    if ptr == 0
    then some (0, p, ram1)
    else find_free_allocation_index p.allocations >>= λ index.
        let a : Allocation = record { size = size; ptr = ptr } in
        let (res, words) = map_allocation chunk user_flags a ram1.words in
        let ram2 = record ram1 { words = words } in
        some (
          if is_negative res then (0, p, kfree ptr ram2) else (
            ptr,
            record p {
              allocations = set p.allocations index a;
              active_allocations = add32 p.active_allocations 1;
            },
            ram2,
          ))

unfoldable pub process_free : (chunk ptr : ℕ) → Process → Ram → Process × Ram
unfolding get_allocation_by_addr allocation_unjoin kfree
process_free chunk ptr p ram = elim (get_allocation_by_addr p.allocations ptr) [
  | none ↦ (p, ram)
  | some a ↦
      let (res, words) = map_allocation chunk 0x00 a ram.words in
      let ram1 = record ram { words = words } in
      if is_negative res then (p, ram1) else (
        record p {
          allocations = allocation_unjoin p.allocations ptr;
          active_allocations = sub32 p.active_allocations 1;
        },
        kfree ptr ram1,
      )
]

-- A list of `struct command_argument`s is the list of their texts of 512 bytes.
unfoldable pub process_count_commands : List (List ℕ) → ℕ
process_count_commands [] = 0
process_count_commands (argument ∷ root_argument) = suc (process_count_commands root_argument)

abbrev pub argument_size : ℕ
argument_size = 512

-- The loop of `process_inject_arguments` at argument `i`: true, or false where there is no memory.
unfoldable pub copy_arguments :
    (chunk argv i : ℕ) → List (List ℕ) → Process → Ram → Option (Bool × Process × Ram)
unfolding process_malloc strncpy
copy_arguments chunk argv i [] p ram = some (true, p, ram)
copy_arguments chunk argv i (argument ∷ root_argument) p ram =
    process_malloc chunk argument_size p ram >>= λ (argument_string, p1, ram1).
    if argument_string == 0
    then some (false, p1, ram1)
    else strncpy (read_bytes argument_size argument_string ram1.bytes) argument argument_size
      >>= λ text. copy_arguments chunk argv (suc i) root_argument p1 (record ram1 {
        bytes = write_bytes argument_string text ram1.bytes;
        words = store ram1.words (word_at argv i) argument_string;
      })

unfoldable pub process_inject_arguments :
    (chunk : ℕ) → List (List ℕ) → Process → Ram → Option (ℤ × Process × Ram)
unfolding process_count_commands process_malloc copy_arguments
process_inject_arguments chunk root_argument p ram =
    let argc = process_count_commands root_argument in
    if argc == 0
    then some (negsuc 0, p, ram)
    else process_malloc chunk (argc * 4) p ram >>= λ (argv, p1, ram1).
        if argv == 0
        then some (negsuc 2, p1, ram1)
        else copy_arguments chunk argv 0 root_argument p1 ram1 >>= λ (copied, p2, ram2). some (
            if copied
            then (pos 0, record p2 { argc = argc; argv = argv }, ram2)
            else (negsuc 2, p2, ram2))

-- The addresses of the processes by their numbers: 0 is a slot without one.
unfoldable pub process_get : ℤ → List ℕ → ℕ
process_get (negsuc n) processes = 0
process_get (pos process_id) processes =
    if leb max_processes process_id then 0 else get_or processes process_id 0

-- `none` is `-EISTKN`.
unfoldable pub process_get_free_slot : List ℕ → Option ℕ
process_get_free_slot [] = none
process_get_free_slot (p ∷ ps) =
    let rest = process_get_free_slot ps >>= λ i. some (suc i) in if p == 0 then some 0 else rest

-- The current process; `none` is the panic.
unfoldable pub process_switch_to_any : List ℕ → Option ℕ
process_switch_to_any [] = none
process_switch_to_any (p ∷ ps) =
    let rest = process_switch_to_any ps in if p == 0 then rest else some p

-- The table, and the current process.
unfoldable pub process_unlink :
    (process id : ℕ) → (processes : List ℕ) → (current_process : ℕ) → Option (List ℕ × ℕ)
unfolding process_switch_to_any
process_unlink process id processes current_process =
    let ps = set processes id 0 in
    if current_process == process
    then (process_switch_to_any ps >>= λ p. some (ps, p))
    else some (ps, current_process)
