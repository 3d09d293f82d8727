-- ===== src/Task/Memory.antt =====
-- src/task/task.c: what the kernel reads from the memory of a task. `chunk` is the task's
-- `page_directory`. While a task's page directory is loaded, an address stands for the physical one
-- that the directory gives.
use peach_os.Prelude.{
  ℕ, zero, suc, ◌*◌, Option, some, ◌>>=◌, List, [], ◌∷◌, leb, if◌then◌else◌, ℤ, negsuc, is_negative,
  add32,
}
use peach_os.CString.{strncpy}
use peach_os.KernelHeap.{Ram, kzalloc, kfree, read_bytes, write_bytes}
use peach_os.Paging.{Memory, page_size, get, map, set, get_physical_address}
use peach_os.Task.{Task}

unfoldable pub task_virtual_address_to_physical : (chunk virtual_address : ℕ) → Memory → ℕ
task_virtual_address_to_physical chunk virtual_address words =
    get_physical_address words (words chunk) virtual_address

-- The `n` bytes from an address of the task on.
unfoldable pub read_virtual : (n virtual_address directory : ℕ) → Memory → (ℕ → ℕ) → List ℕ
read_virtual zero virtual_address directory words bytes = []
read_virtual (suc n) virtual_address directory words bytes =
    bytes (get_physical_address words directory virtual_address)
    ∷ read_virtual n (add32 virtual_address 1) directory words bytes

-- The word on the task's stack. The kernel's pages are loaded again behind it.
unfoldable pub task_get_stack_item : Task → (index : ℕ) → Memory → ℕ
task_get_stack_item task index words =
    words (
      get_physical_address words (words task.page_directory) (add32 task.registers.esp (4 * index)))

-- The result, what `physical` holds then, and the memory. `none` is a panic, or a write past the end of
-- `physical`.
unfoldable pub copy_string_from_task :
    (chunk virtual_address : ℕ)
    → (physical : List ℕ) → (max : ℕ) → Ram
    → Option ((ℤ × List ℕ) × Ram)
copy_string_from_task chunk virtual_address physical max ram =
    if leb page_size max
    then some ((negsuc 1, physical), ram)
    else kzalloc max ram >>= λ (tmp, ram1).
        let task_directory = ram1.words chunk in
        let old_entry = get ram1.words task_directory tmp in
        let words = (map ram1.words task_directory tmp tmp 7).1 in
        strncpy (read_bytes max tmp ram1.bytes)
          (read_virtual max virtual_address task_directory words ram1.bytes) max
        >>= λ text.
            let bytes = write_bytes tmp text ram1.bytes in
            let (res, restored) = set words task_directory tmp old_entry in
            let ram2 = record ram1 { bytes = bytes; words = restored } in
            if is_negative res
            then some ((negsuc 0, physical), kfree tmp ram2)
            else strncpy physical (read_bytes max tmp bytes) max >>= λ out.
                some ((res, out), kfree tmp ram2)
