-- ===== src/Paging/Chunk.antt =====
-- The chunks of `paging_new_4gb` and `paging_free_4gb`: the word at the address of a
-- `paging_4gb_chunk` is the address of its directory.
use peach_os.Prelude.{ℕ, zero, suc, ◌*◌, Option, some, ◌>>=◌, bit_or, add32}
use peach_os.KernelHeap.{Ram, kzalloc, kfree}
use peach_os.Paging.{page_size, entries_per_table, store, word_at, table_of}

abbrev pub is_present : ℕ
is_present = 1

abbrev pub is_writeable : ℕ
is_writeable = 2

abbrev pub access_from_all : ℕ
access_from_all = 4

-- The entries of one table from index `b` on, for the addresses from `offset` on.
unfoldable pub fill_table : (rounds b : ℕ) → (entry offset flags : ℕ) → (ℕ → ℕ) → ℕ → ℕ
unfolding store
fill_table zero b entry offset flags mem = mem
fill_table (suc k) b entry offset flags mem =
    fill_table k (suc b) entry offset flags
      (store mem (word_at entry b) (bit_or (add32 offset (b * page_size)) flags))

-- The tables from directory index `i` on.
unfoldable pub fill_directory : (rounds i : ℕ) → (directory offset flags : ℕ) → Ram → Option Ram
unfolding fill_table kzalloc
fill_directory zero i directory offset flags ram = some ram
fill_directory (suc k) i directory offset flags ram =
    kzalloc (4 * entries_per_table) ram >>= λ (entry, ram1).
    let filled = fill_table entries_per_table 0 entry offset flags ram1.words in
    let words = store filled (word_at directory i) (bit_or (bit_or entry flags) is_writeable) in
    fill_directory k (suc i) directory (add32 offset (entries_per_table * page_size)) flags
      (record ram1 { words = words })

unfoldable pub new_4gb : (flags : ℕ) → Ram → Option (ℕ × Ram)
unfolding fill_directory
new_4gb flags ram = kzalloc (4 * entries_per_table) ram >>= λ (directory, ram1).
    fill_directory entries_per_table 0 directory 0 flags ram1 >>= λ ram2.
    kzalloc 4 ram2 >>= λ (chunk, ram3).
    some (chunk, record ram3 { words = store ram3.words chunk directory })

-- The loop of `paging_free_4gb` from directory index `i` on.
unfoldable pub free_tables : (rounds i : ℕ) → (directory : ℕ) → Ram → Ram
unfolding kfree
free_tables zero i directory ram = ram
free_tables (suc k) i directory ram =
    free_tables k (suc i) directory (kfree (table_of (ram.words (word_at directory i))) ram)

unfoldable pub free_4gb : (chunk : ℕ) → Ram → Ram
unfolding free_tables
free_4gb chunk ram =
    let directory = ram.words chunk in
    kfree chunk (kfree directory (free_tables entries_per_table 0 directory ram))
