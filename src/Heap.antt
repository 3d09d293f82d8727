-- ===== src/Heap.antt =====
-- src/memory/heap/heap.c and heap.h: the block allocator of the kernel. The heap is an array of
-- 4096-byte blocks, and the table holds one byte for each block.
pub mod Search
pub mod Marks
pub mod Next
pub mod Alloc
mod Tests
use peach_os.Prelude.{
  ℕ, zero, suc, ◌+◌, ◌-◌, ◌*◌, ◌/◌, ◌%◌, ◌^◌, Bool, true, false, not, ◌||◌, Option, none, some,
  bit_and, bit_or, ltb, ◌==◌, if◌then◌else◌, ℤ, pos, negsuc, suc_ℤ, eq_ℤ, signed32, div_ℤ,
  is_negative, add32, sub32, mul32,
}

-- config.h
abbrev pub block_size : ℕ
block_size = 4096

-- The status byte of a block: `0x01` in the low four bits is taken.
abbrev pub entry_taken : ℕ
entry_taken = 0x01

abbrev pub entry_free : ℕ
entry_free = 0x00

abbrev pub has_next : ℕ
has_next = 0x80

abbrev pub is_first : ℕ
is_first = 0x40

-- `-EINVARG` and `-ENOMEM`
abbrev pub einvarg : ℤ
einvarg = negsuc 1

-- `struct heap_table` and `struct heap`. `entries` is the memory from the table's first byte on: an
-- index is an `int`, and the code has no check that keeps it inside the table.
pub record Heap : Type 0 where
  pub entries : ℤ → ℕ
  pub total : ℕ
  pub saddr : ℕ

pub set_entry : (ℤ → ℕ) → ℤ → ℕ → ℤ → ℕ
set_entry e i v j = if eq_ℤ i j then v else e j

-- The C function returns `bool`, so `-EINVARG` becomes `true`.
pub validate_table : ℕ → ℕ → ℕ → Bool
validate_table start end total = not (total == (sub32 end start / block_size))

pub validate_alignment : ℕ → Bool
validate_alignment ptr = (ptr % block_size) == 0

bool_to_int : Bool → ℤ
bool_to_int true = pos 1
bool_to_int false = pos 0

-- `memset(table->entries, FREE, total)`
clear_entries : ℕ → ℕ → (ℤ → ℕ) → ℤ → ℕ
clear_entries zero i e = e
clear_entries (suc k) i e = clear_entries k (i + 1) (set_entry e (pos i) entry_free)

-- The result, and the heap that is written: `entries` is what stands in memory before the call.
pub create : ℕ → ℕ → (ℤ → ℕ) → ℕ → Heap → ℤ × Heap
unfolding validate_table validate_alignment bool_to_int clear_entries set_entry
create ptr end entries total old =
    if not (validate_alignment ptr) || not (validate_alignment end)
    then (einvarg, old)
    else let res = bool_to_int (validate_table ptr end total) in
      if is_negative res
      then (res, record { entries = entries; total = total; saddr = ptr })
      else (res, record { entries = clear_entries total 0 entries; total = total; saddr = ptr })

pub align_value_to_upper : ℕ → ℕ
align_value_to_upper val =
    if (val % block_size) == 0 then val else add32 (val - val % block_size) block_size

unfoldable pub is_free : ℕ → Bool
is_free entry = bit_and entry 0x0F == entry_free

-- `if (start_block == -1) start_block = i;`, with `none` for -1
abbrev pub first_block : Option ℕ → ℕ → ℕ
first_block none i = i
first_block (some s) i = s

-- The loop of `heap_get_start_block` from index `i` with `rounds` blocks left. Note that
-- `free_blocks` is not reset where a taken block interrupts a run.
pub search : (ℤ → ℕ) → ℕ → (rounds i : ℕ) → Option ℕ → ℕ → Option ℕ
unfolding is_free
search e n zero i start free_blocks = start
search e n (suc k) i start free_blocks =
    let skip = search e n k (i + 1) none free_blocks in
    let start' = first_block start i in
    let more = search e n k (i + 1) (some start') (free_blocks + 1) in
    if is_free (e (pos i)) then (if (free_blocks + 1) == n then some start' else more) else skip

-- `none` is `-ENOMEM`.
pub get_start_block : Heap → ℕ → Option ℕ
unfolding search
get_start_block h total_blocks = search h.entries total_blocks h.total 0 none 0

pub block_to_address : Heap → ℕ → ℕ
block_to_address h block = add32 h.saddr (mul32 block block_size)

pub address_to_block : Heap → ℕ → ℤ
address_to_block h address = div_ℤ (signed32 (sub32 address h.saddr)) block_size

-- The rounds of `for (int i = starting_block; i < (int) total; i++)`.
pub rounds_from : ℤ → ℕ → ℕ
rounds_from (pos s) total = total - s
rounds_from (negsuc s) total = total + suc s

mark_free_loop : ℕ → ℤ → (ℤ → ℕ) → ℤ → ℕ
unfolding set_entry
mark_free_loop zero i e = e
mark_free_loop (suc k) i e =
    let e' = set_entry e i entry_free in
    let more = mark_free_loop k (suc_ℤ i) e' in if bit_and (e i) has_next == 0 then e' else more

pub mark_blocks_free : Heap → ℤ → Heap
unfolding mark_free_loop rounds_from
mark_blocks_free h start = record h {
  entries = mark_free_loop (rounds_from start h.total) start h.entries;
}

-- The loop of `heap_mark_blocks_taken` at index `i` with `rounds` blocks left: the next entry has a
-- successor unless it is the last one (`i != end_block - 1`).
mark_taken_loop : (rounds i : ℕ) → ℕ → (ℤ → ℕ) → ℤ → ℕ
unfolding set_entry
mark_taken_loop zero i entry e = e
mark_taken_loop (suc k) i entry e =
    mark_taken_loop k (i + 1) (if k == 1 then entry_taken else bit_or entry_taken has_next)
      (set_entry e (pos i) entry)

pub mark_blocks_taken : Heap → ℕ → ℕ → Heap
unfolding mark_taken_loop
mark_blocks_taken h start n =
    let entry = bit_or entry_taken is_first in
    record h {
      entries =
          mark_taken_loop n start (if ltb 1 n then bit_or entry has_next else entry) h.entries;
    }

-- The address (0 if there is none) and the heap.
pub malloc_blocks : Heap → ℕ → ℕ × Heap
malloc_blocks h n = elim (get_start_block h n) [
  | none ↦ (0, h)
  | some start ↦ (block_to_address h start, mark_blocks_taken h start n)
]

pub malloc : Heap → ℕ → ℕ × Heap
unfolding malloc_blocks align_value_to_upper
malloc h size = malloc_blocks h (align_value_to_upper size / block_size)

pub free : Heap → ℕ → Heap
free h ptr = mark_blocks_free h (address_to_block h ptr)
