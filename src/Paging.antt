-- ===== src/Paging.antt =====
-- src/memory/paging/paging.c: page directories and page tables. The physical memory is its 32-bit
-- words by address, and a `paging_4gb_chunk` is the address of its directory. An address that a
-- function computes is a `uint32_t`.
pub mod Align
pub mod Table
pub mod Range
pub mod Success
pub mod Chunk
pub mod Fill
pub mod Filled
pub mod Identity
mod Tests
use peach_os.Prelude.{
  ℕ, zero, suc, ◌+◌, ◌-◌, ◌*◌, ◌/◌, ◌%◌, ◌^◌, Bool, not, ◌||◌, Option, none, some, ◌==◌, ltb,
  if◌then◌else◌, ℤ, pos, negsuc, is_negative, bit_and, bit_or, add32, sub32,
}

abbrev pub page_size : ℕ
page_size = 4096

abbrev pub entries_per_table : ℕ
entries_per_table = 1024

abbrev pub einvarg : ℤ
einvarg = negsuc 1

-- Words by address.
abbrev pub Memory : Type 0
Memory = ℕ → ℕ

pub store : Memory → ℕ → ℕ → Memory
store mem a v b = if a == b then v else mem b

-- `&base[i]` for an array of 32-bit words
abbrev pub word_at : ℕ → ℕ → ℕ
word_at base i = add32 base (4 * i)

-- The register that `paging_load_directory` loads, and `current_directory`.
pub record Mmu : Type 0 where
  pub cr3 : ℕ
  pub current_directory : ℕ

unfoldable pub switch : ℕ → Mmu → Mmu
switch directory_entry mmu = record { cr3 = directory_entry; current_directory = directory_entry }

unfoldable pub is_aligned : ℕ → Bool
is_aligned addr = (addr % page_size) == 0

unfoldable pub align_address : ℕ → ℕ
align_address ptr =
    if not ((ptr % page_size) == 0) then (ptr + page_size - ptr % page_size) % 2 ^ 32 else ptr

unfoldable pub align_to_lower_page : ℕ → ℕ
align_to_lower_page ptr = ptr - ptr % page_size

-- The indexes in the directory and in the table; `none` is `-EINVARG`, where neither is written.
unfoldable pub get_indexes : ℕ → Option (ℕ × ℕ)
unfolding is_aligned
get_indexes virtual_address =
    if not (is_aligned virtual_address)
    then none
    else some (
      virtual_address / (entries_per_table * page_size),
      virtual_address % (entries_per_table * page_size) / page_size,
    )

-- The table that a directory entry leads to: the entry without its flags.
abbrev pub table_of : ℕ → ℕ
table_of entry = bit_and entry 0xFFFFF000

-- The memory word of a page table that holds the entry of the page with these indexes.
abbrev pub slot : Memory → ℕ → ℕ → ℕ → ℕ
slot mem directory i j = word_at (table_of (mem (word_at directory i))) j

unfoldable pub set : Memory → ℕ → ℕ → ℕ → ℤ × Memory
unfolding get_indexes store
set mem directory virtual_address val = elim (get_indexes virtual_address) [
  | none ↦ (einvarg, mem)
  | some (i, j) ↦ (pos 0, store mem (slot mem directory i j) val)
]

-- Both indexes stay 0 for an address that is not aligned.
unfoldable pub get : Memory → ℕ → ℕ → ℕ
unfolding get_indexes
get mem directory virt = elim (get_indexes virt) [
  | none ↦ mem (slot mem directory 0 0)
  | some (i, j) ↦ mem (slot mem directory i j)
]

unfoldable pub get_physical_address : Memory → ℕ → ℕ → ℕ
unfolding get align_to_lower_page
get_physical_address mem directory virt =
    let aligned = align_to_lower_page virt in
    add32 (table_of (get mem directory aligned)) (sub32 virt aligned)

unfoldable pub map : Memory → ℕ → (virt phys flags : ℕ) → ℤ × Memory
unfolding set
map mem directory virt phys flags =
    if not ((virt % page_size) == 0) || not ((phys % page_size) == 0)
    then (einvarg, mem)
    else set mem directory virt (bit_or phys flags)

-- The loop of `paging_map_range` with `page_count` pages left and the result so far.
unfoldable pub map_range_loop :
    (page_count : ℕ) → ℤ → Memory → ℕ → (virt phys flags : ℕ) → ℤ × Memory
unfolding map
map_range_loop zero res mem directory virt phys flags = (res, mem)
map_range_loop (suc k) res mem directory virt phys flags =
    let (res', mem') = map mem directory virt phys flags in
    let rest =
      map_range_loop k res' mem' directory (add32 virt page_size) (add32 phys page_size) flags in
    if is_negative res' then (res', mem') else rest

unfoldable pub map_range : (page_count : ℕ) → Memory → ℕ → (virt phys flags : ℕ) → ℤ × Memory
unfolding map_range_loop
map_range page_count mem directory virt phys flags =
    map_range_loop page_count (pos 0) mem directory virt phys flags

unfoldable pub map_to : Memory → ℕ → (virt phys phys_end flags : ℕ) → ℤ × Memory
unfolding map_range
map_to mem directory virt phys phys_end flags =
    if not ((virt % page_size) == 0)
    then (einvarg, mem)
    else if not ((phys % page_size) == 0)
    then (einvarg, mem)
    else if not ((phys_end % page_size) == 0)
    then (einvarg, mem)
    else if ltb phys_end phys
    then (einvarg, mem)
    else map_range (sub32 phys_end phys / page_size) mem directory virt phys flags
