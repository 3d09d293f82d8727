-- ===== src/KernelHeap.antt =====
-- src/memory/heap/kernelheap.c: the kernel's heap and the memory that it hands out. The memory has two
-- views, its bytes and its 32-bit words, each by address: no range is used as both. `none` is a panic,
-- which does not return.
pub mod Alloc
pub mod Bytes
pub mod Bump
use peach_os.Prelude.{
  ℕ, zero, suc, ◌+◌, ◌*◌, ◌/◌, Bool, Option, none, some, ◌==◌, ltb, if◌then◌else◌, ◌>>=◌, ℤ,
  is_negative, sub32, add32, get_or, length, List, [], ◌∷◌,
}
use peach_os.Heap.{Heap, block_size, create, malloc, free}

-- config.h
abbrev pub heap_size_bytes : ℕ
heap_size_bytes = 104857600

abbrev pub heap_address : ℕ
heap_address = 0x01000000

pub record Ram : Type 0 where
  pub heap : Heap
  pub bytes : ℕ → ℕ
  pub words : ℕ → ℕ

-- `kheap_init`, where `entries` is what stands at PEACHOS_HEAP_TABLE_ADDRESS.
unfoldable pub kheap_init : (ℤ → ℕ) → Heap → Option Heap
kheap_init entries old =
    let total_table_entries = heap_size_bytes / block_size in
    let (response, heap) =
      create heap_address (heap_address + heap_size_bytes) entries total_table_entries old in
    if is_negative response then none else some heap

-- `memset(ptr, 0x00, size)` in one view.
unfoldable pub clear : (ptr size : ℕ) → (ℕ → ℕ) → ℕ → ℕ
clear ptr size mem p = if ltb (sub32 p ptr) size then 0 else mem p

unfoldable pub kmalloc : (size : ℕ) → Ram → Option (ℕ × Ram)
kmalloc size ram =
    let (ptr, heap) = malloc ram.heap size in
    if ptr == 0 then none else some (ptr, record ram { heap = heap })

unfoldable pub kzalloc : (size : ℕ) → Ram → Option (ℕ × Ram)
unfolding kmalloc clear
kzalloc size ram = kmalloc size ram >>= λ (ptr, ram'). some (
    if ptr == 0 then (0, ram') else (
      ptr,
      record ram' { bytes = clear ptr size ram'.bytes; words = clear ptr size ram'.words },
    ))

unfoldable pub kfree : (ptr : ℕ) → Ram → Ram
kfree ptr ram = record ram { heap = free ram.heap ptr }

-- The `n` bytes from an address on.
abbrev pub read_bytes : (n ptr : ℕ) → (ℕ → ℕ) → List ℕ
read_bytes zero ptr mem = []
read_bytes (suc n) ptr mem = mem ptr ∷ read_bytes n (add32 ptr 1) mem

-- The bytes after a text is written from an address on.
abbrev pub write_bytes : (ptr : ℕ) → List ℕ → (ℕ → ℕ) → ℕ → ℕ
write_bytes ptr text mem p =
    if ltb (sub32 p ptr) (length text) then get_or text (sub32 p ptr) 0 else mem p
