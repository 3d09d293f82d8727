-- ===== src/Heap/Tests.antt =====
-- Runs of the block allocator, and its theorems at concrete heaps.
use peach_os.Prelude.{ℕ, ◌≡◌, refl, arith, ◌==◌, if◌then◌else◌, ℤ, pos, negsuc}
use peach_os.Heap.{
  Heap, is_free, get_start_block, block_to_address, mark_blocks_taken, malloc, free,
}
use peach_os.Heap.Marks.{taken_at}
use peach_os.Heap.Alloc.{malloc-first_fit, free-malloc, malloc-fragmented}

-- The kernel heap after `kheap_init`.
abbrev fresh : Heap
fresh = record { entries = λ i. 0; total = 25600; saddr = 0x1000000 }

-- A hole of one block, a block in use, another hole, and a block in use.
abbrev holes : ℤ → ℕ
holes (pos i) = if i == 0 then 0 else if i == 2 then 0 else 0x41
holes (negsuc i) = 0

abbrev fragmented : Heap
fragmented = record { entries = holes; total = 4; saddr = 0x1000000 }

abbrev full : Heap
full = record { entries = λ i. 0x41; total = 3; saddr = 0x1000000 }

malloc_two_blocks : (malloc fragmented 8192).0 ≡ 0x1002000
unfolding malloc get_start_block block_to_address mark_blocks_taken
malloc_two_blocks = refl

malloc-first_fit_example :
    ((malloc fresh 5000).0 ≡ 0x1000000)
    × ((i : ℤ) → (malloc fresh 5000).1.entries i ≡ taken_at 0 2 fresh.entries i)
unfolding is_free
malloc-first_fit_example =
    malloc-first_fit fresh 5000 0 (omega arith) (omega arith) (omega arith)
      (λ j p q. absurd (omega arith)) (λ j p q. refl)

free-malloc_example : (free (malloc fresh 5000).1 (malloc fresh 5000).0).entries (pos 1) ≡ 0
free-malloc_example =
    free-malloc fresh 5000 0 (omega arith) (omega arith) (omega arith) (omega arith) (omega arith)
      (λ j p q. absurd (omega arith)) (λ j p q. refl) (pos 1)

-- Block 3 is in use before, and becomes the second block of the new allocation.
malloc-fragmented_example :
    ((malloc fragmented 8192).0 ≡ 0x1002000)
    × ((i : ℤ) → (malloc fragmented 8192).1.entries i ≡ taken_at 2 2 holes i)
unfolding is_free
malloc-fragmented_example =
    malloc-fragmented fragmented 8192 0 1 2 (omega arith) (omega arith) (omega arith) (omega arith)
      (omega arith) (λ j p q. absurd (omega arith)) (λ j p q. ground arith) (λ j p q. ground arith)
      (λ j p q. ground arith)
