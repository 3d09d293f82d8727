-- ===== src/Process/Malloc.antt =====
-- `process_malloc` and `process_free` on the heap.
use peach_os.Prelude.{
  ℕ, ◌+◌, ◌*◌, ◌^◌, ◌<◌, ◌≡◌, ◌≢◌, refl, ap, ◌∙◌, arith, true, false, some, set, add32, sub32, ℤ,
  pos, ne→==, ltb,
}
use peach_os.KernelHeap.{Ram, kfree, clear}
use peach_os.KernelHeap.Alloc.{HasRun, address, zeroed, kzalloc-first_fit, kfree-kzalloc}
use peach_os.Paging.Success.{map_to-result}
use peach_os.Process.{
  Process, Allocation, user_flags, map_allocation, process_malloc, process_free,
  process_ptr_belongs_to_process,
}
use peach_os.Process.Slots.{
  FirstFree, find_free-FirstFree, allocation_unjoin-set, get_allocation_by_addr-set,
  process_ptr_belongs_to_process-set,
}

module _ (chunk size a i : ℕ) (p : Process) (ram : Ram) (run : HasRun ram.heap size a) where
  abbrev ptr : ℕ
  ptr = address ram.heap a

  abbrev entry : Allocation
  entry = record { size = size; ptr = ptr }

  abbrev owner : Process
  owner = record p {
    allocations = set p.allocations i entry;
    active_allocations = add32 p.active_allocations 1;
  }

  abbrev mapped : (flags : ℕ) → Ram → Ram
  mapped flags r = record r { words = (map_allocation chunk flags entry r.words).1 }

  maps : (flags : ℕ) (words : ℕ → ℕ) → (map_allocation chunk flags entry words).0 ≡ pos 0
  maps flags words =
      map_to-result words (words chunk) ptr ptr size flags (omega (arith, run.aligned))
        (omega (arith, run.aligned)) (omega (arith, run.addressed))

  process_malloc-some :
      FirstFree p.allocations i
      → process_malloc chunk size p ram ≡ some (ptr, owner, mapped user_flags (zeroed size a ram))
  unfolding process_malloc
  process_malloc-some f =
      rw
        (
          kzalloc-first_fit ram size a run,
          ne→== ptr 0 (λ e. omega (arith, run.above_null)),
          find_free-FirstFree p.allocations i f,
          maps user_flags (zeroed size a ram).words,
        )
        refl

  process_free-owner :
      (r : Ram)
      → FirstFree p.allocations i
      → process_ptr_belongs_to_process p.allocations ptr ≡ false
      → p.active_allocations < 2 ^ 32
      → process_free chunk ptr owner r ≡ (p, kfree ptr (mapped 0 r))
  unfolding process_free
  process_free-owner r f fresh small =
      rw
        (
          get_allocation_by_addr-set p.allocations i size ptr f fresh,
          process_free,
          maps 0 r.words,
          allocation_unjoin-set p.allocations i size ptr f fresh,
        )
        (ap (λ (c : ℕ). (record p { active_allocations = c }, kfree ptr (mapped 0 r)))
          (omega arith))

-- Let the heap begin on a page above 0, let all its blocks below `a` be in use, and let the blocks that
-- the size, above 0, needs stand free from block `a` on, inside the heap, with `a * 4096` below 2 ^ 31
-- and their end in the address space. Let the first slot of the process without an allocation, slot `i`,
-- be cleared, let the address of block `a` not be in its table yet, and let its count of allocations be
-- a 32-bit number. Then `process_malloc` answers an address other than 0, and `process_free` of that
-- address makes the process what it was before, and the heap's table too.
pub process_free-process_malloc :
    (chunk size a i : ℕ) (p : Process) (ram : Ram)
    → HasRun ram.heap size a
    → FirstFree p.allocations i
    → process_ptr_belongs_to_process p.allocations (address ram.heap a) ≡ false
    → p.active_allocations < 2 ^ 32
    → (r : ℕ × Process × Ram) × (process_malloc chunk size p ram ≡ some r)
      × (r.0 ≢ 0)
      × ((process_free chunk r.0 r.1 r.2).0 ≡ p)
      × ((j : ℤ) → (process_free chunk r.0 r.1 r.2).1.heap.entries j ≡ ram.heap.entries j)
unfolding kfree
process_free-process_malloc chunk size a i p ram run f fresh small =
    let ram' = mapped chunk size a i p ram run user_flags (zeroed size a ram) in
    let freed = process_free-owner chunk size a i p ram run ram' f fresh small in
    (
      (address ram.heap a, owner chunk size a i p ram run, ram'),
      process_malloc-some chunk size a i p ram run f,
      λ e. omega (arith, run.above_null),
      ap (λ (t : Process × Ram). t.0) freed,
      λ j. ap (λ (t : Process × Ram). t.1.heap.entries j) freed ∙ kfree-kzalloc ram size a j run,
    )

-- Where the process has a free slot, and the blocks that the size needs stand free in the heap behind
-- blocks that are all in use, `process_malloc` answers the address of the first of them; the process owns it, its count of
-- allocations is one more, and the bytes there are 0.
pub process_malloc_lem :
    (chunk size a i q : ℕ) (p : Process) (ram : Ram)
    → HasRun ram.heap size a
    → FirstFree p.allocations i
    → q < size
    → (r : ℕ × Process × Ram) × (process_malloc chunk size p ram ≡ some r)
      × (r.0 ≡ ram.heap.saddr + a * 4096)
      × (process_ptr_belongs_to_process r.1.allocations r.0 ≡ true)
      × (r.1.active_allocations ≡ add32 p.active_allocations 1)
      × (r.2.bytes (r.0 + q) ≡ 0)
unfolding clear
process_malloc_lem chunk size a i q p ram run f l =
    let ram' = mapped chunk size a i p ram run user_flags (zeroed size a ram) in
    (
      (address ram.heap a, owner chunk size a i p ram run, ram'),
      process_malloc-some chunk size a i p ram run f,
      refl,
      process_ptr_belongs_to_process-set p.allocations i size (address ram.heap a) f,
      refl,
      rw
          (let e : ltb (sub32 (address ram.heap a + q) (address ram.heap a)) size ≡ true =
              ground (arith, run.addressed) in
            e)
          refl,
    )
