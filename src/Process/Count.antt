-- ===== src/Process/Count.antt =====
-- The count of a process's allocations.
use peach_os.Prelude.{
  ℕ, suc, ◌+◌, ◌%◌, ◌^◌, ◌<◌, ◌≤◌, ◌≡◌, ◌≢◌, ◌⊎◌, inl, inr, refl, sym, ◌∙◌, arith, ◌==◌, none, some,
  List, [], ◌∷◌, set, sub32, eq→==, ne→==, is_negative, if◌then◌else◌, ℕ_discrete, if_elim, Ensures,
  Ensures-any, Ensures-eq, Ensures-bind, Option-cases,
}
use peach_os.Heap.{free}
use peach_os.KernelHeap.{Ram, kzalloc, kfree}
use peach_os.Paging.Success.{map_to-result}
use peach_os.Process.{
  Process, Allocation, no_allocation, map_allocation, user_flags, find_free_allocation_index,
  get_allocation_by_addr, allocation_unjoin, process_malloc, process_free,
}
use peach_os.Process.Slots.{FirstFree, here, there}

-- The slots that hold an allocation, and the slots that hold a pointer.
abbrev pub used_slots : List Allocation → ℕ
used_slots [] = 0
used_slots (a ∷ rest) = (if a.ptr == 0 then 0 else 1) + used_slots rest

abbrev pub slots_of : List Allocation → ℕ → ℕ
slots_of [] ptr = 0
slots_of (a ∷ rest) ptr = (if a.ptr == ptr then 1 else 0) + slots_of rest ptr

used_slots-set :
    (slots : List Allocation) (size ptr : ℕ)
    → ptr ≢ 0
    → Ensures
        (λ i. used_slots (set slots i (record { size = size; ptr = ptr })) ≡ suc (used_slots slots))
        (find_free_allocation_index slots)
unfolding find_free_allocation_index
used_slots-set [] size ptr ne = tt
used_slots-set (a ∷ rest) size ptr ne = elim (ℕ_discrete a.ptr 0) [
  | yes e ↦ rw (eq→== a.ptr 0 e, ne→== ptr 0 ne) (omega arith)
  | no used ↦ rw (ne→== a.ptr 0 used) (
      Ensures-bind
        (λ i. used_slots (set rest i (record { size = size; ptr = ptr })) ≡ suc (used_slots rest)) _
        (find_free_allocation_index rest) (λ i. some (suc i)) (used_slots-set rest size ptr ne)
        (λ i e. rw (ne→== a.ptr 0 used) (omega (arith, e))))
]

used_slots-unjoin :
    (slots : List Allocation) (ptr : ℕ)
    → ptr ≢ 0
    → used_slots (allocation_unjoin slots ptr) + slots_of slots ptr ≡ used_slots slots
unfolding allocation_unjoin
used_slots-unjoin [] ptr ne = refl
used_slots-unjoin (a ∷ rest) ptr ne = elim (ℕ_discrete a.ptr ptr) [
  | yes e ↦
      rw (eq→== a.ptr ptr e, ne→== a.ptr 0 (λ z. ne (sym e ∙ z)))
        (omega (arith, used_slots-unjoin rest ptr ne))
  | no other ↦ rw (ne→== a.ptr ptr other) (omega (arith, used_slots-unjoin rest ptr ne))
]

get_allocation_by_addr-slots_of :
    (slots : List Allocation) (ptr : ℕ)
    → (get_allocation_by_addr slots ptr ≡ none) ⊎ (0 < slots_of slots ptr)
unfolding get_allocation_by_addr
get_allocation_by_addr-slots_of [] ptr = inl refl
get_allocation_by_addr-slots_of (a ∷ rest) ptr = elim (ℕ_discrete a.ptr ptr) [
  | yes e ↦ inr (rw (eq→== a.ptr ptr e) (omega arith))
  | no other ↦ rw (ne→== a.ptr ptr other) (later (get_allocation_by_addr-slots_of rest ptr))
]
  where
    later :
        (get_allocation_by_addr rest ptr ≡ none) ⊎ (0 < slots_of rest ptr)
        → (get_allocation_by_addr rest ptr ≡ none) ⊎ (0 < 0 + slots_of rest ptr)
    later (inl e) = inl e
    later (inr l) = inr (omega arith)

-- The counter is the number of the slots in use.
abbrev pub IsCounted : Process → Type 0
IsCounted p = p.active_allocations ≡ used_slots p.allocations % 2 ^ 32

process_malloc-IsCounted :
    (chunk size : ℕ) (p : Process) (ram : Ram)
    → IsCounted p
    → Ensures
        (λ ((ptr, p', ram') : ℕ × Process × Ram). IsCounted p')
        (process_malloc chunk size p ram)
unfolding process_malloc
process_malloc-IsCounted chunk size p ram h =
    let Counted : ℕ × Process × Ram → Type 0 = λ (ptr, p', ram'). IsCounted p' in
    Ensures-any Counted (kzalloc size ram) _ (λ (ptr, ram1). elim (ℕ_discrete ptr 0) [
      | yes e ↦ rw (eq→== ptr 0 e) h
      | no ne ↦ rw (ne→== ptr 0 ne) (
          Ensures-bind
            (λ i.
              used_slots (set p.allocations i (record { size = size; ptr = ptr }))
              ≡ suc (used_slots p.allocations))
            Counted (find_free_allocation_index p.allocations) _
            (used_slots-set p.allocations size ptr ne)
            (λ i e.
              if_elim Counted
                (is_negative
                  (map_allocation chunk user_flags (record { size = size; ptr = ptr })
                    ram1.words).0)
                _ _ (λ failed. h) (λ mapped. omega (arith, h, e))))
    ])

process_free-IsCounted :
    (chunk ptr : ℕ) (p : Process) (ram : Ram)
    → IsCounted p
    → ptr ≢ 0
    → slots_of p.allocations ptr ≤ 1
    → IsCounted (process_free chunk ptr p ram).0
unfolding process_free
process_free-IsCounted chunk ptr p ram h ne once =
    elim (get_allocation_by_addr-slots_of p.allocations ptr) [
      | inl e ↦ rw (e, process_free) h
      | inr owned ↦ elim (Option-cases (get_allocation_by_addr p.allocations ptr)) [
        | inl e ↦ rw (e, process_free) h
        | inr (a, e) ↦
            rw (e, process_free)
              (if_elim (λ (r : Process × Ram). IsCounted r.0)
                (is_negative (map_allocation chunk 0 a ram.words).0) _ _ (λ failed. h)
                (λ mapped. omega (arith, h, used_slots-unjoin p.allocations ptr ne)))
      ]
    ]

-- The states of a process after calls of `process_malloc` that return, and of `process_free` with pointers that are
-- not null and stand in one slot at most.
pub data Reachable (start : Process) : Process → Type 0 where
  begin : Reachable start start
  malloc_call :
      (chunk size ptr : ℕ) (p p' : Process) (ram ram' : Ram)
      → Reachable start p
      → process_malloc chunk size p ram ≡ some (ptr, p', ram')
      → Reachable start p'
  free_call :
      (chunk ptr : ℕ) (p : Process) (ram : Ram)
      → Reachable start p
      → ptr ≢ 0
      → slots_of p.allocations ptr ≤ 1
      → Reachable start (process_free chunk ptr p ram).0

-- If the counter `active_allocations` is the number of the slots in use, it is so after any sequence of
-- calls of `process_malloc` that return, and of `process_free` with a pointer that is not null and stands
-- in one slot at most; `process_free` of the null pointer is excluded.
pub Reachable-IsCounted : (start p : Process) → IsCounted start → Reachable start p → IsCounted p
Reachable-IsCounted start _ h begin = h
Reachable-IsCounted start _ h (malloc_call chunk size ptr p p' ram ram' r e) =
    Ensures-eq (λ ((ptr, p', ram') : ℕ × Process × Ram). IsCounted p')
      (process_malloc chunk size p ram)
      (process_malloc-IsCounted chunk size p ram (Reachable-IsCounted start p h r)) e
Reachable-IsCounted start _ h (free_call chunk ptr p ram r ne once) =
    process_free-IsCounted chunk ptr p ram (Reachable-IsCounted start p h r) ne once

get_allocation_by_addr-null :
    (slots : List Allocation) (i : ℕ)
    → FirstFree slots i
    → get_allocation_by_addr slots 0 ≡ some no_allocation
unfolding get_allocation_by_addr
get_allocation_by_addr-null _ _ (here rest) = refl
get_allocation_by_addr-null _ _ (there a rest i ne f) =
    rw (ne→== a.ptr 0 ne) (get_allocation_by_addr-null rest i f)

-- `process_free` of the null pointer, for a process with a free slot, takes one off the counter and
-- frees the address 0 in the heap.
process_free-null :
    (chunk i : ℕ) (p : Process) (ram : Ram)
    → FirstFree p.allocations i
    → ((process_free chunk 0 p ram).0.active_allocations ≡ sub32 p.active_allocations 1)
      × ((process_free chunk 0 p ram).1.heap ≡ free ram.heap 0)
unfolding process_free kfree
process_free-null chunk i p ram f =
    rw
      (
        get_allocation_by_addr-null p.allocations i f,
        process_free,
        map_to-result ram.words (ram.words chunk) 0 0 0 0 refl refl (omega arith),
      )
      (refl, refl)
