-- ===== src/Heap/Next.antt =====
-- `heap_malloc` of one block: what it leaves of the heap.
use peach_os.Prelude.{
  ℕ, suc, ◌+◌, ◌/◌, ◌≤◌, ◌<◌, ◌≡◌, ◌≢◌, refl, ap, ◌∙◌, arith, true, false, ℤ, pos, Option-cases,
  inl, inr, ℕ_discrete, eq→==,
}
use peach_os.Heap.{
  Heap, malloc, malloc_blocks, mark_blocks_taken, align_value_to_upper, get_start_block, block_size,
  is_free,
}
use peach_os.Heap.Alloc.{blocks_for, malloc-first_fit, zeros-AllFree}
use peach_os.Heap.Search.{AllTaken}
use peach_os.Heap.Marks.{taken_at, in_blocks}

pub malloc-keeps :
    (h : Heap) (size : ℕ)
    → ((malloc h size).1.saddr ≡ h.saddr) × ((malloc h size).1.total ≡ h.total)
unfolding malloc malloc_blocks mark_blocks_taken
malloc-keeps h size =
    elim (Option-cases (get_start_block h (align_value_to_upper size / block_size))) [
      | inl e ↦ rw (malloc, malloc_blocks, e) (refl, refl)
      | inr (s, e) ↦ rw (malloc, malloc_blocks, e) (refl, refl)
    ]

taken_at_self : (a : ℕ) (e : ℤ → ℕ) → is_free (taken_at a 1 e (pos a)) ≡ false
unfolding is_free
taken_at_self a e =
    let inside : in_blocks a 1 a ≡ true = ground arith in rw (inside, eq→== a a refl) refl

taken_at_other : (a j : ℕ) (e : ℤ → ℕ) → j ≢ a → taken_at a 1 e (pos j) ≡ e (pos j)
taken_at_other a j e ne = let outside : in_blocks a 1 j ≡ false = ground arith in rw outside refl

-- The first free block is in use then, and the blocks behind it are as before.
pub malloc-next :
    (h : Heap) (size a : ℕ)
    → 0 < size
    → size ≤ 4096
    → a + 1 ≤ h.total
    → AllTaken h.entries 0 a
    → h.entries (pos a) ≡ 0
    → AllTaken (malloc h size).1.entries 0 (suc a)
      × ((j : ℕ) → suc a ≤ j → (malloc h size).1.entries (pos j) ≡ h.entries (pos j))
malloc-next h size a positive small inside used zero =
    let one : blocks_for size ≡ 1 = omega arith in
    let marks =
      (malloc-first_fit h size a positive (omega arith) (omega (arith, one)) used (
        zeros-AllFree h.entries a (a + blocks_for size) (λ j p q.
          ap (λ (i : ℕ). h.entries (pos i)) {x = j} {y = a} (omega (arith, one)) ∙ zero))).1 in
    let at = λ (j : ℕ). marks (pos j) ∙ ap (λ (n : ℕ). taken_at a n h.entries (pos j)) one in
    (
      λ j p q. elim (ℕ_discrete j a) [
        | yes e ↦
            ap is_free (at j)
            ∙ ap (λ (i : ℕ). is_free (taken_at a 1 h.entries (pos i))) e
            ∙ taken_at_self a h.entries
        | no ne ↦
            ap is_free (at j ∙ taken_at_other a j h.entries ne) ∙ used j (omega arith) (omega arith)
      ],
      λ j p. at j ∙ taken_at_other a j h.entries (λ e. omega arith),
    )
