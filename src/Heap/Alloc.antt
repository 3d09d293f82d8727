-- ===== src/Heap/Alloc.antt =====
-- `heap_malloc` and `heap_free`: sizes and addresses, first fit, the round trip, and what goes wrong.
use peach_os.Prelude.{
  ℕ, zero, suc, ◌+◌, ◌-◌, ◌*◌, ◌/◌, ◌%◌, ◌^◌, ◌≤◌, ◌<◌, ◌≡◌, refl, ap, ◌∙◌, ◌≢◌, ◌⊎◌, true, false,
  some, arith, Bool-cases, eq→==, ne→==, eq_ℤ, suc_ℤ, inl, inr, ◌==◌, ℤ, pos, negsuc, is_negative,
  ℕ_discrete, bit_and,
}
use peach_os.Heap.{
  Heap, entry_free, set_entry, validate_table, create, clear_entries, align_value_to_upper, is_free,
  get_start_block, block_to_address, address_to_block, mark_blocks_free, mark_blocks_taken,
  mark_free_loop, malloc_blocks, malloc, free,
}
use peach_os.Heap.Search.{
  AllFree, AllTaken, get_start_block-full, get_start_block-first_fit, get_start_block-fragmented,
}
use peach_os.Heap.Marks.{
  taken_at, cleared, mark_blocks_taken_lem, mark_blocks_free-mark_blocks_taken,
}

-- A size is rounded up to the next multiple of the block size, unless that passes 2 ^ 32.
pub align_value_to_upper_lem :
    (val : ℕ)
    → val + 4095 < 2 ^ 32
    → (align_value_to_upper val % 4096 ≡ 0)
      × (val ≤ align_value_to_upper val)
      × (align_value_to_upper val < val + 4096)
unfolding align_value_to_upper
align_value_to_upper_lem val h = ground arith

-- Sizes in the last block of the address space come out as 0 bytes.
pub align_value_to_upper-wraps :
    (val : ℕ) → 2 ^ 32 - 4096 < val → val < 2 ^ 32 → align_value_to_upper val ≡ 0
unfolding align_value_to_upper
align_value_to_upper-wraps val lo hi = ground arith

-- A block number survives the way to an address and back.
pub address_to_block-block_to_address :
    (h : Heap) (s : ℕ)
    → h.saddr < 2 ^ 32
    → s * 4096 < 2 ^ 31
    → address_to_block h (block_to_address h s) ≡ pos s
unfolding address_to_block block_to_address
address_to_block-block_to_address h s small fits = ground arith

-- The blocks that `heap_malloc` asks for.
abbrev pub blocks_for : ℕ → ℕ
blocks_for size = (size + 4095) / 4096

malloc-blocks_for :
    (h : Heap) (size : ℕ) → size + 4095 < 2 ^ 32 → malloc h size ≡ malloc_blocks h (blocks_for size)
unfolding malloc align_value_to_upper
malloc-blocks_for h size fits = ap (malloc_blocks h) (ground arith)

malloc_blocks-some :
    (h : Heap) (n s : ℕ)
    → get_start_block h n ≡ some s
    → malloc_blocks h n ≡ (block_to_address h s, mark_blocks_taken h s n)
unfolding malloc_blocks
malloc_blocks-some h n s e = rw (e, malloc_blocks)

allocated :
    (h : Heap) (size a : ℕ)
    → size + 4095 < 2 ^ 32
    → get_start_block h (blocks_for size) ≡ some a
    → ((malloc h size).0 ≡ (h.saddr + a * 4096) % 2 ^ 32)
      × ((i : ℤ) → (malloc h size).1.entries i ≡ taken_at a (blocks_for size) h.entries i)
allocated h size a fits got = (
  ap (λ (r : ℕ × Heap). r.0) found ∙ (unfold block_to_address in ground arith),
  λ i. ap (λ (r : ℕ × Heap). r.1.entries i) found ∙ mark_blocks_taken_lem h a (blocks_for size) i,
)
  where
    found : malloc h size ≡ (block_to_address h a, mark_blocks_taken h a (blocks_for size))
    found = malloc-blocks_for h size fits ∙ malloc_blocks-some h _ a got

-- For a size above 0 that is rounded up without passing 2 ^ 32, where all blocks below `a` are in
-- use and the blocks that the size needs are free from `a` on, `heap_malloc` returns the address of its first block and
-- marks the blocks that the size needs.
pub malloc-first_fit :
    (h : Heap) (size a : ℕ)
    → 0 < size
    → size + 4095 < 2 ^ 32
    → a + blocks_for size ≤ h.total
    → AllTaken h.entries 0 a
    → AllFree h.entries a (a + blocks_for size)
    → ((malloc h size).0 ≡ (h.saddr + a * 4096) % 2 ^ 32)
      × ((i : ℤ) → (malloc h size).1.entries i ≡ taken_at a (blocks_for size) h.entries i)
malloc-first_fit h size a pos_s fits le used unused =
    allocated h size a fits (get_start_block-first_fit h _ a (omega arith) le used unused)

address_to_block-mark_blocks_taken :
    (h : Heap) (s n ptr : ℕ)
    → address_to_block (mark_blocks_taken h s n) ptr ≡ address_to_block h ptr
unfolding address_to_block mark_blocks_taken
address_to_block-mark_blocks_taken h s n ptr = refl

-- Allocating and freeing restores the table, for a size above 0 that is rounded up without passing
-- 2 ^ 32, where the first free run is long enough, its entries are zero, the heap starts below 2 ^ 32
-- and the run starts less than 2 ^ 31 bytes behind it.
pub free-malloc :
    (h : Heap) (size a : ℕ)
    → 0 < size
    → size + 4095 < 2 ^ 32
    → h.saddr < 2 ^ 32
    → a * 4096 < 2 ^ 31
    → a + blocks_for size ≤ h.total
    → AllTaken h.entries 0 a
    → ((j : ℕ) → a ≤ j → j < a + blocks_for size → h.entries (pos j) ≡ 0)
    → (i : ℤ) → (free (malloc h size).1 (malloc h size).0).entries i ≡ h.entries i
unfolding free is_free
free-malloc h size a pos_s fits small near le used zeros i =
    ap (λ (r : ℕ × Heap). (free r.1 r.0).entries i) found
    ∙ ap (λ (b : ℤ). (mark_blocks_free (mark_blocks_taken h a (blocks_for size)) b).entries i) block
    ∙ mark_blocks_free-mark_blocks_taken h a (blocks_for size) (omega arith) le i
    ∙ same i
  where
    found : malloc h size ≡ (block_to_address h a, mark_blocks_taken h a (blocks_for size))
    found =
        malloc-blocks_for h size fits
        ∙ malloc_blocks-some h _ a
            (get_start_block-first_fit h _ a (omega arith) le used (λ j p q. rw (zeros j p q)))

    block :
        address_to_block (mark_blocks_taken h a (blocks_for size)) (block_to_address h a) ≡ pos a
    block =
        address_to_block-mark_blocks_taken h a (blocks_for size) (block_to_address h a)
        ∙ address_to_block-block_to_address h a small near

    same : (i : ℤ) → cleared a (blocks_for size) h.entries i ≡ h.entries i
    same (pos j) = ground (arith, zeros j)
    same (negsuc j) = refl

-- With no free block in the table, `heap_malloc` returns 0 and changes nothing.
pub malloc-full : (h : Heap) (size : ℕ) → AllTaken h.entries 0 h.total → malloc h size ≡ (0, h)
unfolding malloc malloc_blocks
malloc-full h size used = rw (get_start_block-full h _ used, malloc_blocks)

-- In a fragmented table the allocation overlaps blocks that need not be free, for a size that is
-- rounded up without passing 2 ^ 32: with `f` free blocks from
-- `g` on (fewer than it needs), blocks in use up to `a`, and `n - f` free blocks from `a` on,
-- `heap_malloc` returns the address of `a` and overwrites the entries of all `n` blocks there.
pub malloc-fragmented :
    (h : Heap) (size g f a : ℕ)
    → size + 4095 < 2 ^ 32
    → 0 < f
    → f < blocks_for size
    → g + f < a
    → a + (blocks_for size - f) ≤ h.total
    → AllTaken h.entries 0 g
    → AllFree h.entries g (g + f)
    → AllTaken h.entries (g + f) a
    → AllFree h.entries a (a + (blocks_for size - f))
    → ((malloc h size).0 ≡ (h.saddr + a * 4096) % 2 ^ 32)
      × ((i : ℤ) → (malloc h size).1.entries i ≡ taken_at a (blocks_for size) h.entries i)
malloc-fragmented h size g f a fits pos_f lt gap le used0 free0 used1 free1 =
    allocated h size a fits
      (get_start_block-fragmented h _ g f a pos_f lt gap le used0 free0 used1 free1)

clear_entries-pos :
    (k i j : ℕ) (e : ℤ → ℕ)
    → ((i ≤ j) × (j < i + k)) ⊎ (e (pos j) ≡ 0)
    → clear_entries k i e (pos j) ≡ 0
unfolding clear_entries set_entry
clear_entries-pos zero i j e (inl h) = absurd (omega arith)
clear_entries-pos zero i j e (inr h) = h
clear_entries-pos (suc k) i j e h = elim (ℕ_discrete i j) [
  | yes p ↦ clear_entries-pos k (i + 1) j (set_entry e (pos i) entry_free) (inr (rw (eq→== i j p)))
  | no p ↦ clear_entries-pos k (i + 1) j (set_entry e (pos i) entry_free) (rest p h)
]
  where
    rest :
        i ≢ j
        → ((i ≤ j) × (j < i + suc k)) ⊎ (e (pos j) ≡ 0)
        → ((i + 1 ≤ j) × (j < i + 1 + k)) ⊎ (set_entry e (pos i) entry_free (pos j) ≡ 0)
    rest p (inl q) = inl (omega arith, omega arith)
    rest p (inr q) = inr (rw (ne→== i j p) q)

-- `heap_create` accepts every table for aligned bounds, also one whose length does not fit the
-- heap: it returns no error, and zeroes every entry `i` of the table. The test of the length returns `bool`, so its error is not below 0.
pub create-any_total :
    (ptr end total i : ℕ) (entries : ℤ → ℕ) (old : Heap)
    → ptr % 4096 ≡ 0
    → end % 4096 ≡ 0
    → i < total
    → (is_negative (create ptr end entries total old).0 ≡ false)
      × ((create ptr end entries total old).1.total ≡ total)
      × ((create ptr end entries total old).1.saddr ≡ ptr)
      × ((create ptr end entries total old).1.entries (pos i) ≡ 0)
unfolding create
create-any_total ptr end total i entries old p q lt =
    rw (eq→== _ _ p, eq→== _ _ q)
      (elim (Bool-cases (validate_table ptr end total)) [
        | inl t ↦ rw t (refl, refl, refl, zeroed)
        | inr t ↦ rw t (refl, refl, refl, zeroed)
      ])
  where
    zeroed : clear_entries total 0 entries (pos i) ≡ 0
    zeroed = clear_entries-pos total 0 i entries (inl (omega arith, omega arith))

mark_free_loop-zero : (k : ℕ) (i j : ℤ) (e : ℤ → ℕ) → e j ≡ 0 → mark_free_loop k i e j ≡ 0
unfolding mark_free_loop
mark_free_loop-zero zero i j e h = h
mark_free_loop-zero (suc k) i j e h = elim (Bool-cases (bit_and (e i) 0x80 == 0)) [
  | inl t ↦ rw t (written (Bool-cases (eq_ℤ i j)))
  | inr t ↦ rw t (
      mark_free_loop-zero k (suc_ℤ i) j (set_entry e i entry_free)
        (written (Bool-cases (eq_ℤ i j))))
]
  where
    written : (eq_ℤ i j ≡ true) ⊎ (eq_ℤ i j ≡ false) → set_entry e i entry_free j ≡ 0
    written (inl t) = rw t
    written (inr t) = rw t h

mark_free_loop_self :
    (k : ℕ) (i : ℤ) (e : ℤ → ℕ) → eq_ℤ i i ≡ true → mark_free_loop (suc k) i e i ≡ 0
unfolding mark_free_loop
mark_free_loop_self k i e same = elim (Bool-cases (bit_and (e i) 0x80 == 0)) [
  | inl t ↦ rw (t, same)
  | inr t ↦ rw t (mark_free_loop-zero k (suc_ℤ i) i (set_entry e i entry_free) (rw same))
]

address_to_block-null :
    (h : Heap) (b : ℕ) → h.saddr ≡ suc b * 4096 → h.saddr ≤ 2 ^ 31 → address_to_block h 0 ≡ negsuc b
unfolding address_to_block
address_to_block-null h b e le = ground arith

-- With a heap that starts at a block boundary of at most 2 ^ 31, freeing the null pointer clears a
-- byte below the table: the one as many bytes before it as there
-- are blocks below the heap's start.
pub free-null :
    (h : Heap) (b : ℕ)
    → h.saddr ≡ suc b * 4096
    → h.saddr ≤ 2 ^ 31
    → (free h 0).entries (negsuc b) ≡ 0
unfolding free mark_blocks_free
free-null h b e le =
    ap (λ (i : ℤ). (mark_blocks_free h i).entries (negsuc b)) (address_to_block-null h b e le)
    ∙ ap (λ (k : ℕ). mark_free_loop k (negsuc b) h.entries (negsuc b)) rounds
    ∙ mark_free_loop_self (h.total + b) (negsuc b) h.entries (eq→== b b refl)
  where
    rounds : h.total + suc b ≡ suc (h.total + b)
    rounds = omega arith

pub zeros-AllFree :
    (e : ℤ → ℕ) (a b : ℕ) → ((j : ℕ) → a ≤ j → j < b → e (pos j) ≡ 0) → AllFree e a b
unfolding is_free
zeros-AllFree e a b zeros j p q = rw (zeros j p q) refl
