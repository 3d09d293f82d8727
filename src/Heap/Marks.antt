-- ===== src/Heap/Marks.antt =====
-- `heap_mark_blocks_taken` and `heap_mark_blocks_free`: what they write, block by block.
use peach_os.Prelude.{
  ℕ, zero, suc, ◌+◌, ◌-◌, ◌≤◌, ◌<◌, ◌≡◌, refl, ap, ◌∙◌, Bool, true, false, ◌&&◌, arith, leb, ltb,
  ◌==◌, if◌then◌else◌, ℤ, pos, negsuc, suc_ℤ, bit_or, bit_and,
}
use peach_os.Heap.{
  Heap, set_entry, entry_taken, entry_free, has_next, mark_taken_loop, mark_blocks_taken,
  mark_free_loop, mark_blocks_free,
}

-- The entry of block `i` of an allocation of `n` blocks from block `s` on: in use, marked at the
-- first block, and with the flag for a next block everywhere but at the last one.
abbrev pub block_entry : ℕ → ℕ → ℕ → ℕ
block_entry s n i =
    if i == s then (if n == 1 then 0x41 else 0xC1) else (if (i + 1) == (s + n) then 0x01 else 0x81)

abbrev pub in_blocks : ℕ → ℕ → ℕ → Bool
in_blocks s n i = leb s i && ltb i (s + n)

-- The table after `n` blocks from `s` on are marked.
abbrev pub taken_at : ℕ → ℕ → (ℤ → ℕ) → ℤ → ℕ
taken_at s n e (pos i) = if in_blocks s n i then block_entry s n i else e (pos i)
taken_at s n e (negsuc i) = e (negsuc i)

-- The loop from a later block on: `entry` goes to `i`, and the last block has no successor.
mark_taken_loop-pos :
    (k i entry : ℕ) (e : ℤ → ℕ) (j : ℕ)
    → mark_taken_loop k i entry e (pos j) ≡ (
        if in_blocks i k j
        then (if j == i then entry else if (j + 1) == (i + k) then 0x01 else 0x81)
        else e (pos j))
unfolding mark_taken_loop
mark_taken_loop-pos zero i entry e j = ground arith
mark_taken_loop-pos (suc k) i entry e j =
    mark_taken_loop-pos k (i + 1) (if k == 1 then entry_taken else bit_or entry_taken has_next)
      (set_entry e (pos i) entry) j
    ∙ ground arith

mark_taken_loop-neg :
    (k i entry : ℕ) (e : ℤ → ℕ) (j : ℕ) → mark_taken_loop k i entry e (negsuc j) ≡ e (negsuc j)
unfolding mark_taken_loop
mark_taken_loop-neg zero i entry e j = refl
mark_taken_loop-neg (suc k) i entry e j =
    mark_taken_loop-neg k (i + 1) (if k == 1 then entry_taken else bit_or entry_taken has_next)
      (set_entry e (pos i) entry) j

-- `heap_mark_blocks_taken` writes the entries of an allocation to its `n` blocks and nothing else.
pub mark_blocks_taken_lem :
    (h : Heap) (s n : ℕ) (i : ℤ) → (mark_blocks_taken h s n).entries i ≡ taken_at s n h.entries i
unfolding mark_blocks_taken
mark_blocks_taken_lem h s n (negsuc i) = mark_taken_loop-neg n s _ h.entries i
mark_blocks_taken_lem h s n (pos i) = mark_taken_loop-pos n s _ h.entries i ∙ ground arith

-- A block has the flag for a next block unless it is the last one of its allocation.
block_entry-has_next :
    (s n i : ℕ)
    → s ≤ i
    → i < s + n
    → (bit_and (block_entry s n i) has_next == 0) ≡ ((i + 1) == (s + n))
block_entry-has_next s n i lo hi = ground arith

-- The table after `n` blocks from `s` on are cleared.
abbrev pub cleared : ℕ → ℕ → (ℤ → ℕ) → ℤ → ℕ
cleared s n e (pos i) = if in_blocks s n i then entry_free else e (pos i)
cleared s n e (negsuc i) = e (negsuc i)

mark_free_loop-stop :
    (k : ℕ) (i : ℤ) (e : ℤ → ℕ)
    → (bit_and (e i) has_next == 0) ≡ true
    → mark_free_loop (suc k) i e ≡ set_entry e i entry_free
unfolding mark_free_loop
mark_free_loop-stop k i e h = rw h

mark_free_loop-more :
    (k : ℕ) (i : ℤ) (e : ℤ → ℕ)
    → (bit_and (e i) has_next == 0) ≡ false
    → mark_free_loop (suc k) i e ≡ mark_free_loop k (suc_ℤ i) (set_entry e i entry_free)
unfolding mark_free_loop
mark_free_loop-more k i e h = rw h

-- From block `i` of an allocation on, the loop clears the blocks up to its end and stops there.
mark_free_loop-cleared :
    (k s n m i : ℕ) (e : ℤ → ℕ)
    → s ≤ i
    → i + suc m ≡ s + n
    → suc m ≤ k
    → ((j : ℕ) → i ≤ j → j < s + n → e (pos j) ≡ block_entry s n j)
    → (j : ℤ) → mark_free_loop k (pos i) e j ≡ cleared i (suc m) e j
unfolding mark_free_loop
mark_free_loop-cleared zero s n m i e lo eq le marked j = absurd (omega arith)
mark_free_loop-cleared (suc k) s n zero i e lo eq le marked j =
    ap (λ (f : ℤ → ℕ). f j) (mark_free_loop-stop k (pos i) e last) ∙ written j
  where
    last : (bit_and (e (pos i)) has_next == 0) ≡ true
    last = rw (marked i (omega arith) (omega arith)) (ground (arith, block_entry-has_next s n i))

    written : (j : ℤ) → set_entry e (pos i) entry_free j ≡ cleared i 1 e j
    written (pos x) = ground arith
    written (negsuc x) = refl
mark_free_loop-cleared (suc k) s n (suc m) i e lo eq le marked j =
    ap (λ (f : ℤ → ℕ). f j) (mark_free_loop-more k (pos i) e more)
    ∙ mark_free_loop-cleared k s n m (suc i) (set_entry e (pos i) entry_free) (omega arith)
        (omega arith) (omega arith) rest j
    ∙ written j
  where
    more : (bit_and (e (pos i)) has_next == 0) ≡ false
    more = rw (marked i (omega arith) (omega arith)) (ground (arith, block_entry-has_next s n i))

    rest :
        (x : ℕ) → suc i ≤ x → x < s + n → set_entry e (pos i) entry_free (pos x) ≡ block_entry s n x
    rest x p q = ground (arith, marked x (omega arith) q)

    written :
        (j : ℤ)
        → cleared (suc i) (suc m) (set_entry e (pos i) entry_free) j ≡ cleared i (suc (suc m)) e j
    written (pos x) = ground arith
    written (negsuc x) = refl

-- Freeing the blocks of an allocation clears exactly those blocks.
pub mark_blocks_free-mark_blocks_taken :
    (h : Heap) (s n : ℕ)
    → 0 < n
    → s + n ≤ h.total
    → (j : ℤ)
    → (mark_blocks_free (mark_blocks_taken h s n) (pos s)).entries j ≡ cleared s n h.entries j
unfolding mark_blocks_free mark_blocks_taken
mark_blocks_free-mark_blocks_taken h s zero pos_n le j = absurd (omega arith)
mark_blocks_free-mark_blocks_taken h s (suc n) pos_n le j =
    mark_free_loop-cleared (h.total - s) s (suc n) n s (mark_blocks_taken h s (suc n)).entries
      (omega arith) refl (omega arith) marked j
    ∙ back j
  where
    marked :
        (x : ℕ)
        → s ≤ x
        → x < s + suc n
        → (mark_blocks_taken h s (suc n)).entries (pos x) ≡ block_entry s (suc n) x
    marked x p q = mark_blocks_taken_lem h s (suc n) (pos x) ∙ ground arith

    back :
        (j : ℤ)
        → cleared s (suc n) (mark_blocks_taken h s (suc n)).entries j
          ≡ cleared s (suc n) h.entries j
    back (pos x) = ground (arith, mark_blocks_taken_lem h s (suc n) (pos x))
    back (negsuc x) = mark_blocks_taken_lem h s (suc n) (negsuc x)
