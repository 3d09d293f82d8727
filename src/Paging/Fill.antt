-- ===== src/Paging/Fill.antt =====
-- The words that `paging_new_4gb` writes to one page table.
use peach_os.Prelude.{
  ℕ, zero, suc, ◌+◌, ◌*◌, ◌/◌, ◌%◌, ◌^◌, ◌≤◌, ◌<◌, ◌≡◌, ◌≢◌, refl, sym, ap, ◌∙◌, arith, false, ltb,
  bit_or, bit_or_halves, bit_or-zero, bit_or-frame, bit_and-frame, add32, sub32, ℕ_discrete,
}
use peach_os.KernelHeap.{clear}
use peach_os.Paging.{Memory, store, word_at, table_of}
use peach_os.Paging.Table.{word_at-injective, store_self, store-ne}
use peach_os.Paging.Chunk.{fill_table}

-- The frame that a directory entry leads to, for the page of a table and the flags.
pub table_of-entry :
    (p f : ℕ) → p % 4096 ≡ 0 → p < 2 ^ 32 → f < 4096 → table_of (bit_or (bit_or p f) 2) ≡ p
table_of-entry p f a s h =
    let flags = bit_or-frame p f a h in
    let entry : bit_or (p + f) 2 ≡ (p + f) % 2 + 2 + (p + f) / 4 * 4 = omega (
      arith,
      bit_or_halves (p + f) 2,
      bit_or_halves ((p + f) / 2) 1,
      bit_or-zero ((p + f) / 2 / 2),
    ) in
    rw (flags, entry)
      (bit_and-frame ((p + f) % 2 + 2 + (p + f) / 4 * 4) (omega arith) ∙ omega arith)

-- Pages.
module _ (p q : ℕ) (ap_ : p % 4096 ≡ 0) (sp : p < 2 ^ 32) (aq : q % 4096 ≡ 0) (sq : q < 2 ^ 32)
    (ne : p ≢ q) where
  pub word_at-ne : (i j : ℕ) → i < 1024 → j < 1024 → word_at p i ≢ word_at q j
  word_at-ne i j hi hj e = ne (word_at-injective p q i j ap_ sp aq sq hi hj e).0

  pub clear-other :
      (size j : ℕ) (mem : Memory)
      → size ≤ 4096
      → j < 1024
      → clear p size mem (word_at q j) ≡ mem (word_at q j)
  unfolding clear
  clear-other size j mem small hj =
      let far : size ≤ sub32 (word_at q j) p = omega arith in
      let outside : ltb (sub32 (word_at q j) p) size ≡ false = ground arith in rw outside refl

  pub fill_table-other :
      (rounds b offset flags j : ℕ) (mem : Memory)
      → b + rounds ≤ 1024
      → j < 1024
      → fill_table rounds b p offset flags mem (word_at q j) ≡ mem (word_at q j)
  unfolding fill_table
  fill_table-other zero b offset flags j mem h hj = refl
  fill_table-other (suc k) b offset flags j mem h hj =
      fill_table-other k (suc b) offset flags j _ (omega arith) hj
      ∙ store-ne mem (word_at p b) _ (word_at q j) (word_at-ne b j (omega arith) hj)

module _ (p offset flags : ℕ) (aligned : p % 4096 ≡ 0) (small : p < 2 ^ 32) where
  fill_table-below :
      (rounds b j : ℕ) (mem : Memory)
      → b + rounds ≤ 1024
      → j < b
      → fill_table rounds b p offset flags mem (word_at p j) ≡ mem (word_at p j)
  unfolding fill_table
  fill_table-below zero b j mem h hj = refl
  fill_table-below (suc k) b j mem h hj =
      fill_table-below k (suc b) j _ (omega arith) (omega arith)
      ∙ store-ne mem (word_at p b) _ (word_at p j) (λ e. omega (
        arith,
        (word_at-injective p p b j aligned small aligned small (omega arith) (omega arith) e).1,
      ))

  pub fill_table-at :
      (rounds b j : ℕ) (mem : Memory)
      → b + rounds ≤ 1024
      → b ≤ j
      → j < b + rounds
      → fill_table rounds b p offset flags mem (word_at p j)
        ≡ bit_or (add32 offset (j * 4096)) flags
  unfolding fill_table
  fill_table-at zero b j mem h lo hi = absurd (omega arith)
  fill_table-at (suc k) b j mem h lo hi = elim (ℕ_discrete j b) [
    | yes e ↦
        fill_table-below k (suc b) j _ (omega arith) (omega arith)
        ∙ ap
            (λ (i : ℕ).
              store mem (word_at p b) (bit_or (add32 offset (b * 4096)) flags) (word_at p i))
            e
        ∙ store_self mem (word_at p b) _
        ∙ ap (λ (i : ℕ). bit_or (add32 offset (i * 4096)) flags) (sym e)
    | no ne ↦ fill_table-at k (suc b) j _ (omega arith) (omega arith) (omega arith)
  ]
