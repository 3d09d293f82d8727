-- ===== src/Paging/Filled.antt =====
-- `fill_directory`: a page directory whose tables lead every address to itself.
use peach_os.Prelude.{
  ℕ, zero, suc, ◌+◌, ◌*◌, ◌%◌, ◌^◌, ◌≤◌, ◌<◌, ◌≡◌, ◌≢◌, refl, sym, ap, ◌∙◌, arith, some, bit_or,
  bit_or-frame, bit_and-frame, add32, sub32, ℕ_discrete, ◌-◌,
}
use mathlib.Core.Path.{subst}
use peach_os.KernelHeap.{Ram, clear}
use peach_os.KernelHeap.Bump.{IsBump, cleared, kzalloc-at}
use peach_os.Paging.{
  Memory, store, word_at, table_of, get, get_physical_address, align_to_lower_page,
}
use peach_os.Paging.Align.{get_indexes_lem}
use peach_os.Paging.Table.{word_at-injective, store_self, store-ne, get-slot}
use peach_os.Paging.Chunk.{fill_table, fill_directory}
use peach_os.Paging.Fill.{table_of-entry, word_at-ne, clear-other, fill_table-other, fill_table-at}

-- The heap begins at `base`. Page 0 is block `g`, for the directory; page `i + 1` is block `a + 1 + i`, for
-- table `i`.
module _ (base g a flags : ℕ) (below : g ≤ a) (aligned : base % 4096 ≡ 0)
    (fits : base + (a + 1026) * 4096 < 2 ^ 32) (small : flags < 4096) where
  abbrev pub page : ℕ → ℕ
  page zero = base + g * 4096
  page (suc i) = base + (a + suc i) * 4096

  page-aligned : (i : ℕ) → page i % 4096 ≡ 0
  page-aligned zero = omega (arith, aligned)
  page-aligned (suc i) = omega (arith, aligned)

  page-small : (i : ℕ) → i ≤ 1026 → page i < 2 ^ 32
  page-small zero h = omega (arith, fits, below)
  page-small (suc i) h = omega (arith, fits)

  page-ne : (i j : ℕ) → i ≢ j → page i ≢ page j
  page-ne zero zero ne e = ne refl
  page-ne zero (suc j) ne e = omega (arith, below)
  page-ne (suc i) zero ne e = omega (arith, below)
  page-ne (suc i) (suc j) ne e = omega arith

  -- The first `i` tables are written.
  pub record IsFilled (i : ℕ) (words : Memory) : Type 0 where
    pub entries :
        (k : ℕ) → k < i → words (word_at (page 0) k) ≡ bit_or (bit_or (page (suc k)) flags) 2
    pub tables :
        (k j : ℕ)
        → k < i
        → j < 1024
        → words (word_at (page (suc k)) j) ≡ bit_or (k * 4194304 + j * 4096) flags

  -- One round of the loop, after `kzalloc`.
  abbrev round : (i offset : ℕ) → Memory → Memory
  round i offset words =
      store (fill_table 1024 0 (page (suc i)) offset flags (clear (page (suc i)) 4096 words))
        (word_at (page 0) i) (bit_or (bit_or (page (suc i)) flags) 2)

  -- The words of the other pages stay as they are.
  other_page :
      (i offset c j : ℕ) (words : Memory)
      → i < 1024
      → c ≤ 1024
      → c ≢ suc i
      → j < 1024
      → fill_table 1024 0
          (page (suc i))
          offset
          flags
          (clear (page (suc i)) 4096 words)
          (word_at (page c) j)
        ≡ words (word_at (page c) j)
  other_page i offset c j words hi hc ne hj =
      let p = page (suc i) in
      let q = page c in
      let sp = page-small (suc i) (omega arith) in
      let sq = page-small c (omega arith) in
      let apart = page-ne (suc i) c (λ e. ne (sym e)) in
      fill_table-other p q (page-aligned (suc i)) sp (page-aligned c) sq apart 1024 0 offset flags j
        (clear p 4096 words) (omega arith) hj
      ∙ clear-other p q (page-aligned (suc i)) sp (page-aligned c) sq apart 4096 j words
          (omega arith) hj

  round-IsFilled :
      (i offset : ℕ) (words : Memory)
      → i < 1024
      → offset ≡ i * 4194304
      → IsFilled i words
      → IsFilled (suc i) (round i offset words)
  round-IsFilled i offset words hi o f = record {
    entries = λ k hk. elim (ℕ_discrete k i) [
      | yes e ↦
          ap (λ (l : ℕ). round i offset words (word_at (page 0) l)) e
          ∙ store_self _ (word_at (page 0) i) _
          ∙ ap (λ (l : ℕ). bit_or (bit_or (page (suc l)) flags) 2) (sym e)
      | no ne ↦
          store-ne _ (word_at (page 0) i) _ (word_at (page 0) k) (λ e. ne (
            sym
              (word_at-injective (page 0) (page 0) i k (page-aligned 0) (page-small 0 (omega arith))
                (page-aligned 0) (page-small 0 (omega arith)) hi (omega arith) e).1))
          ∙ other_page i offset 0 k words hi (omega arith) (λ e. omega arith) (omega arith)
          ∙ f.entries k (omega arith)
    ];
    tables = λ k j hk hj.
        store-ne _ (word_at (page 0) i) _ (word_at (page (suc k)) j) (
          word_at-ne (page 0) (page (suc k)) (page-aligned 0) (page-small 0 (omega arith))
            (page-aligned (suc k)) (page-small (suc k) (omega arith))
            (page-ne 0 (suc k) (λ e. omega arith)) i j hi hj)
        ∙ elim (ℕ_discrete k i) [
          | yes e ↦
              ap
                (λ (l : ℕ).
                  fill_table 1024 0 (page (suc i)) offset flags (clear (page (suc i)) 4096 words)
                    (word_at (page (suc l)) j))
                e
              ∙ fill_table-at (page (suc i)) offset flags (page-aligned (suc i))
                  (page-small (suc i) (omega arith)) 1024 0 j (clear (page (suc i)) 4096 words)
                  (omega arith) (omega arith) (omega arith)
              ∙ ap (λ (l : ℕ). bit_or l flags) {x = add32 offset (j * 4096)}
                  {y = k * 4194304 + j * 4096} (omega (arith, o, e))
          | no ne ↦
              other_page i offset (suc k) j words hi (omega arith) (λ e. ne (omega arith)) hj
              ∙ f.tables k j (omega arith) hj
        ];
  }

  -- The loop fills the remaining tables.
  pub fill_directory-IsFilled :
      (rounds i k offset : ℕ) (ram : Ram)
      → i + rounds ≤ 1024
      → offset ≡ i * 4194304 % 2 ^ 32
      → ram.heap.saddr ≡ base
      → IsBump ram.heap (a + suc i) (rounds + suc k)
      → IsFilled i ram.words
      → (ram' : Ram) × (fill_directory rounds i (page 0) offset flags ram ≡ some ram')
        × (ram'.heap.saddr ≡ base)
        × IsBump ram'.heap (a + suc (i + rounds)) (suc k)
        × IsFilled (i + rounds) ram'.words
  unfolding fill_directory
  fill_directory-IsFilled zero i k offset ram le o e b f =
      let same : i ≡ i + 0 = omega arith in
      (
        ram,
        refl,
        e,
        subst (λ (n : ℕ). IsBump ram.heap (a + suc n) (suc k)) same
            (subst (IsBump ram.heap (a + suc i)) {x = 0 + suc k} {y = suc k} (omega arith) b),
        subst (λ (n : ℕ). IsFilled n ram.words) same f,
      )
  fill_directory-IsFilled (suc r) i k offset ram le o e b f =
      let (got, next, same) =
        kzalloc-at ram base (a + suc i) (r + suc k) 4096 (omega arith) (omega arith) e (
          subst (IsBump ram.heap (a + suc i)) {x = suc r + suc k} {y = suc (r + suc k)}
            (omega arith) b) in
      let ram1 = record (cleared (page (suc i)) 4096 ram) { words = round i offset ram.words } in
      let filled = round-IsFilled i offset ram.words (omega arith) (omega (arith, o)) f in
      let (ram', done, e', b', f') =
        fill_directory-IsFilled r (suc i) k (add32 offset 4194304) ram1 (omega arith)
          (omega (arith, o)) same
          (subst (λ (n : ℕ). IsBump ram1.heap n (r + suc k)) {x = suc (a + suc i)}
            {y = a + suc (suc i)} (omega arith) next)
          filled in
      let shift : suc i + r ≡ i + suc r = omega arith in
      (
        ram',
        rw got done,
        e',
        subst (λ (n : ℕ). IsBump ram'.heap (a + suc n) (suc k)) shift b',
        subst (λ (n : ℕ). IsFilled n ram'.words) shift f',
      )

  -- What a filled directory says of a page, and of an address.
  pub get-IsFilled :
      (words : Memory) (v : ℕ)
      → IsFilled 1024 words
      → v % 4096 ≡ 0
      → v < 2 ^ 32
      → get words (page 0) v ≡ v + flags
  get-IsFilled words v f al h =
      let (i, j, found, hi, hj, split) = get_indexes_lem v al h in
      let table : table_of (words (word_at (page 0) i)) ≡ page (suc i) =
        ap table_of (f.entries i hi)
        ∙ table_of-entry (page (suc i)) flags (page-aligned (suc i))
            (page-small (suc i) (omega arith)) small in
      get-slot words (page 0) v i j found
      ∙ ap (λ (t : ℕ). words (word_at t j)) table
      ∙ f.tables i j hi hj
      ∙ bit_or-frame (i * 4194304 + j * 4096) flags (omega arith) small
      ∙ omega (arith, split)

  pub get_physical_address-IsFilled :
      (words : Memory) (v : ℕ)
      → IsFilled 1024 words
      → v < 2 ^ 32
      → get_physical_address words (page 0) v ≡ v
  unfolding get_physical_address align_to_lower_page
  get_physical_address-IsFilled words v f h =
      let va = v - v % 4096 in
      ap (λ (n : ℕ). add32 (table_of n) (sub32 v va))
        (get-IsFilled words va f (omega arith) (omega arith))
      ∙ ap (λ (n : ℕ). add32 n (sub32 v va)) (bit_and-frame (va + flags) (omega arith))
      ∙ omega arith

  -- The chunk's own word.
  pub IsFilled-chunk :
      (directory : ℕ) (words : Memory)
      → IsFilled 1024 words
      → IsFilled 1024 (store (clear (page 1025) 4 words) (page 1025) directory)
  IsFilled-chunk directory words f =
      let stays : (c j : ℕ)
          → c ≤ 1024
          → j < 1024
          → store (clear (page 1025) 4 words) (page 1025) directory (word_at (page c) j)
            ≡ words (word_at (page c) j) =
        λ c j hc hj.
          let sq = page-small c (omega arith) in
          let sp = page-small 1025 (omega arith) in
          let apart = page-ne 1025 c (λ e. omega arith) in
          store-ne (clear (page 1025) 4 words) (page 1025) directory (word_at (page c) j) (λ e.
            word_at-ne (page 1025) (page c) (page-aligned 1025) sp (page-aligned c) sq apart 0 j
              (omega arith) hj (omega (arith, sp) ∙ e))
          ∙ clear-other (page 1025) (page c) (page-aligned 1025) sp (page-aligned c) sq apart 4 j
              words (omega arith) hj in
      record {
        entries = λ k hk. stays 0 k (omega arith) hk ∙ f.entries k hk;
        tables = λ k j hk hj. stays (suc k) j (omega arith) hj ∙ f.tables k j hk hj;
      }
