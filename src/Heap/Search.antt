-- ===== src/Heap/Search.antt =====
-- `heap_get_start_block`: what the search over the table finds.
use peach_os.Prelude.{
  ℕ, zero, suc, ◌+◌, ◌-◌, ◌≤◌, ◌<◌, ◌≡◌, refl, ◌∙◌, ◌≢◌, true, false, Option, none, some, arith,
  Bool-cases, inl, inr, ne→==, eq→==, ℤ, pos, ℕ_discrete,
}
use peach_os.Heap.{Heap, is_free, first_block, search, get_start_block}

-- Blocks `[a, b)` are free; blocks `[a, b)` are in use.
abbrev pub AllFree : (ℤ → ℕ) → ℕ → ℕ → Type 0
AllFree e a b = (j : ℕ) → a ≤ j → j < b → is_free (e (pos j)) ≡ true

abbrev pub AllTaken : (ℤ → ℕ) → ℕ → ℕ → Type 0
AllTaken e a b = (j : ℕ) → a ≤ j → j < b → is_free (e (pos j)) ≡ false

abbrev FreeBelow : (ℤ → ℕ) → ℕ → Option ℕ → Type 0
FreeBelow e b none = Unit
FreeBelow e b (some s) = (s < b) × (is_free (e (pos s)) ≡ true)

module _ (e : ℤ → ℕ) (n k i : ℕ) (start : Option ℕ) (f : ℕ) where
  search-taken :
      is_free (e (pos i)) ≡ false → search e n (suc k) i start f ≡ search e n k (i + 1) none f
  unfolding search
  search-taken h = rw h

  search-last :
      is_free (e (pos i)) ≡ true
      → f + 1 ≡ n
      → search e n (suc k) i start f ≡ some (first_block start i)
  unfolding search
  search-last h p = rw (h, eq→== (f + 1) n p)

  search-more :
      is_free (e (pos i)) ≡ true
      → f + 1 ≢ n
      → search e n (suc k) i start f ≡ search e n k (i + 1) (some (first_block start i)) (f + 1)
  unfolding search
  search-more h p = rw (h, ne→== (f + 1) n p)

first_block-FreeBelow :
    (e : ℤ → ℕ) (b i : ℕ) (start : Option ℕ)
    → i < b
    → is_free (e (pos i)) ≡ true
    → FreeBelow e b start
    → FreeBelow e b (some (first_block start i))
first_block-FreeBelow e b i none h p s = (h, p)
first_block-FreeBelow e b i (some j) h p s = s

search-FreeBelow :
    (e : ℤ → ℕ) (n k i : ℕ) (start : Option ℕ) (f b : ℕ)
    → i + k ≡ b
    → FreeBelow e b start
    → FreeBelow e b (search e n k i start f)
search-FreeBelow e n zero i start f b eq h = unfold search in h
search-FreeBelow e n (suc k) i start f b eq h = elim (Bool-cases (is_free (e (pos i)))) [
  | inr used ↦
      rw (search-taken e n k i start f used)
        (search-FreeBelow e n k (i + 1) none f b (omega arith) tt)
  | inl unused ↦
      let ok = first_block-FreeBelow e b i start (omega arith) unused h in
      elim (ℕ_discrete (f + 1) n) [
        | yes p ↦ rw (search-last e n k i start f unused p) ok
        | no p ↦
            rw (search-more e n k i start f unused p) (
              search-FreeBelow e n k (i + 1) (some (first_block start i)) (f + 1) b (omega arith)
                ok)
      ]
]

-- Inside a run that started at `a`, with `m` more free blocks to the wanted number.
search-run :
    (e : ℤ → ℕ) (n k i a f m : ℕ)
    → f + m ≡ n
    → 0 < m
    → m ≤ k
    → AllFree e i (i + m)
    → search e n k i (some a) f ≡ some a
search-run e n k i a f zero eq pos_m le all = absurd (omega arith)
search-run e n zero i a f (suc m) eq pos_m le all = absurd (omega arith)
search-run e n (suc k) i a f (suc zero) eq pos_m le all =
    search-last e n k i (some a) f (all i (omega arith) (omega arith)) (omega arith)
search-run e n (suc k) i a f (suc (suc m)) eq pos_m le all =
    search-more e n k i (some a) f (all i (omega arith) (omega arith)) (omega arith)
    ∙ search-run e n k (i + 1) a (f + 1) (suc m) (omega arith) (omega arith) (omega arith)
        (λ j p q. all j (omega arith) (omega arith))

-- A run of free blocks that is long enough is found at its first block.
search-start :
    (e : ℤ → ℕ) (n k i f m : ℕ)
    → f + m ≡ n
    → 0 < m
    → m ≤ k
    → AllFree e i (i + m)
    → search e n k i none f ≡ some i
search-start e n zero i f m eq pos_m le all = absurd (omega arith)
search-start e n (suc k) i f m eq pos_m le all = elim (ℕ_discrete (f + 1) n) [
  | yes p ↦ search-last e n k i none f (all i (omega arith) (omega arith)) p
  | no p ↦
      search-more e n k i none f (all i (omega arith) (omega arith)) p
      ∙ search-run e n k (i + 1) i (f + 1) (m - 1) (omega arith) (omega arith) (omega arith)
          (λ j q r. all j (omega arith) (omega arith))
]

search-at :
    (e : ℤ → ℕ) (n : ℕ) {k k' i i' f f' : ℕ} (start : Option ℕ)
    → k ≡ k'
    → i ≡ i'
    → f ≡ f'
    → search e n k i start f ≡ search e n k' i' start f'
search-at e n start p q r = λ x. search e n (p x) (q x) start (r x)

-- Blocks in use are passed over, and the count of free blocks is kept.
search-skip :
    (e : ℤ → ℕ) (n r i j f : ℕ)
    → i ≤ j
    → j ≤ i + r
    → AllTaken e i j
    → search e n r i none f ≡ search e n (i + r - j) j none f
search-skip e n zero i j f le ge all = search-at e n none (omega arith) (omega arith) refl
search-skip e n (suc r) i j f le ge all = elim (ℕ_discrete i j) [
  | yes p ↦ search-at e n none (omega arith) p refl
  | no p ↦
      search-taken e n r i none f (all i (omega arith) (omega arith))
      ∙ search-skip e n r (i + 1) j f (omega arith) (omega arith) (λ x q s. all x (omega arith) s)
      ∙ search-at e n none (omega arith) refl refl
]

-- Free blocks that are too few are passed over too, and counted.
search-count :
    (e : ℤ → ℕ) (n r i j f s : ℕ)
    → i ≤ j
    → j ≤ i + r
    → f + (j - i) < n
    → AllFree e i j
    → search e n r i (some s) f ≡ search e n (i + r - j) j (some s) (f + (j - i))
search-count e n zero i j f s le ge lt all =
    search-at e n (some s) (omega arith) (omega arith) (omega arith)
search-count e n (suc r) i j f s le ge lt all = elim (ℕ_discrete i j) [
  | yes p ↦ search-at e n (some s) (omega arith) p (omega arith)
  | no p ↦
      search-more e n r i (some s) f (all i (omega arith) (omega arith)) (omega arith)
      ∙ search-count e n r (i + 1) j (f + 1) s (omega arith) (omega arith) (omega arith)
          (λ x q t. all x (omega arith) t)
      ∙ search-at e n (some s) (omega arith) refl (omega arith)
]

-- Whatever block `heap_get_start_block` returns lies in the table and is free.
pub get_start_block-free :
    (h : Heap) (n : ℕ) {s : ℕ}
    → get_start_block h n ≡ some s
    → (s < h.total) × (is_free (h.entries (pos s)) ≡ true)
unfolding get_start_block
get_start_block-free h n {s} eq =
    rw eq at (search-FreeBelow h.entries n h.total 0 none 0 h.total (omega arith) tt)

-- Where all blocks below `a` are in use and the `n` blocks from `a` on are free and in the table,
-- the search returns `a`.
pub get_start_block-first_fit :
    (h : Heap) (n a : ℕ)
    → 0 < n
    → a + n ≤ h.total
    → AllTaken h.entries 0 a
    → AllFree h.entries a (a + n)
    → get_start_block h n ≡ some a
unfolding get_start_block
get_start_block-first_fit h n a pos_n le used unused =
    search-skip h.entries n h.total 0 a 0 (omega arith) (omega arith) used
    ∙ search-start h.entries n (0 + h.total - a) a 0 n (omega arith) pos_n (omega arith) unused

-- The count of free blocks survives a taken block: with `f` free blocks (fewer than `n`) from `g`
-- on, blocks in use up to `a`, and only `n - f` free blocks from `a` on, the search returns `a`,
-- although the run at `a` need not be `n` blocks long.
pub get_start_block-fragmented :
    (h : Heap) (n g f a : ℕ)
    → 0 < f
    → f < n
    → g + f < a
    → a + (n - f) ≤ h.total
    → AllTaken h.entries 0 g
    → AllFree h.entries g (g + f)
    → AllTaken h.entries (g + f) a
    → AllFree h.entries a (a + (n - f))
    → get_start_block h n ≡ some a
unfolding get_start_block
get_start_block-fragmented h n g f a pos_f lt gap le used0 free0 used1 free1 =
    search-skip h.entries n h.total 0 g 0 (omega arith) (omega arith) used0
    ∙ search-at h.entries n {k' = suc (h.total - g - 1)} none (omega arith) refl refl
    ∙ search-more h.entries n _ g none 0 (free0 g (omega arith) (omega arith)) (omega arith)
    ∙ search-count h.entries n _ (g + 1) (g + f) 1 g (omega arith) (omega arith) (omega arith)
        (λ x q t. free0 x (omega arith) t)
    ∙ search-at h.entries n {k' = suc (h.total - (g + f) - 1)} {f' = f} (some g) (omega arith) refl
        (omega arith)
    ∙ search-taken h.entries n _ (g + f) (some g) f (used1 (g + f) (omega arith) (omega arith))
    ∙ search-skip h.entries n _ (g + f + 1) a f (omega arith) (omega arith)
        (λ x q t. used1 x (omega arith) t)
    ∙ search-start h.entries n _ a f (n - f) (omega arith) (omega arith) (omega arith) free1

-- With every block in use the search fails.
pub get_start_block-full :
    (h : Heap) (n : ℕ) → AllTaken h.entries 0 h.total → get_start_block h n ≡ none
unfolding get_start_block search
get_start_block-full h n used =
    search-skip h.entries n h.total 0 h.total 0 (omega arith) (omega arith) used
    ∙ search-at h.entries n {k' = 0} none (omega arith) refl refl
