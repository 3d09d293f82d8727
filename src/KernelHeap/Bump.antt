-- ===== src/KernelHeap/Bump.antt =====
-- A heap whose blocks in use stand at its beginning: allocations of at most one block, one after the
-- other.
use peach_os.Prelude.{ℕ, suc, ◌+◌, ◌*◌, ◌%◌, ◌^◌, ◌≤◌, ◌<◌, ◌≡◌, dec_lt, ap, ◌∙◌, arith, some, pos}
use peach_os.Heap.{Heap, malloc, is_free}
use peach_os.Heap.Next.{malloc-keeps, malloc-next}
use peach_os.Heap.Search.{AllTaken}
use peach_os.KernelHeap.{Ram, clear, kzalloc}
use peach_os.KernelHeap.Alloc.{HasRun, address, zeroed, kzalloc-first_fit}

-- The blocks below `a` are in use, and the `k` blocks from `a` on are free, in the heap and in the address
-- space.
pub record IsBump (h : Heap) (a k : ℕ) : Type 0 where
  pub aligned : h.saddr % 4096 ≡ 0
  pub above_null : 0 < h.saddr
  pub near : (a + k) * 4096 ≤ 2 ^ 31
  pub inside : a + k ≤ h.total
  pub addressed : h.saddr + (a + k) * 4096 + 4096 ≤ 2 ^ 32
  pub used : AllTaken h.entries 0 a
  pub unused : (j : ℕ) → a ≤ j → j < a + k → h.entries (pos j) ≡ 0

IsBump-HasRun :
    (h : Heap) (a k size : ℕ) → 0 < size → size ≤ 4096 → IsBump h a (suc k) → HasRun h size a
IsBump-HasRun h a k size positive small b = record {
  positive = positive;
  aligned = b.aligned;
  above_null = b.above_null;
  near = omega (arith, b.near);
  inside = omega (arith, b.inside);
  addressed = omega (arith, b.addressed);
  used = b.used;
  unused = λ j p q. b.unused j p (omega arith);
}

-- An allocation takes the first free block.
pub kzalloc-IsBump :
    (ram : Ram) (a k size : ℕ)
    → 0 < size
    → size ≤ 4096
    → IsBump ram.heap a (suc k)
    → (kzalloc size ram ≡ some (address ram.heap a, zeroed size a ram))
      × IsBump (zeroed size a ram).heap (suc a) k
      × ((zeroed size a ram).heap.saddr ≡ ram.heap.saddr)
kzalloc-IsBump ram a k size positive small b =
    let run = IsBump-HasRun ram.heap a k size positive small b in
    let (saddr, total) = malloc-keeps ram.heap size in
    let (used, behind) =
      malloc-next ram.heap size a positive small (omega (arith, b.inside)) b.used
        (b.unused a (omega arith) (omega arith)) in
    (
      kzalloc-first_fit ram size a run,
      record {
        aligned = omega (arith, saddr, b.aligned);
        above_null = omega (arith, saddr, b.above_null);
        near = omega (arith, b.near);
        inside = omega (arith, total, b.inside);
        addressed = omega (arith, saddr, b.addressed);
        used = used;
        unused = λ j p q. behind j p ∙ b.unused j (omega arith) (omega arith);
      },
      saddr,
    )

-- `kzalloc` at a known address.
abbrev pub cleared : (p size : ℕ) → Ram → Ram
cleared p size ram = record ram {
  heap = (malloc ram.heap size).1;
  bytes = clear p size ram.bytes;
  words = clear p size ram.words;
}

pub kzalloc-at :
    (ram : Ram) (base a k size : ℕ)
    → 0 < size
    → size ≤ 4096
    → ram.heap.saddr ≡ base
    → IsBump ram.heap a (suc k)
    → (kzalloc size ram ≡ some (base + a * 4096, cleared (base + a * 4096) size ram))
      × IsBump (malloc ram.heap size).1 (suc a) k
      × ((malloc ram.heap size).1.saddr ≡ base)
kzalloc-at ram base a k size positive small e b =
    let (got, next, same) = kzalloc-IsBump ram a k size positive small b in
    (got ∙ ap (λ (s : ℕ). some (s + a * 4096, cleared (s + a * 4096) size ram)) e, next, same ∙ e)

-- Block `g` is the first free one, the blocks between it and block `a + 1` are in use, and the `k` blocks
-- from there on are free.
pub record HasGap (h : Heap) (g a k : ℕ) : Type 0 where
  pub aligned : h.saddr % 4096 ≡ 0
  pub above_null : 0 < h.saddr
  pub below : g ≤ a
  pub near : (suc a + k) * 4096 ≤ 2 ^ 31
  pub inside : suc a + k ≤ h.total
  pub addressed : h.saddr + (suc a + k) * 4096 + 4096 ≤ 2 ^ 32
  pub used : AllTaken h.entries 0 g
  pub gap : h.entries (pos g) ≡ 0
  pub between : AllTaken h.entries (suc g) (suc a)
  pub unused : (j : ℕ) → suc a ≤ j → j < suc a + k → h.entries (pos j) ≡ 0

pub IsBump-HasGap : (h : Heap) (a k : ℕ) → IsBump h a (suc k) → HasGap h a a k
IsBump-HasGap h a k b = record {
  aligned = b.aligned;
  above_null = b.above_null;
  below = omega arith;
  near = omega (arith, b.near);
  inside = omega (arith, b.inside);
  addressed = omega (arith, b.addressed);
  used = b.used;
  gap = b.unused a (omega arith) (omega arith);
  between = λ j p q. absurd (omega arith);
  unused = λ j p q. b.unused j (omega arith) (omega arith);
}

HasGap-HasRun :
    (h : Heap) (g a k size : ℕ) → 0 < size → size ≤ 4096 → HasGap h g a k → HasRun h size g
HasGap-HasRun h g a k size positive small b = record {
  positive = positive;
  aligned = b.aligned;
  above_null = b.above_null;
  near = omega (arith, b.near, b.below);
  inside = omega (arith, b.inside, b.below);
  addressed = omega (arith, b.addressed, b.below);
  used = b.used;
  unused = λ j p q. ap (λ (i : ℕ). h.entries (pos i)) {x = j} {y = g} (omega arith) ∙ b.gap;
}

-- An allocation of at most one block fills the gap.
pub kzalloc-gap :
    (ram : Ram) (g a k size : ℕ)
    → 0 < size
    → size ≤ 4096
    → HasGap ram.heap g a k
    → (kzalloc size ram
        ≡ some (ram.heap.saddr + g * 4096, cleared (ram.heap.saddr + g * 4096) size ram))
      × IsBump (malloc ram.heap size).1 (suc a) k
      × ((malloc ram.heap size).1.saddr ≡ ram.heap.saddr)
kzalloc-gap ram g a k size positive small b =
    let (saddr, total) = malloc-keeps ram.heap size in
    let (used, behind) =
      malloc-next ram.heap size g positive small (omega (arith, b.inside, b.below)) b.used b.gap in
    (
      kzalloc-first_fit ram size g (HasGap-HasRun ram.heap g a k size positive small b),
      record {
        aligned = omega (arith, saddr, b.aligned);
        above_null = omega (arith, saddr, b.above_null);
        near = b.near;
        inside = omega (arith, total, b.inside);
        addressed = omega (arith, saddr, b.addressed);
        used = λ j p q. elim (dec_lt j (suc g)) [
          | yes l ↦ used j p l
          | no ge ↦ ap is_free (behind j (omega arith)) ∙ b.between j (omega arith) q
        ];
        unused = λ j p q. behind j (omega (arith, b.below)) ∙ b.unused j p q;
      },
      saddr,
    )
