-- ===== src/Paging/Identity.antt =====
-- The chunk that `paging_new_4gb` makes leads every address to itself.
use peach_os.Prelude.{
  ℕ, suc, ◌+◌, ◌*◌, ◌%◌, ◌^◌, ◌<◌, ◌≡◌, refl, ap, ◌∙◌, arith, Option, some, ◌>>=◌, ◌-◌,
}
use mathlib.Core.Path.{subst}
use peach_os.KernelHeap.{Ram, kzalloc}
use peach_os.KernelHeap.Bump.{IsBump, HasGap, IsBump-HasGap, cleared, kzalloc-at, kzalloc-gap}
use peach_os.Paging.Filled.{
  page, fill_directory-IsFilled, get-IsFilled, get_physical_address-IsFilled, IsFilled-chunk,
}
use peach_os.Paging.{store, get, get_physical_address}
use peach_os.Paging.Table.{store_self}
use peach_os.Paging.Chunk.{fill_directory, new_4gb}

-- Three steps that succeed.
bind_steps :
    {A B C E : Type 0} (m : Option A) (f : A → Option B) (g : B → Option C) (h : A → C → E) (a : A)
    (b : B) (c : C)
    → m ≡ some a
    → f a ≡ some b
    → g b ≡ some c
    → (m >>= λ x. f x >>= λ y. g y >>= λ z. some (h x z)) ≡ some (h a c)
bind_steps m f g h a b c p q r = rw (p, q, r) refl

-- Where block `g` is the first free one, and 1025 blocks stand free from block `a + 1` on behind blocks in
-- use: the directory takes block `g`, its tables and the chunk take the others, and the directory leads
-- every 32-bit address to itself.
pub new_4gb-gap :
    (flags v g a k : ℕ) (ram : Ram)
    → HasGap ram.heap g a (1025 + k)
    → flags < 4096
    → v < 2 ^ 32
    → (r : ℕ × Ram) × (new_4gb flags ram ≡ some r)
      × (get_physical_address r.1.words (r.1.words r.0) v ≡ v)
      × (get r.1.words (r.1.words r.0) (v - v % 4096) ≡ v - v % 4096 + flags)
      × IsBump r.1.heap (a + 1026) k
unfolding new_4gb
new_4gb-gap flags v g a k ram b small h =
    let base = ram.heap.saddr in
    let al = b.aligned in
    let fits : base + (a + 1026) * 4096 < 2 ^ 32 = omega (arith, b.addressed) in
    let P = page base g a flags b.below al fits small in
    let (got, next, same) =
      kzalloc-gap ram g a (1024 + suc k) 4096 (omega arith) (omega arith)
        (subst (HasGap ram.heap g a) {x = 1025 + k} {y = 1024 + suc k} (omega arith) b) in
    let ram1 = cleared (P 0) 4096 ram in
    let (ram2, filled, same2, next2, f) =
      fill_directory-IsFilled base g a flags b.below al fits small 1024 0 k 0 ram1 (omega arith)
        (omega arith) same
        (subst (λ (n : ℕ). IsBump ram1.heap n (1024 + suc k)) {x = suc a} {y = a + suc 0}
          (omega arith) next)
        (record {
          entries = λ i p. absurd (omega arith);
          tables = λ i j p. absurd (omega arith);
        }) in
    let (got3, next3, same3) =
      kzalloc-at ram2 base (a + 1025) k 4 (omega arith) (omega arith) same2 next2 in
    let ram3 = cleared (P 1025) 4 ram2 in
    let done = IsFilled-chunk base g a flags b.below al fits small (P 0) ram2.words f in
    let words = store ram3.words (P 1025) (P 0) in
    let directory : words (P 1025) ≡ P 0 = store_self ram3.words (P 1025) (P 0) in
    (
      (P 1025, record ram3 { words = words }),
      bind_steps (kzalloc 4096 ram) (λ (d, ram'). fill_directory 1024 0 d 0 flags ram') (kzalloc 4)
          (λ (d, ram1') (chunk, ram'). (chunk, record ram' { words = store ram'.words chunk d }))
          (P 0, ram1) ram2 (P 1025, ram3) got filled got3,
      ap (λ (d : ℕ). get_physical_address words d v) directory
          ∙ get_physical_address-IsFilled base g a flags b.below al fits small words v done h,
      ap (λ (d : ℕ). get words d (v - v % 4096)) directory
          ∙ get-IsFilled base g a flags b.below al fits small words (v - v % 4096) done
              (omega arith) (omega arith),
      subst (λ (n : ℕ). IsBump ram3.heap n k) {x = suc (a + 1025)} {y = a + 1026} (omega arith)
          next3,
    )

-- Where 1026 blocks stand free behind those in use: `paging_new_4gb` with flags below 4096 succeeds, its
-- directory leads every 32-bit address to itself, every page's entry has the flags, and the heap's next
-- free block is 1026 blocks further.
pub new_4gb-identity :
    (flags v a k : ℕ) (ram : Ram)
    → IsBump ram.heap a (1026 + k)
    → flags < 4096
    → v < 2 ^ 32
    → (r : ℕ × Ram) × (new_4gb flags ram ≡ some r)
      × (get_physical_address r.1.words (r.1.words r.0) v ≡ v)
      × (get r.1.words (r.1.words r.0) (v - v % 4096) ≡ v - v % 4096 + flags)
      × IsBump r.1.heap (a + 1026) k
new_4gb-identity flags v a k ram b small h =
    new_4gb-gap flags v a a k ram
      (IsBump-HasGap ram.heap a (1025 + k)
        (subst (IsBump ram.heap a) {x = 1026 + k} {y = suc (1025 + k)} (omega arith) b))
      small h
