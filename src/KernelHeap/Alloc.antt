-- ===== src/KernelHeap/Alloc.antt =====
-- Allocations from the first free blocks that are enough.
use peach_os.Prelude.{
  ℕ, ◌+◌, ◌*◌, ◌%◌, ◌^◌, ◌<◌, ◌≤◌, ◌≡◌, refl, ◌∙◌, arith, some, ℤ, pos, ne→==, ◌==◌, false,
}
use peach_os.Heap.{Heap, malloc, free}
use peach_os.Heap.Alloc.{blocks_for, malloc-first_fit, free-malloc, zeros-AllFree}
use peach_os.Heap.Search.{AllTaken}
use peach_os.KernelHeap.{Ram, kmalloc, kzalloc, clear}

-- The heap begins on a page, the blocks that `size` bytes need stand free from block `a` on, in the
-- heap and in the address space, and all blocks below `a` are in use.
pub record HasRun (h : Heap) (size a : ℕ) : Type 0 where
  pub positive : 0 < size
  pub aligned : h.saddr % 4096 ≡ 0
  pub above_null : 0 < h.saddr
  pub near : a * 4096 < 2 ^ 31
  pub inside : a + blocks_for size ≤ h.total
  pub addressed : h.saddr + a * 4096 + size + 4095 < 2 ^ 32
  pub used : AllTaken h.entries 0 a
  pub unused : (j : ℕ) → a ≤ j → j < a + blocks_for size → h.entries (pos j) ≡ 0

-- The address of block `a`.
abbrev pub address : Heap → ℕ → ℕ
address h a = h.saddr + a * 4096

-- `kzalloc` of a run.
abbrev pub zeroed : (size a : ℕ) → Ram → Ram
zeroed size a ram = record ram {
  heap = (malloc ram.heap size).1;
  bytes = clear (address ram.heap a) size ram.bytes;
  words = clear (address ram.heap a) size ram.words;
}

malloc-address : (h : Heap) (size a : ℕ) → HasRun h size a → (malloc h size).0 ≡ address h a
malloc-address h size a r =
    (malloc-first_fit h size a r.positive (omega (arith, r.addressed)) r.inside r.used
      (zeros-AllFree h.entries a (a + blocks_for size) r.unused)).0
    ∙ omega (arith, r.addressed)

pub kzalloc-first_fit :
    (ram : Ram) (size a : ℕ)
    → HasRun ram.heap size a
    → kzalloc size ram ≡ some (address ram.heap a, zeroed size a ram)
unfolding kzalloc kmalloc
kzalloc-first_fit ram size a r =
    let there : (address ram.heap a == 0) ≡ false =
      ne→== (address ram.heap a) 0 (λ e. omega (arith, r.above_null)) in
    rw (malloc-address ram.heap size a r, there, there) refl

pub kfree-kzalloc :
    (ram : Ram) (size a : ℕ) (i : ℤ)
    → HasRun ram.heap size a
    → (free (malloc ram.heap size).1 (address ram.heap a)).entries i ≡ ram.heap.entries i
kfree-kzalloc ram size a i r = rw (← malloc-address ram.heap size a r) (
    free-malloc ram.heap size a r.positive (omega (arith, r.addressed)) (omega (arith, r.addressed))
      r.near r.inside r.used r.unused i)
