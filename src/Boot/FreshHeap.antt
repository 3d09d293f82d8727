-- ===== src/Boot/FreshHeap.antt =====
-- The kernel's heap when it is initialised.
use peach_os.Prelude.{ℕ, ◌+◌, ◌<◌, ◌≡◌, refl, arith, some, ℤ}
use peach_os.Heap.{Heap, create}
use peach_os.Heap.Alloc.{create-any_total}
use peach_os.KernelHeap.{kheap_init}
use peach_os.KernelHeap.Bump.{IsBump}

abbrev fresh : (ℤ → ℕ) → Heap → Heap
fresh entries old = (create 0x01000000 (0x01000000 + 104857600) entries 25600 old).1

-- It begins at 16 MiB, and all its 25600 blocks are free.
pub kheap_init-IsBump :
    (entries : ℤ → ℕ) (old : Heap)
    → (h : Heap) × (kheap_init entries old ≡ some h) × IsBump h 0 25600
unfolding kheap_init
kheap_init-IsBump entries old =
    let facts = λ (i : ℕ) (l : i < 25600).
      create-any_total 0x01000000 (0x01000000 + 104857600) 25600 i entries old refl refl l in
    let (ok, total, saddr, _) = facts 0 (omega arith) in
    (
      fresh entries old,
      rw (kheap_init, ok) refl,
      record {
        aligned = omega (arith, saddr);
        above_null = omega (arith, saddr);
        near = omega arith;
        inside = omega (arith, total);
        addressed = omega (arith, saddr);
        used = λ j p q. absurd (omega arith);
        unused = λ j p q. (facts j (omega arith)).3;
      },
    )
