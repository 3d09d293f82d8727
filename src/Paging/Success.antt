-- ===== src/Paging/Success.antt =====
-- When a range is mapped, whatever the directory.
use peach_os.Prelude.{
  ℕ, zero, suc, ◌+◌, ◌*◌, ◌/◌, ◌%◌, ◌^◌, ◌<◌, ◌≡◌, refl, ap, ◌∙◌, arith, ℤ, pos, add32,
}
use peach_os.Paging.{Memory, set, map, map_range_loop, map_range, map_to, align_address}
use peach_os.Paging.Range.{map_to-range}

map-result :
    (mem : Memory) (dir virt phys flags : ℕ)
    → virt % 4096 ≡ 0
    → phys % 4096 ≡ 0
    → (map mem dir virt phys flags).0 ≡ pos 0
unfolding map
map-result mem dir virt phys flags p q =
    rw (p, q, set, peach_os.Paging.get_indexes, peach_os.Paging.is_aligned) refl

map_range_loop-result :
    (n : ℕ) (mem : Memory) (dir virt phys flags : ℕ)
    → virt % 4096 ≡ 0
    → phys % 4096 ≡ 0
    → (map_range_loop n (pos 0) mem dir virt phys flags).0 ≡ pos 0
unfolding map_range_loop
map_range_loop-result zero mem dir virt phys flags p q = refl
map_range_loop-result (suc n) mem dir virt phys flags p q =
    rw (map-result mem dir virt phys flags p q) (
      map_range_loop-result n _ dir (add32 virt 4096) (add32 phys 4096) flags (omega arith)
        (omega arith))

-- The pages from an aligned address to the next aligned one behind `size` bytes are mapped, unless they
-- pass the end of the address space.
pub map_to-result :
    (mem : Memory) (dir virt phys size flags : ℕ)
    → virt % 4096 ≡ 0
    → phys % 4096 ≡ 0
    → phys + size + 4095 < 2 ^ 32
    → (map_to mem dir virt phys (align_address (add32 phys size)) flags).0 ≡ pos 0
unfolding align_address map_range
map_to-result mem dir virt phys size flags p q b =
    ap (λ e. (map_to mem dir virt phys e flags).0) end
    ∙ ap (λ (r : ℤ × Memory). r.0)
        (map_to-range mem dir virt phys ((size + 4095) / 4096) flags p q (omega arith))
    ∙ map_range_loop-result ((size + 4095) / 4096) mem dir virt phys flags p q
  where
    end : align_address (add32 phys size) ≡ phys + (size + 4095) / 4096 * 4096
    end = ground arith

-- An entry for an aligned address is always set.
pub set-result :
    (mem : Memory) (dir virt val : ℕ) → virt % 4096 ≡ 0 → (set mem dir virt val).0 ≡ pos 0
unfolding set
set-result mem dir virt val p =
    rw (set, peach_os.Paging.get_indexes, peach_os.Paging.is_aligned, p) refl
