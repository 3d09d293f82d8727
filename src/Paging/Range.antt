-- ===== src/Paging/Range.antt =====
-- Mapping ranges of pages, and translating addresses through them.
use peach_os.Prelude.{
  ℕ, zero, suc, ◌+◌, ◌-◌, ◌*◌, ◌/◌, ◌%◌, ◌^◌, ◌≤◌, ◌<◌, ◌≡◌, ◌≢◌, refl, ap, ◌∙◌, ◌⊎◌, false, ◌&&◌,
  arith, ◌==◌, leb, ltb, if◌then◌else◌, ℤ, pos, add32, sub32, bit_or-frame, bit_and-frame,
}
use peach_os.Paging.{
  Memory, einvarg, table_of, set, get, map, map_range_loop, map_range, map_to, get_physical_address,
  align_to_lower_page,
}
use peach_os.Paging.Table.{IsDirectory, set-reads}

-- What the directory says of the aligned addresses: `entry`.
abbrev Reads : Memory → ℕ → (ℕ → ℕ) → Type 0
Reads mem dir entry = (wa : ℕ) → wa % 4096 ≡ 0 → wa < 2 ^ 32 → get mem dir wa ≡ entry wa

-- The entries after `n` pages from `virt` on are mapped to the pages from `phys` on.
abbrev pub mapped : ℕ → (virt phys flags : ℕ) → (ℕ → ℕ) → ℕ → ℕ
mapped n virt phys flags old wa =
    if leb virt wa && ltb wa (virt + n * 4096) then phys + (wa - virt) + flags else old wa

map-aligned :
    (mem : Memory) (dir virt phys flags : ℕ)
    → virt % 4096 ≡ 0
    → phys % 4096 ≡ 0
    → flags < 4096
    → map mem dir virt phys flags ≡ set mem dir virt (phys + flags)
unfolding map
map-aligned mem dir virt phys flags p q f = rw (p, q, bit_or-frame phys flags q f)

map_range_loop-step :
    (n : ℕ) (mem : Memory) (dir virt phys flags : ℕ) (res : ℤ) {r : ℤ × Memory}
    → map mem dir virt phys flags ≡ r
    → r.0 ≡ pos 0
    → map_range_loop (suc n) res mem dir virt phys flags
      ≡ map_range_loop n (pos 0) r.1 dir (add32 virt 4096) (add32 phys 4096) flags
unfolding map_range_loop
map_range_loop-step n mem dir virt phys flags res e ok = rw (e, ok)

mapped-step :
    (n virt phys flags : ℕ) (old new : ℕ → ℕ) (wa : ℕ)
    → virt % 4096 ≡ 0
    → wa % 4096 ≡ 0
    → virt + suc n * 4096 ≤ 2 ^ 32
    → phys + suc n * 4096 ≤ 2 ^ 32
    → new wa ≡ (if virt == wa then phys + flags else old wa)
    → mapped n (add32 virt 4096) (add32 phys 4096) flags new wa
      ≡ mapped (suc n) virt phys flags old wa
mapped-step n virt phys flags old new wa p a bv bp e = ground arith

pub map_to-range :
    (mem : Memory) (dir virt phys n flags : ℕ)
    → virt % 4096 ≡ 0
    → phys % 4096 ≡ 0
    → phys + n * 4096 < 2 ^ 32
    → map_to mem dir virt phys (phys + n * 4096) flags ≡ map_range n mem dir virt phys flags
unfolding map_to
map_to-range mem dir virt phys n flags p q b = rw (p, q, aligned, not_below, count)
  where
    aligned : (phys + n * 4096) % 4096 ≡ 0
    aligned = omega arith

    not_below : ltb (phys + n * 4096) phys ≡ false
    not_below = ground arith

    count : sub32 (phys + n * 4096) phys / 4096 ≡ n
    count = omega arith

-- The state after the loop.
record Mapped (n : ℕ) (mem : Memory) (dir virt phys flags : ℕ) (r : ℤ × Memory) : Type 0 where
  pub result : r.0 ≡ pos 0
  pub directory : IsDirectory r.1 dir
  pub reads : Reads r.1 dir (mapped n virt phys flags (get mem dir))

map_range_loop-Mapped :
    (n : ℕ) (mem : Memory) (dir virt phys flags : ℕ)
    → IsDirectory mem dir
    → virt % 4096 ≡ 0
    → phys % 4096 ≡ 0
    → flags < 4096
    → virt + n * 4096 ≤ 2 ^ 32
    → phys + n * 4096 ≤ 2 ^ 32
    → Mapped n mem dir virt phys flags (map_range_loop n (pos 0) mem dir virt phys flags)
unfolding map_range_loop
map_range_loop-Mapped zero mem dir virt phys flags d p q f bv bp = record {
  result = refl;
  directory = d;
  reads = λ wa a s. ground arith;
}
map_range_loop-Mapped (suc n) mem dir virt phys flags d p q f bv bp =
    let (ok, keeps, reads) = set-reads virt (phys + flags) d p (omega arith) in
    let later =
      map_range_loop-Mapped n (set mem dir virt (phys + flags)).1 dir (add32 virt 4096)
        (add32 phys 4096) flags keeps (omega arith) (omega arith) f (omega arith) (omega arith) in
    rw
      (map_range_loop-step n mem dir virt phys flags (pos 0)
        (map-aligned mem dir virt phys flags p q f) ok)
      (record {
        result = later.result;
        directory = later.directory;
        reads = λ wa a s.
            later.reads wa a s
            ∙ mapped-step n virt phys flags (get mem dir)
                (get (set mem dir virt (phys + flags)).1 dir) wa p a bv bp (reads wa a s);
      })

map_range-Mapped :
    (n : ℕ) {mem : Memory} {dir : ℕ} (virt phys flags : ℕ)
    → IsDirectory mem dir
    → virt % 4096 ≡ 0
    → phys % 4096 ≡ 0
    → flags < 4096
    → virt + n * 4096 ≤ 2 ^ 32
    → phys + n * 4096 ≤ 2 ^ 32
    → Mapped n mem dir virt phys flags (map_range n mem dir virt phys flags)
unfolding map_range
map_range-Mapped n {mem} {dir} virt phys flags d p q f bv bp =
    map_range_loop-Mapped n mem dir virt phys flags d p q f bv bp

-- In a well-formed directory, `paging_map_range` with flags below 4096 on aligned pages that end in
-- the address space, virtual and physical, succeeds, keeps the directory
-- well formed, maps every page of the range, and leaves the other pages as they were: so at any
-- aligned address `wa`.
pub map_range_lem :
    (n : ℕ) {mem : Memory} {dir : ℕ} (virt phys flags wa : ℕ)
    → IsDirectory mem dir
    → virt % 4096 ≡ 0
    → phys % 4096 ≡ 0
    → flags < 4096
    → virt + n * 4096 ≤ 2 ^ 32
    → phys + n * 4096 ≤ 2 ^ 32
    → wa % 4096 ≡ 0
    → wa < 2 ^ 32
    → ((map_range n mem dir virt phys flags).0 ≡ pos 0)
      × IsDirectory (map_range n mem dir virt phys flags).1 dir
      × (get (map_range n mem dir virt phys flags).1 dir wa
          ≡ mapped n virt phys flags (get mem dir) wa)
map_range_lem n virt phys flags wa d p q f bv bp a s =
    let m = map_range-Mapped n virt phys flags d p q f bv bp in
    (m.result, m.directory, m.reads wa a s)

-- `paging_map_to` refuses bounds that are not aligned or out of order, and then maps nothing.
pub map_to-refuses :
    (mem : Memory) (dir virt phys phys_end flags : ℕ)
    → (virt % 4096 ≢ 0) ⊎ (phys % 4096 ≢ 0) ⊎ (phys_end % 4096 ≢ 0) ⊎ (phys_end < phys)
    → map_to mem dir virt phys phys_end flags ≡ (einvarg, mem)
unfolding map_to
map_to-refuses mem dir virt phys phys_end flags bad = ground arith

-- The frame of the entry of a mapped page, and the offset in the page.
translated :
    (virt phys n flags off : ℕ) (old : ℕ → ℕ) (entry : ℕ)
    → virt % 4096 ≡ 0
    → phys % 4096 ≡ 0
    → flags < 4096
    → virt + n * 4096 ≤ 2 ^ 32
    → phys + n * 4096 < 2 ^ 32
    → off < n * 4096
    → entry ≡ mapped n virt phys flags old (virt + off - (virt + off) % 4096)
    → add32 (table_of entry) (sub32 (virt + off) (virt + off - (virt + off) % 4096)) ≡ phys + off
translated virt phys n flags off old entry p q f bv bp lt e =
    rw (e ∙ page)
      (rw (bit_and-frame (phys + off / 4096 * 4096 + flags) (omega arith)) (omega arith))
  where
    page :
        mapped n virt phys flags old (virt + off - (virt + off) % 4096)
        ≡ phys + off / 4096 * 4096 + flags
    page = ground arith

-- After `paging_map_to` maps `n` pages from aligned addresses in a well-formed directory, with flags
-- below 4096 and ranges that end in the address space, every address of the range translates to the byte at the same
-- distance from the physical start.
pub get_physical_address-map_to :
    {mem : Memory} {dir : ℕ} (virt phys n flags off : ℕ)
    → IsDirectory mem dir
    → virt % 4096 ≡ 0
    → phys % 4096 ≡ 0
    → flags < 4096
    → virt + n * 4096 ≤ 2 ^ 32
    → phys + n * 4096 < 2 ^ 32
    → off < n * 4096
    → get_physical_address (map_to mem dir virt phys (phys + n * 4096) flags).1 dir (virt + off)
      ≡ phys + off
unfolding get_physical_address align_to_lower_page
get_physical_address-map_to {mem} {dir} virt phys n flags off d p q f bv bp lt =
    ap (λ (r : ℤ × Memory). get_physical_address r.1 dir (virt + off))
      (map_to-range mem dir virt phys n flags p q bp)
    ∙ translated virt phys n flags off (get mem dir) _ p q f bv bp lt
        (m.reads (virt + off - (virt + off) % 4096) (omega arith) (omega arith))
  where
    m : Mapped n mem dir virt phys flags (map_range n mem dir virt phys flags)
    m = map_range-Mapped n virt phys flags d p q f bv (omega arith)
