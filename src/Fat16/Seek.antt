-- ===== src/Fat16/Seek.antt =====
-- Seeking in an open file.
use peach_os.Prelude.{
  ℕ, ◌+◌, ◌*◌, ◌%◌, ◌^◌, zero, suc, ℕ_discrete, ◌<◌, ◌≤◌, ◌≡◌, ◌≢◌, sym, ap, ap₂, ◌∙◌, arith, false,
  inl, inr, leb, pos, Bool-cases,
}
use peach_os.Fat16.{
  DirectoryItem, file, FatPrivate, fat16_seek, seek_cur, fat_entry_position, get_first_fat_sector,
}

-- In a file, a seek by any mode but SEEK_CUR leaves the position below the file's size if it was there,
-- whether it succeeds or fails.
pub fat16_seek-inside :
    (ritem : DirectoryItem) (p offset seek_mode : ℕ)
    → p < ritem.file_size
    → seek_mode ≢ seek_cur
    → (fat16_seek (record { item = file ritem; pos = p }) offset seek_mode).1.pos < ritem.file_size
unfolding fat16_seek
fat16_seek-inside ritem p offset seek_mode h ne = elim (Bool-cases (leb ritem.file_size offset)) [
  | inl past ↦ rw past h
  | inr within ↦ ground arith
]

-- From every position of a file, a seek by SEEK_CUR to any offset below the file's size succeeds, and
-- adds the offset to the position, which then stands past the end of the file if the sum does.
pub fat16_seek-cur :
    (ritem : DirectoryItem) (p offset : ℕ)
    → offset < ritem.file_size
    → p + offset < 2 ^ 32
    → fat16_seek (record { item = file ritem; pos = p }) offset seek_cur
      ≡ (pos 0, record { item = file ritem; pos = p + offset })
unfolding fat16_seek
fat16_seek-cur ritem p offset h b =
    rw (let e : leb ritem.file_size offset ≡ false = ground arith in e)
      (ap (λ (q : ℕ). (pos 0, record { item = file ritem; pos = q })) (omega arith))

mul-ge : (a b : ℕ) → 0 < b → a ≤ a * b
mul-ge a zero h = absurd (omega arith)
mul-ge a (suc b) h = omega arith

mul-ge_left : (a b : ℕ) → 0 < a → b ≤ a * b
mul-ge_left zero b h = absurd (omega arith)
mul-ge_left (suc a) b h = omega arith

-- The number that the code seeks to for the entry of a cluster, the start of the table times the
-- entry's offset, is never the number of the entry's first byte, the start of the table plus the
-- entry's offset, while neither passes 32 bits and a sector is reserved.
fat_entry_position-ne :
    (private : FatPrivate) (cluster : ℕ)
    → 0 < private.reserved_sectors
    → private.reserved_sectors * 512 < 2 ^ 32
    → private.reserved_sectors * 512 * (cluster * 2) < 2 ^ 32
    → cluster * 2 < 2 ^ 32
    → fat_entry_position private cluster ≢ private.reserved_sectors * 512 + cluster * 2
unfolding fat_entry_position get_first_fat_sector
fat_entry_position-ne private cluster h b b' even e =
    let r = private.reserved_sectors in
    let small : r * 512 % 2 ^ 32 ≡ r * 512 = omega arith in
    let small' : r * 512 * (cluster * 2) % 2 ^ 32 ≡ r * 512 * (cluster * 2) = omega arith in
    let e' : r * 512 * (cluster * 2) ≡ r * 512 + cluster * 2 =
      sym small'
      ∙ ap₂ (λ (n m : ℕ). n * m % 2 ^ 32) (sym small)
          (let q : cluster * 2 ≡ cluster * 2 % 2 ^ 32 = omega (arith, even) in q)
      ∙ e in
    elim (ℕ_discrete cluster 0) [
      | yes z ↦ omega (arith, (let q : r * 512 * (cluster * 2) ≡ 0 = rw z (omega arith) in q))
      | no nz ↦ omega (arith, mul-ge r cluster (omega arith), mul-ge_left r cluster h)
    ]
