-- ===== src/Disk/Stream.antt =====
-- `diskstreamer_read` against the disk as one sequence of bytes.
use peach_os.Prelude.{
  drop-cons, ℕ, zero, suc, ◌+◌, ◌-◌, ◌/◌, ◌%◌, ◌^◌, ◌≤◌, ◌<◌, ◌≡◌, ◌≢◌, refl, sym, ap, ap₂, ◌∙◌,
  true, false, some, List, [], ◌∷◌, ◌++◌, arith, leb, get_or, take, drop, length, dec_lt, ne→==,
}
use peach_os.Disk.{
  DiskStream, int_limit, disk_read_sector, disk_read_block, copy_from, read_loop, diskstreamer_read,
}
use mathlib.Core.List.{append-nil}

-- The `n` cells of an array from `o` on.
cells : List ℕ → (o n : ℕ) → List ℕ
cells xs o zero = []
cells xs o (suc n) = get_or xs o 0 ∷ cells xs (suc o) n

take-drop-cells : (xs : List ℕ) (o n : ℕ) → o + n ≤ length xs → take n (drop o xs) ≡ cells xs o n
unfolding cells
take-drop-cells xs o zero h = refl
take-drop-cells xs o (suc n) h =
    rw (drop-cons xs o 0 (omega arith))
      (ap (λ t. get_or xs o 0 ∷ t) (take-drop-cells xs (suc o) n (omega arith)))

module _ (sector : ℕ → List ℕ) where
  -- Byte `p` of the disk, and the `n` bytes from `p` on.
  abbrev pub byte : ℕ → ℕ
  byte p = get_or (sector (p / 512)) (p % 512) 0

  abbrev pub bytes_from : (p n : ℕ) → List ℕ
  bytes_from p zero = []
  bytes_from p (suc n) = byte p ∷ bytes_from (suc p) n

  bytes_from-append : (p m n : ℕ) → bytes_from p (m + n) ≡ bytes_from p m ++ bytes_from (p + m) n
  bytes_from-append p zero n = ap₂ bytes_from {u = 0 + n} (omega arith) (omega arith)
  bytes_from-append p (suc m) n =
      ap (bytes_from p) {x = suc m + n} {y = suc (m + n)} (omega arith)
      ∙ ap (λ t. byte p ∷ t) (bytes_from-append (suc p) m n)
      ∙ ap (λ (q : ℕ). byte p ∷ bytes_from (suc p) m ++ bytes_from q n) (omega arith)

  -- The bytes of one sector.
  cells-sector :
      (p o n : ℕ) → p % 512 ≡ o → o + n ≤ 512 → cells (sector (p / 512)) o n ≡ bytes_from p n
  unfolding cells
  cells-sector p o zero e h = refl
  cells-sector p o (suc zero) e h = ap (λ (i : ℕ). get_or (sector (p / 512)) i 0 ∷ []) (sym e)
  cells-sector p o (suc (suc n)) e h =
      ap₂ ◌∷◌ (ap (λ (i : ℕ). get_or (sector (p / 512)) i 0) (sym e)) (
        ap (λ (l : ℕ). cells (sector l) (suc o) (suc n))
          (let q : p / 512 ≡ suc p / 512 = omega arith in q)
        ∙ cells-sector (suc p) (suc o) (suc n) (omega arith) (omega arith))

  copy_from-sector :
      (p n : ℕ)
      → length (sector (p / 512)) ≡ 512
      → p % 512 + n ≤ 512
      → copy_from sector (disk_read_sector sector (p / 512) 1) (p % 512) n ≡ bytes_from p n
  unfolding copy_from disk_read_sector
  copy_from-sector p n full h = rw append-nil (
      take-drop-cells (sector (p / 512)) (p % 512) n (omega arith)
      ∙ cells-sector p (p % 512) n refl h)

  not_over : (p total : ℕ) → p + total < 2 ^ 31 → leb int_limit (p + total) ≡ false
  not_over p total h = ground arith

  -- One call: the last one, and one that is followed by another.
  read_loop-last :
      (fuel p total : ℕ)
      → p + total < 2 ^ 31
      → p % 512 + total < 512
      → read_loop sector (suc fuel) (record { pos = p; disk = 0 }) total
        ≡ some (
          copy_from sector (disk_read_sector sector (p / 512) 1) (p % 512) total,
          record { pos = p + total; disk = 0 },
        )
  unfolding read_loop
  read_loop-last fuel p total int h =
      rw
        (
          read_loop,
          not_over p total int,
          (let e : leb 512 (p % 512 + total) ≡ false = ground arith in e),
        )
        refl

  read_loop-over :
      (fuel p total : ℕ) (out : List ℕ) (s : DiskStream)
      → p + total < 2 ^ 31
      → 512 ≤ p % 512 + total
      → read_loop sector fuel
          (record { pos = p + (512 - p % 512); disk = 0 })
          (total - (512 - p % 512))
        ≡ some (out, s)
      → read_loop sector (suc fuel) (record { pos = p; disk = 0 }) total
        ≡ some (
          copy_from sector (disk_read_sector sector (p / 512) 1) (p % 512) (512 - p % 512) ++ out,
          s,
        )
  unfolding read_loop
  read_loop-over fuel p total out s int h e = rw (not_over p total int, over, rest, e, over, rest)
    where
      over : leb 512 (p % 512 + total) ≡ true
      over = ground arith

      rest : total - (p % 512 + total - 512) ≡ 512 - p % 512
      rest = omega arith

module _ (sector : ℕ → List ℕ) (full : (lba : ℕ) → length (sector lba) ≡ 512) where
  read_loop-bytes :
      (fuel p total : ℕ)
      → p + total < 2 ^ 31
      → (p % 512 + total) / 512 < fuel
      → read_loop sector fuel (record { pos = p; disk = 0 }) total
        ≡ some (bytes_from sector p total, record { pos = p + total; disk = 0 })
  read_loop-bytes zero p total int h = absurd (omega arith)
  read_loop-bytes (suc fuel) p total int h = elim (dec_lt (p % 512 + total) 512) [
    | yes last ↦
        read_loop-last sector fuel p total int last
        ∙ ap (λ (out : List ℕ). some (out, record { pos = p + total; disk = 0 }))
            (copy_from-sector sector p total (full (p / 512)) (omega arith))
    | no over ↦
        read_loop-over sector fuel p total _ _ int (omega arith) (
          read_loop-bytes fuel (p + (512 - p % 512)) (total - (512 - p % 512)) (omega arith)
            (omega arith))
        ∙ ap₂ (λ (out : List ℕ) (q : ℕ). some (out, record { pos = q; disk = 0 }))
            (whole p total (omega arith)) (omega arith)
  ]
    where
      whole :
          (p total : ℕ)
          → 512 ≤ p % 512 + total
          → copy_from sector (disk_read_sector sector (p / 512) 1) (p % 512) (512 - p % 512)
              ++ bytes_from sector (p + (512 - p % 512)) (total - (512 - p % 512))
            ≡ bytes_from sector p total
      whole p total h =
          rw (copy_from-sector sector p (512 - p % 512) (full (p / 512)) (omega arith)) (
            sym (bytes_from-append sector p (512 - p % 512) (total - (512 - p % 512)))
            ∙ ap (bytes_from sector p) (omega arith))

  -- On disk 0, whose sectors have 512 bytes, a read from any position, of any length that ends below
  -- 2 ^ 31, answers exactly the bytes of the disk from there on, across sector boundaries, and moves the
  -- position behind them; the fuel is enough.
  pub diskstreamer_read_lem :
      (p total : ℕ)
      → p + total < 2 ^ 31
      → diskstreamer_read sector (record { pos = p; disk = 0 }) total
        ≡ some (bytes_from sector p total, record { pos = p + total; disk = 0 })
  unfolding diskstreamer_read
  diskstreamer_read_lem p total int = read_loop-bytes (total / 512 + 2) p total int (omega arith)

read_loop-no_disk :
    (sector : ℕ → List ℕ) (fuel p d total : ℕ)
    → d ≢ 0
    → p + total < 2 ^ 31
    → read_loop sector (suc fuel) (record { pos = p; disk = d }) total
      ≡ some ([], record { pos = p; disk = d })
unfolding read_loop disk_read_block
read_loop-no_disk sector fuel p d total h int =
    rw (read_loop, not_over sector p total int, disk_read_block, ne→== d 0 h) refl

-- A stream of a disk other than disk 0, up to a position below 2 ^ 31, reads nothing, and its position stays; the answer is the same
-- 0 as for a read that succeeds.
pub diskstreamer_read-no_disk :
    (sector : ℕ → List ℕ) (p d total : ℕ)
    → d ≢ 0
    → p + total < 2 ^ 31
    → diskstreamer_read sector (record { pos = p; disk = d }) total
      ≡ some ([], record { pos = p; disk = d })
unfolding diskstreamer_read
diskstreamer_read-no_disk sector p d total h int =
    ap (λ (fuel : ℕ). read_loop sector fuel (record { pos = p; disk = d }) total)
      {x = total / 512 + 2} {y = suc (total / 512 + 1)} (omega arith)
    ∙ read_loop-no_disk sector (total / 512 + 1) p d total h int
