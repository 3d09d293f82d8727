-- ===== src/Fat16/Read.antt =====
-- Reading a file across its clusters.
use peach_os.Prelude.{
  ℕ, zero, suc, ◌+◌, ◌-◌, ◌*◌, ◌%◌, ◌^◌, leb, ◌<◌, ◌≤◌, ◌≡◌, refl, sym, ap, ap₂, ◌∙◌, arith, true,
  false, some, List, ◌∷◌, ◌++◌, ltb, inr, length, pos, dec_lt, ne→==,
}
use native.Mathlib.Nat.{lt_of_mul-lt-mul_right}
use peach_os.Disk.{DiskStream, int_limit, diskstreamer_seek, diskstreamer_read}
use peach_os.Disk.Stream.{bytes_from, diskstreamer_read_lem}
use peach_os.Fat16.{
  FatPrivate, size_of_cluster_in_bytes, get_cluster_for_offset, starting_pos, cluster_to_sector,
  read_internal_from_stream, read_internal,
}
use peach_os.Fat16.Chain.{
  IsChain, skip_clusters-chain, file_bytes, file_bytes-append, div-at, mod-at,
}

module _ (sector : ℕ → List ℕ) (full : (lba : ℕ) → length (sector lba) ≡ 512) (private : FatPrivate)
    (cluster_at : ℕ → ℕ) (n : ℕ) (chain : IsChain sector private cluster_at n)
    (some_size : 0 < size_of_cluster_in_bytes private) where
  -- The first byte of a cluster of the file.
  start : ℕ → ℕ
  start b = cluster_to_sector private (cluster_at b) * 512

  read-stream :
      (stream : DiskStream) (p total : ℕ)
      → stream.disk ≡ 0
      → p + total < 2 ^ 31
      → diskstreamer_read sector (diskstreamer_seek stream p) total
        ≡ some (bytes_from sector p total, record { pos = p + total; disk = 0 })
  unfolding diskstreamer_seek
  read-stream stream p total e int =
      rw (e, (let q : p % 2 ^ 32 ≡ p = omega (arith, int) in q))
        (diskstreamer_read_lem sector full p total int)

  not_negative : (i : ℕ) → i < 2 ^ 31 → leb int_limit i ≡ false
  not_negative i h = ground arith

  -- The bytes of one cluster.
  bytes_from-cluster :
      (b r k : ℕ)
      → r + k ≤ size_of_cluster_in_bytes private
      → bytes_from sector (start b + r) k
        ≡ file_bytes sector private cluster_at (b * size_of_cluster_in_bytes private + r) k
  unfolding start
  bytes_from-cluster b r zero h = refl
  bytes_from-cluster b r (suc k) h =
      ap₂ ◌∷◌
        (rw
          (
            div-at b r {size = size_of_cluster_in_bytes private} (omega arith),
            mod-at b r {size = size_of_cluster_in_bytes private} (omega arith),
          )
          refl)
        (ap (λ (q : ℕ). bytes_from sector q k) {x = suc (start b + r)} {y = start b + suc r}
            (omega arith)
          ∙ bytes_from-cluster b (suc r) k (omega arith)
          ∙ ap (λ (q : ℕ). file_bytes sector private cluster_at q k) (omega arith))

  read-last :
      (fuel : ℕ) (stream : DiskStream) (c k o total : ℕ)
      → stream.disk ≡ 0
      → get_cluster_for_offset sector private c o ≡ some (inr k)
      → total ≤ size_of_cluster_in_bytes private
      → o + total < 2 ^ 31
      → k < 2 ^ 31
      → starting_pos sector private k o + total < 2 ^ 31
      → read_internal_from_stream sector private (suc fuel) stream c o total
        ≡ some (pos 0, bytes_from sector (starting_pos sector private k o) total)
  unfolding read_internal_from_stream
  read-last fuel stream c k o total d e h int intk ints =
      rw
        (
          read_internal_from_stream,
          not_negative o (omega arith),
          e,
          not_negative k intk,
          not_negative total (omega arith),
          (let q : ltb (size_of_cluster_in_bytes private) total ≡ false = ground arith in q),
          read-stream stream (starting_pos sector private k o) total d ints,
          (let q : ltb 0 (total - total) ≡ false = ground arith in q),
        )
        refl

  read-more :
      (fuel : ℕ) (stream : DiskStream) (c k o total : ℕ) (rest : List ℕ)
      → stream.disk ≡ 0
      → get_cluster_for_offset sector private c o ≡ some (inr k)
      → size_of_cluster_in_bytes private < total
      → o + total < 2 ^ 31
      → k < 2 ^ 31
      → starting_pos sector private k o + size_of_cluster_in_bytes private < 2 ^ 31
      → read_internal_from_stream sector private fuel stream c
          (o + size_of_cluster_in_bytes private)
          (total - size_of_cluster_in_bytes private)
        ≡ some (pos 0, rest)
      → read_internal_from_stream sector private (suc fuel) stream c o total
        ≡ some (
          pos 0,
          bytes_from sector (starting_pos sector private k o) (size_of_cluster_in_bytes private)
              ++ rest,
        )
  unfolding read_internal_from_stream
  read-more fuel stream c k o total rest d e h int intk ints more =
      rw
        (
          read_internal_from_stream,
          not_negative o (omega arith),
          e,
          not_negative k intk,
          not_negative total (omega arith),
          (let q : ltb (size_of_cluster_in_bytes private) total ≡ true = ground arith in q),
          read-stream stream (starting_pos sector private k o) (size_of_cluster_in_bytes private) d
              ints,
          (let q : ltb 0 (total - size_of_cluster_in_bytes private) ≡ true = ground arith in q),
          more,
        )
        refl

  get_cluster_for_offset-chain :
      (b r : ℕ)
      → b ≤ n
      → r < size_of_cluster_in_bytes private
      → get_cluster_for_offset sector private
          (cluster_at 0)
          (b * size_of_cluster_in_bytes private + r)
        ≡ some (inr (cluster_at b))
  unfolding get_cluster_for_offset
  get_cluster_for_offset-chain b r h lt =
      rw
        (
          ne→== (size_of_cluster_in_bytes private) 0 (λ e. omega arith),
          div-at b r {size = size_of_cluster_in_bytes private} lt,
        )
        (skip_clusters-chain sector private cluster_at b 0 (λ i l. chain i (omega arith))
          ∙ ap (λ (j : ℕ). some (inr (cluster_at j))) (omega arith))

  -- The whole of a cluster stands below 2 ^ 31, and its number too.
  abbrev Fits : ℕ → Type 0
  Fits b = (cluster_at b < 2 ^ 31) × (start b + size_of_cluster_in_bytes private < 2 ^ 31)

  starting_pos-at :
      (b r : ℕ)
      → Fits b
      → r < size_of_cluster_in_bytes private
      → starting_pos sector private (cluster_at b) (b * size_of_cluster_in_bytes private + r)
        ≡ start b + r
  unfolding starting_pos start
  starting_pos-at b r (number, fits) h =
      rw (mod-at b r {size = size_of_cluster_in_bytes private} h) (omega arith)

  starting_pos-below :
      (b r k : ℕ)
      → Fits b
      → r < size_of_cluster_in_bytes private
      → start b + r + k < 2 ^ 31
      → starting_pos sector private (cluster_at b) (b * size_of_cluster_in_bytes private + r) + k
        < 2 ^ 31
  starting_pos-below b r k fits h int = omega (arith, starting_pos-at b r fits h, int)

  read_chain :
      (fuel : ℕ) (stream : DiskStream) (b total : ℕ)
      → stream.disk ≡ 0
      → total < fuel
      → b ≤ n
      → b * size_of_cluster_in_bytes private + total ≤ suc n * size_of_cluster_in_bytes private
      → b * size_of_cluster_in_bytes private + total < 2 ^ 31
      → ((i : ℕ) → i ≤ n → Fits i)
      → read_internal_from_stream sector private fuel stream
          (cluster_at 0)
          (b * size_of_cluster_in_bytes private + 0)
          total
        ≡ some (
          pos 0,
          file_bytes sector private cluster_at (b * size_of_cluster_in_bytes private + 0) total,
        )
  read_chain zero stream b total d f h t int fits = absurd (omega arith)
  read_chain (suc fuel) stream b total d f h t int fits =
      elim (dec_lt (size_of_cluster_in_bytes private) total) [
        | no le ↦
            read-last fuel stream (cluster_at 0) (cluster_at b) _ total d
              (get_cluster_for_offset-chain b 0 h some_size) (omega arith) (omega (arith, int))
              (fits b h).0
              (starting_pos-below b 0 total (fits b h) some_size (omega (arith, (fits b h).1)))
            ∙ rw
                (
                  starting_pos-at b 0 (fits b h) some_size,
                  bytes_from-cluster b 0 total (omega arith),
                )
                refl
        | yes more ↦
            read-more fuel stream (cluster_at 0) (cluster_at b) _ total
              (bytes_of (b * size + 0 + size) (total - size)) d
              (get_cluster_for_offset-chain b 0 h some_size) more (omega (arith, int)) (fits b h).0
              (starting_pos-below b 0 size (fits b h) some_size (omega (arith, (fits b h).1)))
              (ap
                  (λ (q : ℕ).
                    read_internal_from_stream sector private fuel stream (cluster_at 0) q
                      (total - size))
                  (sym next)
                ∙ read_chain fuel stream (suc b) (total - size) d (omega arith) (below more)
                    (omega arith) (omega (arith, int)) fits
                ∙ ap (λ (q : ℕ). some (pos 0, bytes_of q (total - size))) next)
            ∙ rw
                (
                  starting_pos-at b 0 (fits b h) some_size,
                  bytes_from-cluster b 0 size (omega arith),
                )
                (ap (λ (out : List ℕ). some (pos 0, out))
                  (sym (
                      file_bytes-append sector private cluster_at (b * size + 0) size
                        (total - size))
                    ∙ ap (bytes_of (b * size + 0)) (omega arith)))
      ]
    where
      size : ℕ
      size = size_of_cluster_in_bytes private

      bytes_of : ℕ → ℕ → List ℕ
      bytes_of = file_bytes sector private cluster_at

      next : suc b * size + 0 ≡ b * size + 0 + size
      next = omega arith

      below : size < total → suc b ≤ n
      below more =
          let lt : suc b < suc n =
            lt_of_mul-lt-mul_right size {m = suc b} {n = suc n} (omega arith) in
          omega arith

  -- Let every sector have 512 bytes and a cluster at least one sector, let the entries that the code
  -- reads lead from a file's first cluster over `n` further ones, and let these clusters' numbers be below
  -- 2 ^ 31 and their bytes stand below 2 ^ 31 on disk 0. Then reading any number of bytes that the clusters
  -- hold, from the start of any of them and up to an offset below 2 ^ 31, answers 0 and writes exactly the bytes of the file, each from its own cluster.
  pub read_internal-chain :
      (b total : ℕ)
      → private.cluster_read_stream.disk ≡ 0
      → b ≤ n
      → b * size_of_cluster_in_bytes private + total ≤ suc n * size_of_cluster_in_bytes private
      → b * size_of_cluster_in_bytes private + total < 2 ^ 31
      → ((i : ℕ)
          → i ≤ n
          → (cluster_at i < 2 ^ 31)
            × (cluster_to_sector private (cluster_at i) * 512 + size_of_cluster_in_bytes private
                < 2 ^ 31))
      → read_internal sector private (cluster_at 0) (b * size_of_cluster_in_bytes private) total
        ≡ some (
          pos 0,
          file_bytes sector private cluster_at (b * size_of_cluster_in_bytes private) total,
        )
  unfolding read_internal start
  read_internal-chain b total d h t int fits =
      ap
        (λ (fuel : ℕ).
          read_internal_from_stream sector private fuel private.cluster_read_stream (cluster_at 0)
            (b * size_of_cluster_in_bytes private) total)
        {x = total + 1} {y = suc total} (omega arith)
      ∙ ap
          (λ (o : ℕ).
            read_internal_from_stream sector private (suc total) private.cluster_read_stream
              (cluster_at 0) o total)
          (omega arith)
      ∙ read_chain (suc total) private.cluster_read_stream b total d (omega arith) h (omega arith)
          int fits
      ∙ ap (λ (o : ℕ). some (pos 0, file_bytes sector private cluster_at o total)) (omega arith)

  -- For a cluster behind which another cluster's worth of bytes stands below 2 ^ 31, a read of at most one cluster's worth of bytes from
  -- any offset in a cluster of the file answers 0 and writes the bytes that follow on
  -- the disk, also where they pass the end of the cluster.
  read_internal-within :
      (b r total : ℕ)
      → private.cluster_read_stream.disk ≡ 0
      → b ≤ n
      → r < size_of_cluster_in_bytes private
      → total ≤ size_of_cluster_in_bytes private
      → cluster_at b < 2 ^ 31
      → cluster_to_sector private (cluster_at b) * 512
          + size_of_cluster_in_bytes private
          + size_of_cluster_in_bytes private
        < 2 ^ 31
      → b * size_of_cluster_in_bytes private + r + total < 2 ^ 31
      → read_internal sector private (cluster_at 0) (b * size_of_cluster_in_bytes private + r) total
        ≡ some (pos 0, bytes_from sector (cluster_to_sector private (cluster_at b) * 512 + r) total)
  unfolding read_internal start
  read_internal-within b r total d h lt le number fits int =
      ap
        (λ (fuel : ℕ).
          read_internal_from_stream sector private fuel private.cluster_read_stream (cluster_at 0)
            (b * size_of_cluster_in_bytes private + r) total)
        {x = total + 1} {y = suc total} (omega arith)
      ∙ read-last total private.cluster_read_stream (cluster_at 0) (cluster_at b) _ total d
          (get_cluster_for_offset-chain b r h lt) le int number
          (starting_pos-below b r total (number, omega (arith, fits)) lt (omega (arith, fits)))
      ∙ ap (λ (p : ℕ). some (pos 0, bytes_from sector p total))
          (starting_pos-at b r (number, omega (arith, fits)) lt)
