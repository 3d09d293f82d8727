-- ===== src/Fat16/Chain.antt =====
-- The clusters of a file, as the table leads from each to the next, and the bytes that stand in them.
-- `cluster_at i` is the i-th cluster.
use peach_os.Prelude.{
  ℕ, zero, suc, ◌+◌, ◌*◌, ◌/◌, ◌%◌, ◌<◌, ◌≡◌, ap, ap₂, ◌∙◌, arith, false, some, List, [], ◌∷◌, ◌++◌,
  inr,
}
use native.Mathlib.Nat.{mul-add-div_right, div-eq_of_lt, mod-eq_of_lt, mul-add-mod_self_right}
use peach_os.Disk.{sector_size}
use peach_os.Disk.Stream.{byte}
use peach_os.Fat16.{
  FatPrivate, size_of_cluster_in_bytes, get_fat_entry, is_no_cluster, skip_clusters,
  cluster_to_sector,
}

module _ (sector : ℕ → List ℕ) (private : FatPrivate) (cluster_at : ℕ → ℕ) where
  -- The table leads from each of the first `n` clusters to the next.
  abbrev pub IsChain : ℕ → Type 0
  IsChain n =
      (i : ℕ)
      → i < n
      → (get_fat_entry sector private (cluster_at i) ≡ some (cluster_at (suc i)))
        × (is_no_cluster (cluster_at (suc i)) ≡ false)

  pub skip_clusters-chain :
      (n i : ℕ)
      → IsChain (i + n)
      → skip_clusters sector private n (cluster_at i) ≡ some (inr (cluster_at (i + n)))
  unfolding skip_clusters
  skip_clusters-chain zero i h = ap (λ (j : ℕ). some (inr (cluster_at j))) (omega arith)
  skip_clusters-chain (suc n) i h =
      let (entry, good) = h i (omega arith) in
      rw (entry, good)
        (skip_clusters-chain n (suc i) (λ j lt. h j (omega arith))
          ∙ ap (λ (j : ℕ). some (inr (cluster_at j))) (omega arith))

  -- Byte `o` of the file, and the `n` bytes from `o` on: each stands in its own cluster.
  abbrev pub file_byte : ℕ → ℕ
  file_byte o = byte sector (
      cluster_to_sector private (cluster_at (o / size_of_cluster_in_bytes private)) * sector_size
      + o % size_of_cluster_in_bytes private)

  abbrev pub file_bytes : (o n : ℕ) → List ℕ
  file_bytes o zero = []
  file_bytes o (suc n) = file_byte o ∷ file_bytes (suc o) n

  pub file_bytes-append :
      (o m n : ℕ) → file_bytes o (m + n) ≡ file_bytes o m ++ file_bytes (o + m) n
  file_bytes-append o zero n = ap₂ file_bytes {u = 0 + n} (omega arith) (omega arith)
  file_bytes-append o (suc m) n =
      ap (file_bytes o) {x = suc m + n} {y = suc (m + n)} (omega arith)
      ∙ ap (λ t. file_byte o ∷ t) (file_bytes-append (suc o) m n)
      ∙ ap (λ (q : ℕ). file_byte o ∷ file_bytes (suc o) m ++ file_bytes q n) (omega arith)

pub div-at : (b r : ℕ) {size : ℕ} → r < size → (b * size + r) / size ≡ b
div-at b r h =
    mul-add-div_right (omega arith) b r ∙ ap (λ (q : ℕ). b + q) (div-eq_of_lt h) ∙ omega arith

pub mod-at : (b r : ℕ) {size : ℕ} → r < size → (b * size + r) % size ≡ r
mod-at b r {size} h = mul-add-mod_self_right b size r ∙ mod-eq_of_lt h
