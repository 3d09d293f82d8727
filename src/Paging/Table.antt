-- ===== src/Paging/Table.antt =====
-- Reading and writing page table entries through a directory whose tables do not overlap.
use peach_os.Prelude.{
  ℕ, ◌+◌, ◌*◌, ◌%◌, ◌^◌, ◌<◌, ◌≡◌, ◌≢◌, ap, ap₂, ◌∙◌, sym, some, arith, ◌==◌, eq→==, ne→==,
  if◌then◌else◌, ℕ_discrete, bit_and-frame, ℤ, pos,
}
use peach_os.Paging.{Memory, store, word_at, table_of, slot, get_indexes, set, get}
use peach_os.Paging.Align.{get_indexes_lem}

-- A directory of 1024 words whose tables are different pages, none of them the directory's.
pub record IsDirectory (mem : Memory) (dir : ℕ) : Type 0 where
  pub aligned : dir % 4096 ≡ 0
  pub in_memory : dir < 2 ^ 32
  pub words : (i : ℕ) → i < 1024 → mem (word_at dir i) < 2 ^ 32
  pub off_directory : (i : ℕ) → i < 1024 → table_of (mem (word_at dir i)) ≢ dir
  pub apart :
      (i k : ℕ)
      → i < 1024
      → k < 1024
      → table_of (mem (word_at dir i)) ≡ table_of (mem (word_at dir k))
      → i ≡ k

-- Words of aligned pages are one only in one page, at one index.
pub word_at-injective :
    (a b i j : ℕ)
    → a % 4096 ≡ 0
    → a < 2 ^ 32
    → b % 4096 ≡ 0
    → b < 2 ^ 32
    → i < 1024
    → j < 1024
    → word_at a i ≡ word_at b j
    → (a ≡ b) × (i ≡ j)
word_at-injective a b i j pa sa pb sb hi hj e = omega arith

pub store_self : (mem : Memory) (a v : ℕ) → store mem a v a ≡ v
unfolding store
store_self mem a v = ground arith

pub store-ne : (mem : Memory) (a v b : ℕ) → a ≢ b → store mem a v b ≡ mem b
unfolding store
store-ne mem a v b h = rw (ne→== a b h)

module _ {mem : Memory} {dir : ℕ} (d : IsDirectory mem dir) where
  -- The page of table `i`.
  table-frame :
      (i : ℕ)
      → i < 1024
      → (table_of (mem (word_at dir i)) % 4096 ≡ 0) × (table_of (mem (word_at dir i)) < 2 ^ 32)
  table-frame i h = omega (arith, bit_and-frame (mem (word_at dir i)) (d.words i h), d.words i h)

  slot-ne-directory :
      (i j k : ℕ) → i < 1024 → j < 1024 → k < 1024 → slot mem dir i j ≢ word_at dir k
  slot-ne-directory i j k hi hj hk e =
      d.off_directory i hi
        (word_at-injective _ dir j k (table-frame i hi).0 (table-frame i hi).1 d.aligned d.in_memory
          hj hk e).0

  slot-injective :
      (i j k l : ℕ)
      → i < 1024
      → j < 1024
      → k < 1024
      → l < 1024
      → slot mem dir i j ≡ slot mem dir k l
      → (i ≡ k) × (j ≡ l)
  slot-injective i j k l hi hj hk hl e =
      let (p, q) =
        word_at-injective _ _ j l (table-frame i hi).0 (table-frame i hi).1 (table-frame k hk).0
          (table-frame k hk).1 hj hl e in
      (d.apart i k hi hk p, q)

  -- A write to a page table leaves the directory alone.
  directory-store :
      (i j k v : ℕ)
      → i < 1024
      → j < 1024
      → k < 1024
      → store mem (slot mem dir i j) v (word_at dir k) ≡ mem (word_at dir k)
  directory-store i j k v hi hj hk =
      store-ne mem (slot mem dir i j) v (word_at dir k) (slot-ne-directory i j k hi hj hk)

  store-IsDirectory :
      (i j v : ℕ) → i < 1024 → j < 1024 → IsDirectory (store mem (slot mem dir i j) v) dir
  store-IsDirectory i j v hi hj = record {
    aligned = d.aligned;
    in_memory = d.in_memory;
    words = λ k hk. rw (directory-store i j k v hi hj hk) (d.words k hk);
    off_directory = λ k hk. rw (directory-store i j k v hi hj hk) (d.off_directory k hk);
    apart = λ k l hk hl.
        rw (directory-store i j k v hi hj hk, directory-store i j l v hi hj hl) (d.apart k l hk hl);
  }

  slot-store :
      (i j k l v : ℕ)
      → i < 1024
      → j < 1024
      → k < 1024
      → slot (store mem (slot mem dir i j) v) dir k l ≡ slot mem dir k l
  slot-store i j k l v hi hj hk =
      ap (λ (e : ℕ). word_at (table_of e) l) (directory-store i j k v hi hj hk)

set-slot :
    (mem : Memory) (dir va v i j : ℕ)
    → get_indexes va ≡ some (i, j)
    → set mem dir va v ≡ (pos 0, store mem (slot mem dir i j) v)
unfolding set
set-slot mem dir va v i j e = rw (e, set)

pub get-slot :
    (mem : Memory) (dir va i j : ℕ)
    → get_indexes va ≡ some (i, j)
    → get mem dir va ≡ mem (slot mem dir i j)
unfolding get
get-slot mem dir va i j e = rw (e, get)

-- The word of one page's entry after another page's entry is written.
store-slot :
    {mem : Memory} {dir : ℕ}
    → IsDirectory mem dir
    → (va wa v i j k l : ℕ) → i < 1024
    → j < 1024
    → k < 1024
    → l < 1024
    → va ≡ i * 4194304 + j * 4096
    → wa ≡ k * 4194304 + l * 4096
    → store mem (slot mem dir i j) v (slot mem dir k l)
      ≡ (if va == wa then v else mem (slot mem dir k l))
store-slot {mem} {dir} d va wa v i j k l hi hj hk hl p q = elim (ℕ_discrete va wa) [
  | yes e ↦ rw (eq→== va wa e) (
      ap₂ (λ (x y : ℕ). store mem (slot mem dir i j) v (slot mem dir x y))
        (let e₁ : k ≡ i = omega arith in e₁) (let e₂ : l ≡ j = omega arith in e₂)
      ∙ store_self mem (slot mem dir i j) v)
  | no ne ↦ rw (ne→== va wa ne) (
      store-ne mem (slot mem dir i j) v (slot mem dir k l)
        λ e. let (x, y) = slot-injective d i j k l hi hj hk hl e in ne (omega arith))
]

pub set-reads :
    {mem : Memory} {dir : ℕ} (va v : ℕ)
    → IsDirectory mem dir
    → va % 4096 ≡ 0
    → va < 2 ^ 32
    → ((set mem dir va v).0 ≡ pos 0)
      × IsDirectory (set mem dir va v).1 dir
      × ((wa : ℕ)
          → wa % 4096 ≡ 0
          → wa < 2 ^ 32
          → get (set mem dir va v).1 dir wa ≡ (if va == wa then v else get mem dir wa))
set-reads {mem} {dir} va v d pa sa =
    let (i, j, found, hi, hj, split) = get_indexes_lem va pa sa in
    let written = set-slot mem dir va v i j found in
    (
      ap (λ (r : ℤ × Memory). r.0) written,
      rw written (store-IsDirectory d i j v hi hj),
      λ wa pb sb.
          let (k, l, found', hk, hl, split') = get_indexes_lem wa pb sb in
          ap (λ (r : ℤ × Memory). get r.1 dir wa) written
          ∙ get-slot _ dir wa k l found'
          ∙ ap (store mem (slot mem dir i j) v) (slot-store d i j k l v hi hj hk)
          ∙ store-slot d va wa v i j k l hi hj hk hl split split'
          ∙ ap (λ (old : ℕ). if va == wa then v else old) (sym (get-slot mem dir wa k l found')),
    )

-- In a well-formed directory, writing the entry of an aligned address below 2 ^ 32 succeeds, keeps the
-- directory well formed, and changes what is read at that address and at no other aligned address
-- `wa` below 2 ^ 32.
pub get-set :
    {mem : Memory} {dir : ℕ} (va v wa : ℕ)
    → IsDirectory mem dir
    → va % 4096 ≡ 0
    → va < 2 ^ 32
    → wa % 4096 ≡ 0
    → wa < 2 ^ 32
    → ((set mem dir va v).0 ≡ pos 0)
      × IsDirectory (set mem dir va v).1 dir
      × (get (set mem dir va v).1 dir wa ≡ (if va == wa then v else get mem dir wa))
get-set va v wa d pa sa pb sb =
    let (ok, keeps, reads) = set-reads va v d pa sa in (ok, keeps, reads wa pb sb)
