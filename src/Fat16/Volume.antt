-- ===== src/Fat16/Volume.antt =====
-- src/fs/fat/fat16.c as a filesystem of src/fs/file.c: `fat16_fs` for a mounted disk.
use peach_os.Prelude.{
  ℕ, suc, ◌+◌, ◌*◌, ◌-◌, ◌<◌, ◌≤◌, ◌^◌, ◌≡◌, ◌⊎◌, inr, refl, sym, ap, ap₂, ◌∙◌, arith, false,
  Option, none, some, List, [], ◌∷◌, ◌==◌, ◌||◌, length, map, set, set-set, ℤ, pos, is_negative,
  eq_ℤ,
}
use mathlib.Core.List.{append-nil}
use peach_os.CString.{ended}
use peach_os.PathParser.{parse}
use peach_os.Disk.{disk_get}
use peach_os.File.{
  Filesystem, FileDescriptor, FileStat, Files, mode_read, free_slot, file_get_descriptor, open_with,
  fopen_result, fopen, fread, fclose, store_private,
}
use peach_os.File.Table.{new_descriptor-some, file_new_descriptor-get}
use peach_os.File.Close.{fclose-file_new_descriptor}
use peach_os.Fat16.{
  DirectoryItem, file, FatFileDescriptor, FatPrivate, size_of_cluster_in_bytes, cluster_to_sector,
  get_first_cluster, read_internal, read_blocks, fat16_read, fat16_seek, fat16_stat,
}
use peach_os.Fat16.Chain.{IsChain, file_bytes}
use peach_os.Fat16.Read.{read_internal-chain}
use peach_os.Fat16.Directory.{get_directory_entry, fat16_open, fat16_resolve}

abbrev or_fault : {A : Type 0} → A → Option A → A
or_fault d none = d
or_fault d (some a) = a

-- What the functions answer where the code has undefined behaviour.
pub record Faults : Type 0 where
  pub resolving : ℤ × Option FatPrivate
  pub opening : ℕ ⊎ FatFileDescriptor
  pub reading : ℤ × List ℕ
  pub seen : FileStat

-- A part of a path as a `char*`: the path parser's text with its null byte.
abbrev terminated : List ℕ → List ℕ
terminated part = ended part []

-- `fopen` opens no path without parts.
module _ (sector : ℕ → List ℕ) (private : FatPrivate) (faults : Faults) where
  abbrev open_parts : List (List ℕ) → (mode : ℕ) → ℕ ⊎ FatFileDescriptor
  open_parts [] mode = faults.opening
  open_parts (part ∷ next_part) mode =
      or_fault faults.opening
        (fat16_open sector private (terminated part) (map terminated next_part) mode)

  unfoldable pub fat16_fs : Filesystem FatFileDescriptor (Option FatPrivate)
  unfolding fat16_open fat16_read fat16_seek fat16_stat fat16_resolve
  fat16_fs = record {
    resolve = λ d. or_fault faults.resolving (fat16_resolve sector (record { pos = 0; disk = 0 }));
    open_file = open_parts;
    read = λ p size n. (or_fault faults.reading (fat16_read sector private p size n), p);
    close = λ p. pos 0;
    seek = fat16_seek;
    stat = λ p. fat16_stat p faults.seen;
  }

fread-found :
    {P D : Type 0} (size n : ℕ) (fd : ℤ) (files : Files P D) (desc : FileDescriptor P D)
    → ((size == 0) || (n == 0) || is_negative fd || eq_ℤ fd (pos 0)) ≡ false
    → file_get_descriptor fd files ≡ some desc
    → fread size n fd files ≡ (
      (desc.filesystem.read desc.private size n).0,
      store_private fd (desc.filesystem.read desc.private size n).1 desc files,
    )
unfolding fread
fread-found size n fd files desc ok found = rw (fread, ok, found) refl

module _ (sector : ℕ → List ℕ) (private : FatPrivate) (faults : Faults) where
  abbrev opened : DirectoryItem → FatFileDescriptor
  opened item = record { item = file item; pos = 0 }

  -- The table when a file stands open in slot `i`.
  abbrev descriptor : ℕ → DirectoryItem → FileDescriptor FatFileDescriptor (Option FatPrivate)
  descriptor i item = record {
    index = suc i;
    filesystem = fat16_fs sector private faults;
    private = opened item;
  }

  abbrev with_file :
      ℕ
      → DirectoryItem
      → Files FatFileDescriptor (Option FatPrivate)
      → Files FatFileDescriptor (Option FatPrivate)
  with_file i item files = set files i (some (descriptor i item))

  open_file-file :
      (part : List ℕ) (next_part : List (List ℕ)) (item : DirectoryItem)
      → get_directory_entry sector private (terminated part) (map terminated next_part)
        ≡ some (some (file item))
      → (fat16_fs sector private faults).open_file (part ∷ next_part) mode_read ≡ inr (opened item)
  unfolding fat16_fs fat16_open
  open_file-file part next_part item e = rw (fat16_open, e) refl

  fopen-file :
      (filename part : List ℕ) (next_part : List (List ℕ)) (item : DirectoryItem) (i : ℕ)
      (files : Files FatFileDescriptor (Option FatPrivate))
      → parse filename ≡ some (some (record { drive_no = pos 0; parts = part ∷ next_part }))
      → get_directory_entry sector private (terminated part) (map terminated next_part)
        ≡ some (some (file item))
      → free_slot files ≡ some i
      → fopen (some (fat16_fs sector private faults)) filename (b'r' ∷ 0 ∷ []) files
        ≡ some (pos (suc i), with_file i item files)
  unfolding fopen fopen_result open_with disk_get
  fopen-file filename part next_part item i files p e f =
      rw
        (
          p,
          open_file-file part next_part item e,
          new_descriptor-some (fat16_fs sector private faults) (opened item) files i f,
        )
        refl

  fread-file :
      (item : DirectoryItem) (i size : ℕ) (out : List ℕ)
      (files : Files FatFileDescriptor (Option FatPrivate))
      → 0 < size
      → free_slot files ≡ some i
      → i < 511
      → read_internal sector private (get_first_cluster item) 0 size ≡ some (pos 0, out)
      → fread size 1 (pos (suc i)) (with_file i item files) ≡ ((pos 1, out), with_file i item files)
  unfolding fread fat16_fs fat16_read read_blocks store_private
  fread-file item i size out files positive f l e =
      let found =
        file_new_descriptor-get (fat16_fs sector private faults) (opened item) files i f l in
      let there : file_get_descriptor (pos (suc i)) (with_file i item files)
          ≡ some (descriptor i item) =
        ap
          (λ (r : ℤ × Files FatFileDescriptor (Option FatPrivate)).
            file_get_descriptor (pos (suc i)) r.1)
          (sym (new_descriptor-some (fat16_fs sector private faults) (opened item) files i f))
        ∙ found.1 in
      let ok : ((size == 0)
            || (◌==◌ 1 0)
            || is_negative (pos (suc i))
            || eq_ℤ (pos (suc i)) (pos 0))
          ≡ false =
        ground arith in
      fread-found size 1 (pos (suc i)) (with_file i item files) _ ok there
      ∙ rw e (
          ap₂ (λ (o : List ℕ) (t : Files FatFileDescriptor (Option FatPrivate)). ((pos 1, o), t))
            (append-nil out)
            (ap (λ (k : ℕ). set (with_file i item files) k (some (descriptor i item)))
                (let q : suc i - 1 ≡ i = omega arith in q)
              ∙ set-set files i _ _))

  fclose-file :
      (item : DirectoryItem) (i : ℕ) (files : Files FatFileDescriptor (Option FatPrivate))
      → free_slot files ≡ some i
      → i < 511
      → fclose (pos (suc i)) (with_file i item files) ≡ (pos 0, files)
  unfolding fat16_fs
  fclose-file item i files f l =
      ap (λ (r : ℤ × Files FatFileDescriptor (Option FatPrivate)). fclose r.0 r.1)
        (sym (new_descriptor-some (fat16_fs sector private faults) (opened item) files i f))
      ∙ fclose-file_new_descriptor (fat16_fs sector private faults) (opened item) files i f l refl

-- Let every sector of a disk with a FAT16 filesystem have 512 bytes and a cluster at least one sector,
-- let the stream for its clusters be of disk 0, let a path's text be that of drive 0 and of parts that lead to a file's
-- item, let the entries that the code reads lead from the file's first cluster over `n` further ones, whose
-- numbers are below 2 ^ 31 and whose bytes stand below 2 ^ 31, and let one of the first 511 slots be the
-- first free one. Then `fopen` with the mode "r" answers that slot's number, `fread` of one block of as
-- many bytes as the clusters hold, or fewer, above 0 and below 2 ^ 31, answers 1 and writes the bytes of
-- the file, each from its own cluster, and `fclose` answers 0 and leaves the table as it was before.
pub fopen-fread-fclose :
    (sector : ℕ → List ℕ) (private : FatPrivate) (faults : Faults) (cluster_at : ℕ → ℕ)
    (n i size : ℕ) (filename part : List ℕ) (next_part : List (List ℕ)) (item : DirectoryItem)
    (files : Files FatFileDescriptor (Option FatPrivate))
    → ((lba : ℕ) → length (sector lba) ≡ 512)
    → 0 < size_of_cluster_in_bytes private
    → private.cluster_read_stream.disk ≡ 0
    → parse filename ≡ some (some (record { drive_no = pos 0; parts = part ∷ next_part }))
    → get_directory_entry sector private (terminated part) (map terminated next_part)
      ≡ some (some (file item))
    → get_first_cluster item ≡ cluster_at 0
    → IsChain sector private cluster_at n
    → ((b : ℕ)
        → b ≤ n
        → (cluster_at b < 2 ^ 31)
          × (cluster_to_sector private (cluster_at b) * 512 + size_of_cluster_in_bytes private
              < 2 ^ 31))
    → free_slot files ≡ some i
    → i < 511
    → 0 < size
    → size < 2 ^ 31
    → size ≤ suc n * size_of_cluster_in_bytes private
    → (files' : Files FatFileDescriptor (Option FatPrivate)) × (fopen
          (some (fat16_fs sector private faults))
          filename
          (b'r' ∷ 0 ∷ [])
          files
        ≡ some (pos (suc i), files'))
      × (fread size 1 (pos (suc i)) files'
          ≡ ((pos 1, file_bytes sector private cluster_at 0 size), files'))
      × (fclose (pos (suc i)) files' ≡ (pos 0, files))
fopen-fread-fclose sector private faults cluster_at n i size filename part next_part item files full
      cluster disk path entry start chain fits f l positive int le =
    let bytes = file_bytes sector private cluster_at in
    let whole =
      read_internal-chain sector full private cluster_at n chain cluster 0 size disk (omega arith)
        (omega arith) (omega (arith, int)) fits in
    let zeroth : 0 * size_of_cluster_in_bytes private ≡ 0 = omega arith in
    let read : read_internal sector private (get_first_cluster item) 0 size
        ≡ some (pos 0, bytes 0 size) =
      ap (λ (c : ℕ). read_internal sector private c 0 size) start
      ∙ ap (λ (o : ℕ). read_internal sector private (cluster_at 0) o size) (sym zeroth)
      ∙ whole
      ∙ ap (λ (o : ℕ). some (pos 0, bytes o size)) zeroth in
    (
      with_file sector private faults i item files,
      fopen-file sector private faults filename part next_part item i files path entry f,
      fread-file sector private faults item i size (bytes 0 size) files positive f l read,
      fclose-file sector private faults item i files f l,
    )
