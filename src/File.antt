-- ===== src/File.antt =====
-- src/fs/file.c and file.h: the filesystems, and the table of open files over a filesystem's functions.
-- The filesystem's private data stand in the descriptor: no other pointer to them is kept. The one
-- disk is `disk_get` of Disk, and `mounted` is its filesystem. `kzalloc` for a descriptor is taken to
-- succeed, which the code does not test.
pub mod Table
pub mod Close
pub mod Kept
mod Tests
use peach_os.Prelude.{
  ℕ, zero, suc, ◌-◌, Bool, true, false, ◌||◌, Option, none, some, List, [], ◌∷◌, ◌==◌, leb, ◌>>=◌,
  ◌⊎◌, inl, inr, if◌then◌else◌, get_or, set, replicate, ℤ, pos, negsuc, eq_ℤ, is_negative,
}
use peach_os.CString.{strncmp}
use peach_os.PathParser.{PathRoot, parse}
use peach_os.Disk.{disk_get}

-- FILE_MODE
abbrev pub mode_read : ℕ
mode_read = 0

abbrev pub mode_write : ℕ
mode_write = 1

abbrev pub mode_append : ℕ
mode_append = 2

abbrev pub mode_invalid : ℕ
mode_invalid = 3

-- PEACHOS_MAX_FILE_DESCRIPTORS
abbrev pub max_descriptors : ℕ
max_descriptors = 512

pub record FileStat : Type 0 where
  pub flags : ℕ
  pub file_size : ℕ

-- `struct filesystem`, with its private data `P` for an open file, over the disks `D`. An error pointer
-- from `open_file` (`open` in the code) is `inl n` for the number `-1 - n`; the functions that take the private data return
-- them as they leave them.
pub record Filesystem (P D : Type 0) : Type 0 where
  pub resolve : D → ℤ × D
  pub open_file : List (List ℕ) → ℕ → ℕ ⊎ P
  pub read : P → (size no_of_mem_blocks : ℕ) → (ℤ × List ℕ) × P
  pub close : P → ℤ
  pub seek : P → (offset whence : ℕ) → ℤ × P
  pub stat : P → ℤ × FileStat

pub record FileDescriptor (P D : Type 0) : Type 0 where
  pub index : ℕ
  pub filesystem : Filesystem P D
  pub private : P

abbrev pub Files : (P D : Type 0) → Type 0
Files P D = List (Option (FileDescriptor P D))

-- `fs_init`, for the descriptors.
unfoldable pub fs_init : (P D : Type 0) → Files P D
fs_init P D = replicate max_descriptors none

module _ {A : Type 0} where
  -- The index of the first null pointer of an array.
  unfoldable pub free_slot : List (Option A) → Option ℕ
  free_slot [] = none
  free_slot (none ∷ xs) = some 0
  free_slot (some a ∷ xs) = free_slot xs >>= λ i. some (suc i)

module _ {P D : Type 0} where
  -- `none` is the panic: the array is full.
  unfoldable pub fs_insert_filesystem :
      Filesystem P D → List (Option (Filesystem P D)) → Option (List (Option (Filesystem P D)))
  unfolding free_slot
  fs_insert_filesystem fs filesystems =
      free_slot filesystems >>= λ i. some (set filesystems i (some fs))

  unfoldable pub fs_resolve : List (Option (Filesystem P D)) → D → Option (Filesystem P D) × D
  fs_resolve [] disk = (none, disk)
  fs_resolve (none ∷ fss) disk = fs_resolve fss disk
  fs_resolve (some fs ∷ fss) disk =
      let (res, disk') = fs.resolve disk in
      let rest = fs_resolve fss disk' in if eq_ℤ res (pos 0) then (some fs, disk') else rest

  unfoldable pub file_free_descriptor : FileDescriptor P D → Files P D → Files P D
  file_free_descriptor desc files = set files (desc.index - 1) none

  -- With what `fopen` assigns to the new descriptor.
  unfoldable pub file_new_descriptor : Filesystem P D → P → Files P D → ℤ × Files P D
  unfolding free_slot
  file_new_descriptor fs p files = elim (free_slot files) [
    | none ↦ (negsuc 2, files)
    | some i ↦
        (pos (suc i), set files i (some (record { index = suc i; filesystem = fs; private = p })))
  ]

  unfoldable pub file_get_descriptor : ℤ → Files P D → Option (FileDescriptor P D)
  file_get_descriptor (negsuc n) files = none
  file_get_descriptor (pos fd) files =
      if (fd == 0) || leb max_descriptors fd then none else get_or files (fd - 1) none

-- The last mode that matches.
unfoldable pub file_get_mode_by_string : List ℕ → Option ℕ
unfolding strncmp
file_get_mode_by_string str = strncmp str (b'r' ∷ 0 ∷ []) 1 >>= λ r.
    strncmp str (b'w' ∷ 0 ∷ []) 1 >>= λ w. strncmp str (b'a' ∷ 0 ∷ []) 1 >>= λ a. some (
      if eq_ℤ a (pos 0)
      then mode_append
      else if eq_ℤ w (pos 0)
      then mode_write
      else if eq_ℤ r (pos 0)
      then mode_read
      else mode_invalid)

module _ {P D : Type 0} where
  -- The part of `fopen` that has a path with parts and a filesystem.
  unfoldable pub open_with : Filesystem P D → List (List ℕ) → (mode : ℕ) → Files P D → ℤ × Files P D
  unfolding file_new_descriptor
  open_with fs parts mode files =
      if mode == mode_invalid then (negsuc 1, files) else elim (fs.open_file parts mode) [
        | inl n ↦ (negsuc n, files)
        | inr p ↦ file_new_descriptor fs p files
      ]

  -- `res` at `out`.
  unfoldable pub fopen_result :
      Option (Filesystem P D) → (filename mode_str : List ℕ) → Files P D → Option (ℤ × Files P D)
  unfolding parse disk_get file_get_mode_by_string open_with
  fopen_result mounted filename mode_str files = parse filename >>= λ root. elim root [
    | none ↦ some (negsuc 1, files)
    | some r ↦ elim r.parts [
      | [] ↦ some (negsuc 1, files)
      | part ∷ parts ↦ elim (disk_get r.drive_no) [
        | none ↦ some (negsuc 0, files)
        | some d ↦ elim mounted [
          | none ↦ some (negsuc 0, files)
          | some fs ↦ file_get_mode_by_string mode_str >>= λ mode.
              some (open_with fs (part ∷ parts) mode files)
        ]
      ]
    ]
  ]

  -- A failure answers 0.
  unfoldable pub fopen :
      Option (Filesystem P D) → (filename mode_str : List ℕ) → Files P D → Option (ℤ × Files P D)
  unfolding fopen_result
  fopen mounted filename mode_str files =
      fopen_result mounted filename mode_str files >>= λ (res, files').
      some (if is_negative res then pos 0 else res, files')

  -- The result, and what is written to `stat`.
  unfoldable pub fstat : ℤ → Files P D → ℤ × Option FileStat
  unfolding file_get_descriptor
  fstat fd files = elim (file_get_descriptor fd files) [
    | none ↦ (negsuc 0, none)
    | some desc ↦ let (res, stat) = desc.filesystem.stat desc.private in (res, some stat)
  ]

  unfoldable pub fclose : ℤ → Files P D → ℤ × Files P D
  unfolding file_get_descriptor file_free_descriptor
  fclose fd files = elim (file_get_descriptor fd files) [
    | none ↦ (negsuc 1, files)
    | some desc ↦
        let res = desc.filesystem.close desc.private in
        if eq_ℤ res (pos 0) then (res, file_free_descriptor desc files) else (res, files)
  ]

  -- The private data of a descriptor after a call that may change them.
  unfoldable pub store_private : ℤ → P → FileDescriptor P D → Files P D → Files P D
  store_private (negsuc n) p desc files = files
  store_private (pos fd) p desc files = set files (fd - 1) (some (record desc { private = p }))

  unfoldable pub fseek : ℤ → (offset whence : ℕ) → Files P D → ℤ × Files P D
  unfolding file_get_descriptor store_private
  fseek fd offset whence files = elim (file_get_descriptor fd files) [
    | none ↦ (negsuc 0, files)
    | some desc ↦
        let (res, p) = desc.filesystem.seek desc.private offset whence in
        (res, store_private fd p desc files)
  ]

  -- The result, the bytes that are written to `out`, and the descriptors.
  unfoldable pub fread : (size no_of_mem_blocks : ℕ) → ℤ → Files P D → (ℤ × List ℕ) × Files P D
  unfolding file_get_descriptor store_private
  fread size n fd files =
      if (size == 0) || (n == 0) || is_negative fd || eq_ℤ fd (pos 0)
      then ((negsuc 1, []), files)
      else elim (file_get_descriptor fd files) [
        | none ↦ ((negsuc 1, []), files)
        | some desc ↦
            let (answer, p) = desc.filesystem.read desc.private size n in
            (answer, store_private fd p desc files)
      ]
