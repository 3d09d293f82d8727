-- ===== src/Fat16.antt =====
-- src/fs/fat/fat16.c: names, cluster chains, reading, seeking and the status of files on a FAT16 disk.
-- `sector` is the disk, as in Disk. An `int` and a `uint32_t` are 32-bit patterns, and an `int` is negative
-- from 2 ^ 31 on; `none` is also a fault, or what Disk leaves out. Each stream is sought before it is read, so that the position where a read
-- leaves it is not kept.
pub mod Names
pub mod Chain
pub mod Read
pub mod Seek
pub mod Directory
pub mod Items
pub mod Search
pub mod Volume
mod Tests
use peach_os.Prelude.{
  ℕ, zero, suc, ◌+◌, ◌-◌, ◌*◌, ◌/◌, ◌%◌, ◌^◌, Bool, true, false, not, ◌||◌, Option, none, some,
  List, [], ◌∷◌, ◌++◌, ◌>>=◌, ◌⊎◌, inl, inr, ◌==◌, ltb, leb, if◌then◌else◌, get_or, length,
  replicate, ℤ, pos, negsuc, is_negative, add32, sub32, mul32, shl, u32, bit_and, bit_or,
}
use peach_os.Disk.{DiskStream, diskstreamer_seek, diskstreamer_read, sector_size, int_limit}
use peach_os.File.{FileStat, mode_read}

-- `struct fat_directory_item`, without its times.
pub record DirectoryItem : Type 0 where
  pub filename : List ℕ
  pub ext : List ℕ
  pub attribute : ℕ
  pub high_16_bits_first_cluster : ℕ
  pub low_16_bits_first_cluster : ℕ
  pub file_size : ℕ

pub record FatDirectory : Type 0 where
  pub items : List DirectoryItem
  pub total : ℕ
  pub sector_pos : ℕ
  pub ending_sector_pos : ℕ

-- `struct fat_item`: the union, with its type.
pub data FatItem : Type 0 where
  directory : FatDirectory → FatItem
  file : DirectoryItem → FatItem

pub record FatFileDescriptor : Type 0 where
  pub item : FatItem
  pub pos : ℕ

-- `struct fat_private`, with the fields of the header that are read.
pub record FatPrivate : Type 0 where
  pub sectors_per_cluster : ℕ
  pub reserved_sectors : ℕ
  pub root_directory : FatDirectory
  pub cluster_read_stream : DiskStream
  pub fat_read_stream : DiskStream

-- The loop of `fat16_to_proper_string`, where `last` is `max - 1`: the bytes that it writes. `none` is
-- a read past the field.
unfoldable pub copy_name : List ℕ → (last : ℕ) → Option (List ℕ)
copy_name [] last = none
copy_name (c ∷ s) zero = if (c == 0) || (c == 0x20) then some [] else some (c ∷ [])
copy_name (c ∷ s) (suc last) =
    let rest = copy_name s last in
    if (c == 0) || (c == 0x20) then some [] else (rest >>= λ t. some (c ∷ t))

unfoldable pub to_proper_string : List ℕ → (max : ℕ) → Option (List ℕ)
unfolding copy_name
to_proper_string s max = copy_name s (sub32 max 1)

-- The buffer `out`, of `max_len` bytes.
unfoldable pub get_full_relative_filename : DirectoryItem → (max_len : ℕ) → Option (List ℕ)
unfolding to_proper_string
get_full_relative_filename item max_len = to_proper_string item.filename 8 >>= λ name.
    if not ((get_or item.ext 0 0 == 0) || (get_or item.ext 0 0 == 0x20))
    then (to_proper_string item.ext 3 >>= λ ext.
        let text = name ++ b'.' ∷ ext in some (text ++ replicate (max_len - length text) 0))
    else some (name ++ replicate (max_len - length name) 0)

unfoldable pub get_first_cluster : DirectoryItem → ℕ
get_first_cluster item =
    bit_or (u32 (shl item.high_16_bits_first_cluster 16)) item.low_16_bits_first_cluster

unfoldable pub cluster_to_sector : FatPrivate → (cluster : ℕ) → ℕ
cluster_to_sector private cluster =
    add32 private.root_directory.ending_sector_pos
      (mul32 (sub32 cluster 2) private.sectors_per_cluster)

unfoldable pub get_first_fat_sector : FatPrivate → ℕ
get_first_fat_sector private = private.reserved_sectors

abbrev pub size_of_cluster_in_bytes : FatPrivate → ℕ
size_of_cluster_in_bytes private = private.sectors_per_cluster * sector_size

-- The number that the code seeks to in the file allocation table, as `uint32_t`; `diskstreamer_seek` takes
-- it as an `int`.
unfoldable pub fat_entry_position : FatPrivate → (cluster : ℕ) → ℕ
unfolding get_first_fat_sector
fat_entry_position private cluster =
    let fat_table_position = mul32 (get_first_fat_sector private) sector_size in
    mul32 fat_table_position (mul32 cluster 2)

-- The marks of the end of a file, bad sectors, reserved sectors and a corrupted table.
unfoldable pub is_no_cluster : ℕ → Bool
is_no_cluster entry =
    (entry == 0xFF8)
    || (entry == 0xFFF)
    || (entry == 0xFF7)
    || (entry == 0xFF0)
    || (entry == 0xFF6)
    || (entry == 0x00)

module _ (sector : ℕ → List ℕ) (private : FatPrivate) where
  -- A byte that is not read stays 0.
  unfoldable pub get_fat_entry : (cluster : ℕ) → Option ℕ
  unfolding fat_entry_position diskstreamer_seek diskstreamer_read
  get_fat_entry cluster =
      diskstreamer_read sector
        (diskstreamer_seek private.fat_read_stream (fat_entry_position private cluster)) 2
      >>= λ (result, _). some (get_or result 0 0 + 256 * get_or result 1 0)

  -- `inl n` is the error `-1 - n`.
  unfoldable pub skip_clusters : (clusters_ahead cluster : ℕ) → Option (ℕ ⊎ ℕ)
  unfolding get_fat_entry is_no_cluster
  skip_clusters zero cluster = some (inr cluster)
  skip_clusters (suc n) cluster = get_fat_entry cluster >>= λ entry.
      if is_no_cluster entry then some (inl 0) else skip_clusters n entry

  -- `none` is also a division by 0.
  unfoldable pub get_cluster_for_offset : (starting_cluster offset : ℕ) → Option (ℕ ⊎ ℕ)
  unfolding skip_clusters
  get_cluster_for_offset starting_cluster offset =
      let size = size_of_cluster_in_bytes private in
      if size == 0 then none else skip_clusters (offset / size) starting_cluster

  -- The byte of the disk where a read of a cluster from an offset begins, as the pattern of an `int`.
  unfoldable pub starting_pos : (cluster offset : ℕ) → ℕ
  unfolding cluster_to_sector
  starting_pos cluster offset =
      add32 (mul32 (cluster_to_sector private cluster) sector_size)
        (offset % size_of_cluster_in_bytes private)

  -- The result, and what is written to `out`. The fuel bounds the calls. `none` is that it ran out, or a
  -- negative offset. A negative number of a cluster is the result, and of a negative total nothing is read.
  unfoldable pub read_internal_from_stream :
      (fuel : ℕ) → DiskStream → (cluster offset total : ℕ) → Option (ℤ × List ℕ)
  unfolding get_cluster_for_offset starting_pos diskstreamer_seek diskstreamer_read
  read_internal_from_stream zero stream cluster offset total = none
  read_internal_from_stream (suc fuel) stream cluster offset total =
      if leb int_limit offset
      then none
      else get_cluster_for_offset cluster offset >>= λ found. elim found [
        | inl e ↦ some (negsuc e, [])
        | inr cluster_to_use ↦
            if leb int_limit cluster_to_use
            then some (negsuc (2 ^ 32 - 1 - cluster_to_use), [])
            else if leb int_limit total
            then some (pos 0, [])
            else let size = size_of_cluster_in_bytes private in
              let total_to_read = if ltb size total then size else total in
              diskstreamer_read sector
                (diskstreamer_seek stream (starting_pos cluster_to_use offset)) total_to_read
              >>= λ (out, _).
                  if ltb 0 (total - total_to_read)
                  then (read_internal_from_stream fuel stream cluster (offset + total_to_read)
                        (total - total_to_read)
                      >>= λ (res, rest). some (res, out ++ rest))
                  else some (pos 0, out)
      ]

  -- One call for each cluster's worth of bytes.
  unfoldable pub read_internal : (starting_cluster offset total : ℕ) → Option (ℤ × List ℕ)
  unfolding read_internal_from_stream
  read_internal starting_cluster offset total =
      read_internal_from_stream (total + 1) private.cluster_read_stream starting_cluster offset
        total

  -- The loop of `fat16_read`; `size` and `offset` are passed on as `int`s.
  unfoldable pub read_blocks : (n : ℕ) → DirectoryItem → (offset size : ℕ) → Option (ℤ × List ℕ)
  unfolding read_internal get_first_cluster
  read_blocks zero item offset size = some (pos 0, [])
  read_blocks (suc n) item offset size =
      read_internal (get_first_cluster item) offset size >>= λ (res, out).
      if is_negative res
      then some (res, out)
      else (read_blocks n item (add32 offset size) size >>= λ (res', rest).
          some (res', out ++ rest))

  -- The result is the number of blocks, or an error. On a directory the code takes the directory for a
  -- directory item; `none` here.
  unfoldable pub fat16_read : FatFileDescriptor → (size no_of_mem_blocks : ℕ) → Option (ℤ × List ℕ)
  unfolding read_blocks
  fat16_read descriptor size n = elim descriptor.item [
    | directory d ↦ none
    | file item ↦ read_blocks n item descriptor.pos size >>= λ (res, out).
        some (if is_negative res then res else pos n, out)
  ]

-- The modes of a seek.
abbrev pub seek_set : ℕ
seek_set = 0

abbrev pub seek_cur : ℕ
seek_cur = 1

abbrev pub seek_end : ℕ
seek_end = 2

unfoldable pub fat16_seek : FatFileDescriptor → (offset seek_mode : ℕ) → ℤ × FatFileDescriptor
fat16_seek desc offset seek_mode = elim desc.item [
  | directory d ↦ (negsuc 1, desc)
  | file ritem ↦
      if leb ritem.file_size offset
      then (negsuc 0, desc)
      else if seek_mode == seek_set
      then (pos 0, record desc { pos = offset })
      else if seek_mode == seek_end
      then (negsuc 6, desc)
      else if seek_mode == seek_cur
      then (pos 0, record desc { pos = add32 desc.pos offset })
      else (negsuc 1, desc)
]

-- The result, and `*stat`.
unfoldable pub fat16_stat : FatFileDescriptor → FileStat → ℤ × FileStat
fat16_stat desc stat = elim desc.item [
  | directory d ↦ (negsuc 1, stat)
  | file ritem ↦ (
    pos 0,
    record {
      flags = if not (bit_and ritem.attribute 0x01 == 0) then 1 else 0;
      file_size = ritem.file_size;
    },
  )
]
