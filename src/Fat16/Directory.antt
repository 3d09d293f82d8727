-- ===== src/Fat16/Directory.antt =====
-- Directories: counting their items, loading and searching them, opening a file by its path, and
-- recognising the disk. Memory is taken to suffice. A part of a path is a text with its null byte. `none` is a fault, or fuel that ran out.
use peach_os.Prelude.{
  ℕ, zero, suc, ◌+◌, ◌*◌, ◌/◌, ◌^◌, not, Option, none, some, ◌>>=◌, List, [], ◌∷◌, ◌==◌, ◌⊎◌, inl,
  inr, if◌then◌else◌, get_or, get_elem?, take, drop, ℤ, pos, negsuc, eq_ℤ, bit_and, mul32,
}
use peach_os.CString.{strncmp_insensitive}
use peach_os.PathParser.{max_path}
use peach_os.Disk.{DiskStream, diskstreamer_seek, diskstreamer_read, sector_size}
use peach_os.File.{mode_read}
use peach_os.Fat16.{
  DirectoryItem, FatDirectory, FatItem, directory, file, FatFileDescriptor, FatPrivate,
  get_full_relative_filename, get_first_cluster, cluster_to_sector, read_internal,
}

abbrev pub item_size : ℕ
item_size = 32

-- The bytes of `struct fat_directory_item`.
abbrev pub item_of : List ℕ → DirectoryItem
item_of bs = record {
  filename = take 8 bs;
  ext = take 3 (drop 8 bs);
  attribute = get_or bs 11 0;
  high_16_bits_first_cluster = get_or bs 20 0 + 256 * get_or bs 21 0;
  low_16_bits_first_cluster = get_or bs 26 0 + 256 * get_or bs 27 0;
  file_size =
      get_or bs 28 0 + 256 * get_or bs 29 0 + 65536 * get_or bs 30 0 + 16777216 * get_or bs 31 0;
}

-- An array of `n` items.
abbrev pub items_of : (n : ℕ) → List ℕ → List DirectoryItem
items_of zero bs = []
items_of (suc n) bs = item_of (take item_size bs) ∷ items_of n (drop item_size bs)

-- The fields of `struct fat_header` and of the extended header that are read.
pub record FatHeader : Type 0 where
  pub sectors_per_cluster : ℕ
  pub reserved_sectors : ℕ
  pub fat_copies : ℕ
  pub root_directory_entries : ℕ
  pub sectors_per_fat : ℕ
  pub signature : ℕ

abbrev pub header_size : ℕ
header_size = 62

abbrev pub header_of : List ℕ → FatHeader
header_of bs = record {
  sectors_per_cluster = get_or bs 13 0;
  reserved_sectors = get_or bs 14 0 + 256 * get_or bs 15 0;
  fat_copies = get_or bs 16 0;
  root_directory_entries = get_or bs 17 0 + 256 * get_or bs 18 0;
  sectors_per_fat = get_or bs 22 0 + 256 * get_or bs 23 0;
  signature = get_or bs 38 0;
}

-- FAT_FILE_SUBDIRECTORY
abbrev pub subdirectory : ℕ
subdirectory = 0x10

-- There are no more items at positions below 2 ^ 31, where the stream stops.
abbrev pub max_items : ℕ
max_items = 2 ^ 26

module _ (sector : ℕ → List ℕ) where
  -- The loop of `fat16_get_total_items_for_directory`, with `i` items counted so far.
  unfoldable pub count_items : (fuel : ℕ) → DiskStream → (i : ℕ) → Option ℕ
  unfolding diskstreamer_read
  count_items zero stream i = none
  count_items (suc fuel) stream i = diskstreamer_read sector stream item_size >>= λ (item, stream').
      let first = get_or item 0 0 in
      if first == 0x00
      then some i
      else if first == 0xE5
      then count_items fuel stream' i
      else count_items fuel stream' (i + 1)

  unfoldable pub get_total_items_for_directory :
      DiskStream → (directory_start_sector : ℕ) → Option ℕ
  unfolding count_items diskstreamer_seek
  get_total_items_for_directory stream directory_start_sector =
      count_items max_items (diskstreamer_seek stream (mul32 directory_start_sector sector_size)) 0

  -- The product of `int`s wraps around, as the code is compiled without optimisation.
  abbrev pub sector_to_absolute : (lba : ℕ) → ℕ
  sector_to_absolute lba = mul32 lba sector_size

  unfoldable pub get_root_directory : FatHeader → DiskStream → Option FatDirectory
  unfolding get_total_items_for_directory diskstreamer_read
  get_root_directory header stream =
      let root_dir_sector_pos =
        header.fat_copies * header.sectors_per_fat + header.reserved_sectors in
      let root_dir_size = header.root_directory_entries * item_size in
      get_total_items_for_directory stream root_dir_sector_pos >>= λ total_items.
      diskstreamer_read sector (diskstreamer_seek stream (sector_to_absolute root_dir_sector_pos))
        root_dir_size
      >>= λ (dir, _). some (record {
        items = items_of header.root_directory_entries dir;
        total = total_items;
        sector_pos = root_dir_sector_pos;
        ending_sector_pos = root_dir_sector_pos + root_dir_size / sector_size;
      })

  -- The result, and the private data that the disk keeps. `-EFSNOTUS` is -5.
  unfoldable pub fat16_resolve : DiskStream → Option (ℤ × Option FatPrivate)
  fat16_resolve stream = diskstreamer_read sector stream header_size >>= λ (bs, _).
      let header = header_of bs in
      if not (header.signature == 0x29)
      then some (negsuc 4, none)
      else get_root_directory header stream >>= λ root_directory. some (
        pos 0,
        some (record {
          sectors_per_cluster = header.sectors_per_cluster;
          reserved_sectors = header.reserved_sectors;
          root_directory = root_directory;
          cluster_read_stream = stream;
          fat_read_stream = stream;
        }),
      )

module _ (sector : ℕ → List ℕ) (private : FatPrivate) where
  -- The inner `none` is the null pointer, for what is no subdirectory. A read that fails is a fault:
  -- the code answers the directory that it has freed.
  unfoldable pub load_fat_directory : DirectoryItem → Option (Option FatDirectory)
  unfolding get_total_items_for_directory read_internal get_first_cluster cluster_to_sector
  load_fat_directory item =
      if bit_and item.attribute subdirectory == 0
      then some none
      else let cluster = get_first_cluster item in
        get_total_items_for_directory sector private.cluster_read_stream
          (cluster_to_sector private cluster)
        >>= λ total_items.
            read_internal sector private cluster 0x00 (total_items * item_size) >>= λ (res, out).
            if eq_ℤ res (pos 0)
            then some (
                some (record {
                  items = items_of total_items out;
                  total = total_items;
                  sector_pos = 0;
                  ending_sector_pos = 0;
                }))
            else none

  unfoldable pub new_fat_item_for_directory_item : DirectoryItem → Option FatItem
  unfolding load_fat_directory
  new_fat_item_for_directory_item item =
      if not (bit_and item.attribute subdirectory == 0)
      then (load_fat_directory item >>= λ loaded. loaded >>= λ d. some (directory d))
      else some (file item)

  -- The loop of `fat16_find_item_in_directory` from item `i` on, with what is found so far.
  unfoldable pub find_from :
      (rounds i : ℕ)
      → List DirectoryItem
      → (name : List ℕ) → Option FatItem
      → Option (Option FatItem)
  find_from zero i items name f_item = some f_item
  find_from (suc k) i items name f_item = get_elem? items i >>= λ item.
      get_full_relative_filename item max_path >>= λ tmp_filename.
      strncmp_insensitive tmp_filename name max_path >>= λ r.
      if eq_ℤ r (pos 0)
      then (new_fat_item_for_directory_item item >>= λ found.
          find_from k (i + 1) items name (some found))
      else find_from k (i + 1) items name f_item

  unfoldable pub find_item_in_directory : FatDirectory → (name : List ℕ) → Option (Option FatItem)
  unfolding find_from
  find_item_in_directory d name = find_from d.total 0 d.items name none

  -- The loop of `fat16_get_directory_entry`. Behind a part that is not found, the code reads through
  -- the null pointer if the path goes on.
  unfoldable pub entry_from : (next_part : List (List ℕ)) → Option FatItem → Option (Option FatItem)
  unfolding find_item_in_directory
  entry_from [] current_item = some current_item
  entry_from (part ∷ next_part) none = none
  entry_from (part ∷ next_part) (some (file item)) = some none
  entry_from (part ∷ next_part) (some (directory d)) =
      find_item_in_directory d part >>= λ tmp_item. entry_from next_part tmp_item

  unfoldable pub get_directory_entry :
      (part : List ℕ) → (next_part : List (List ℕ)) → Option (Option FatItem)
  unfolding entry_from
  get_directory_entry part next_part =
      find_item_in_directory private.root_directory part >>= λ root_item. elim root_item [
        | none ↦ some none
        | some item ↦ entry_from next_part (some item)
      ]

  -- `inl n` is the error pointer for `-1 - n`: `-ERDONLY` or `-EIO`.
  unfoldable pub fat16_open :
      (part : List ℕ) → (next_part : List (List ℕ)) → (mode : ℕ) → Option (ℕ ⊎ FatFileDescriptor)
  unfolding get_directory_entry
  fat16_open part next_part mode =
      if not (mode == mode_read)
      then some (inl 5)
      else get_directory_entry part next_part >>= λ entry.
          some (elim entry [ none ↦ inl 0 | some item ↦ inr (record { item = item; pos = 0 }) ])
