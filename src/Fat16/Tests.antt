-- ===== src/Fat16/Tests.antt =====
-- Runs of Fat16, and its theorems at concrete inputs.
use peach_os.Prelude.{
  ℕ, zero, suc, ◌*◌, ◌+◌, ◌<◌, ◌≤◌, ◌^◌, ◌≡◌, ◌≢◌, refl, some, List, [], ◌∷◌, arith, replicate,
  none, set, length, true, false, ◌==◌, if◌then◌else◌, length-replicate, pos, negsuc, Option, inl,
}
use peach_os.CString.{ended, strlen, strnlen, is_digit, to_numeric_digit, strncmp_insensitive}
use peach_os.Memory.{memcmp}
use peach_os.PathParser.{parse}
use peach_os.File.{Files, free_slot, fopen, fread, fclose}
use peach_os.Fat16.Volume.{Faults, fat16_fs, fopen-fread-fclose}
use peach_os.Disk.{diskstreamer_seek, diskstreamer_read}
use peach_os.Disk.Stream.{byte, bytes_from}
use peach_os.Fat16.Directory.{
  get_total_items_for_directory, fat16_resolve, header_of, find_item_in_directory,
  get_directory_entry, new_fat_item_for_directory_item,
}
use peach_os.Fat16.Items.{root_of, get_total_items_for_directory-live, fat16_resolve-root}
use peach_os.Fat16.Search.{last_named, find_item_in_directory-last_named}
use peach_os.Fat16.{
  get_full_relative_filename, DirectoryItem, FatDirectory, FatFileDescriptor, file, FatPrivate,
  get_fat_entry, read_internal, fat_entry_position, size_of_cluster_in_bytes, is_no_cluster,
  get_first_cluster, cluster_to_sector,
}
use peach_os.Fat16.Names.{IsName, pad}
use peach_os.Fat16.Chain.{IsChain, file_bytes}
use peach_os.Fat16.Read.{read_internal-chain}

-- "HELLO.TXT", of 100 bytes.
abbrev hello : DirectoryItem
hello = record {
  filename = pad 8 (b'H' ∷ b'E' ∷ b'L' ∷ b'L' ∷ b'O' ∷ []);
  ext = pad 3 (b'T' ∷ b'X' ∷ b'T' ∷ []);
  attribute = 0;
  high_16_bits_first_cluster = 1;
  low_16_bits_first_cluster = 2;
  file_size = 100;
}

-- A disk whose sectors are filled with their numbers, with clusters of one sector.
abbrev numbered : ℕ → List ℕ
numbered lba = replicate 512 lba

abbrev root : FatDirectory
root = record { items = hello ∷ []; total = 1; sector_pos = 3; ending_sector_pos = 4 }

abbrev private : FatPrivate
private = record {
  sectors_per_cluster = 1;
  reserved_sectors = 1;
  root_directory = root;
  cluster_read_stream = record { pos = 0; disk = 0 };
  fat_read_stream = record { pos = 0; disk = 0 };
}

-- Two clusters of a file: the entry for cluster 2 is read in sector 4.
abbrev two_clusters : ℕ → ℕ
two_clusters zero = 2
two_clusters (suc i) = 1028

get_first_cluster-run : get_first_cluster hello ≡ 65538
unfolding get_first_cluster
get_first_cluster-run = refl

hello-IsName : IsName (b'H' ∷ b'E' ∷ b'L' ∷ b'L' ∷ b'O' ∷ [])
hello-IsName = (
  ground arith,
  ground arith,
  (
    ground arith,
    ground arith,
    (ground arith, ground arith, (ground arith, ground arith, (ground arith, ground arith, tt))),
  ),
)

txt-IsName : IsName (b'T' ∷ b'X' ∷ b'T' ∷ [])
txt-IsName =
    (ground arith, ground arith, (ground arith, ground arith, (ground arith, ground arith, tt)))

get_fat_entry-two : get_fat_entry numbered private 2 ≡ some 1028
unfolding get_fat_entry fat_entry_position diskstreamer_seek diskstreamer_read
get_fat_entry-two = refl

two_clusters-IsChain : IsChain numbered private two_clusters 1
unfolding is_no_cluster
two_clusters-IsChain zero h = (get_fat_entry-two, refl)
two_clusters-IsChain (suc i) h = absurd (omega arith)

two_clusters-fit :
    (i : ℕ)
    → i ≤ 1
    → (two_clusters i < 2 ^ 31)
      × (cluster_to_sector private (two_clusters i) * 512 + size_of_cluster_in_bytes private
          < 2 ^ 31)
unfolding cluster_to_sector
two_clusters-fit zero h = (omega arith, omega arith)
two_clusters-fit (suc i) h = (omega arith, omega arith)

read_internal-chain_example :
    read_internal numbered private 2 0 600
    ≡ some (pos 0, file_bytes numbered private two_clusters 0 600)
read_internal-chain_example =
    read_internal-chain numbered (λ lba. length-replicate {A = ℕ} 512 lba) private two_clusters 1
      two_clusters-IsChain (omega arith) 0 600 refl (omega arith) (omega arith) (omega arith)
      two_clusters-fit

-- A disk with three items in sector 1, the second of them deleted, and with a header in sector 0: one reserved
-- sector, no file allocation table, 16 items in the root directory.
abbrev header_sector : List ℕ
header_sector = set (set (set (set (replicate 512 0) 13 1) 14 1) 17 16) 38 0x29

abbrev item_sector : List ℕ
item_sector = set (set (set (replicate 512 0) 0 b'A') 32 0xE5) 64 b'B'

abbrev with_items : ℕ → List ℕ
with_items lba = if lba == 0 then header_sector else item_sector

with_items-length : (lba : ℕ) → length (with_items lba) ≡ 512
with_items-length lba =
    elim (lba == 0) as (λ b. length (if b then header_sector else item_sector) ≡ 512) [
      | true ↦ refl
      | false ↦ refl
    ]

with_items-used : (j : ℕ) → j < 3 → byte with_items (512 + 32 * j) ≢ 0
with_items-used zero l = λ e. omega arith
with_items-used (suc zero) l = λ e. omega arith
with_items-used (suc (suc zero)) l = λ e. omega arith
with_items-used (suc (suc (suc j))) l = absurd (omega arith)

get_total_items_for_directory-live_example :
    get_total_items_for_directory with_items (record { pos = 7; disk = 0 }) 1 ≡ some 2
get_total_items_for_directory-live_example =
    get_total_items_for_directory-live with_items with_items-length 7 1 3 (omega arith)
      with_items-used refl

fat16_resolve-root_example :
    (private : FatPrivate) × (fat16_resolve with_items (record { pos = 0; disk = 0 })
      ≡ some (pos 0, some private))
    × (private.root_directory
        ≡ root_of with_items with_items-length (header_of (bytes_from with_items 0 62)) 3)
fat16_resolve-root_example =
    fat16_resolve-root with_items with_items-length 3 refl (omega arith) (omega arith)
      with_items-used refl

-- Two items, of which the directory counts one.
abbrev short_directory : FatDirectory
short_directory = record {
  items = hello ∷ hello ∷ [];
  total = 1;
  sector_pos = 1;
  ending_sector_pos = 2;
}

find_item_in_directory-last_named_example :
    find_item_in_directory with_items private short_directory (b'h' ∷ 0 ∷ [])
    ≡ last_named with_items private (hello ∷ []) (b'h' ∷ 0 ∷ []) none
find_item_in_directory-last_named_example =
    find_item_in_directory-last_named with_items private short_directory (b'h' ∷ 0 ∷ [])
      (omega arith)

-- "HELLO.TXT"
abbrev hello_part : List ℕ
hello_part = b'H' ∷ b'E' ∷ b'L' ∷ b'L' ∷ b'O' ∷ b'.' ∷ b'T' ∷ b'X' ∷ b'T' ∷ []

abbrev hello_path : List ℕ
hello_path = b'0' ∷ b':' ∷ b'/' ∷ ended hello_part []

hello_path-parse :
    parse hello_path ≡ some (some (record { drive_no = pos 0; parts = hello_part ∷ [] }))
unfolding parse strlen strnlen is_digit to_numeric_digit memcmp
hello_path-parse = refl

hello_part-entry :
    get_directory_entry numbered private (ended hello_part []) [] ≡ some (some (file hello))
unfolding get_directory_entry get_full_relative_filename strncmp_insensitive
    new_fat_item_for_directory_item
hello_part-entry = refl

abbrev faults : Faults
faults = record {
  resolving = (negsuc 0, none);
  opening = inl 0;
  reading = (negsuc 0, []);
  seen = record { flags = 0; file_size = 0 };
}

abbrev first_cluster : ℕ → ℕ
first_cluster i = 65538

fopen-fread-fclose_example :
    (files' : Files FatFileDescriptor (Option FatPrivate)) × (fopen
        (some (fat16_fs numbered private faults))
        hello_path
        (b'r' ∷ 0 ∷ [])
        (none ∷ [])
      ≡ some (pos 1, files'))
    × (fread 100 1 (pos 1) files'
        ≡ ((pos 1, file_bytes numbered private first_cluster 0 100), files'))
    × (fclose (pos 1) files' ≡ (pos 0, none ∷ []))
unfolding cluster_to_sector get_first_cluster free_slot
fopen-fread-fclose_example =
    fopen-fread-fclose numbered private faults first_cluster 0 0 100 hello_path hello_part [] hello
      (none ∷ []) (λ lba. length-replicate {A = ℕ} 512 lba) (omega arith) refl hello_path-parse
      hello_part-entry refl (λ i h. absurd (omega arith)) (λ b h. (omega arith, omega arith)) refl
      (omega arith) (omega arith) (omega arith) (omega arith)
