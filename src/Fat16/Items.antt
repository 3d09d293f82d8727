-- ===== src/Fat16/Items.antt =====
-- How many items a directory has, and which of them a search looks at.
use peach_os.Prelude.{
  ℕ, zero, suc, ◌+◌, ◌*◌, ◌/◌, ◌<◌, ◌%◌, ◌^◌, mul32, ◌≡◌, ◌≢◌, refl, ap, ◌∙◌, arith, some, List,
  ◌==◌, if◌then◌else◌, length, eq→==, ne→==, ℕ_discrete, pos,
}
use peach_os.Disk.{DiskStream, diskstreamer_seek, diskstreamer_read}
use peach_os.Disk.Stream.{byte, bytes_from, diskstreamer_read_lem}
use peach_os.Fat16.{FatPrivate, FatDirectory}
use peach_os.Fat16.Directory.{
  max_items, count_items, get_total_items_for_directory, get_root_directory, fat16_resolve,
  header_of, items_of, FatHeader,
}

module _ (sector : ℕ → List ℕ) where
  -- The items among the first `n` from byte `p` on that are not deleted.
  abbrev pub live : (n p : ℕ) → ℕ
  live zero p = 0
  live (suc n) p = (if byte sector p == 0xE5 then 0 else 1) + live n (p + 32)

  module _ (full : (lba : ℕ) → length (sector lba) ≡ 512) where
    count_items-live :
        (fuel n p i : ℕ)
        → n < fuel
        → p + 32 * n + 32 < 2 ^ 31
        → ((j : ℕ) → j < n → byte sector (p + 32 * j) ≢ 0)
        → byte sector (p + 32 * n) ≡ 0
        → count_items sector fuel (record { pos = p; disk = 0 }) i ≡ some (i + live n p)
    unfolding count_items
    count_items-live zero n p i l int used end = absurd (omega arith)
    count_items-live (suc fuel) zero p i l int used end =
        let here : byte sector p ≡ 0 = ap (λ (q : ℕ). byte sector q) (omega arith) ∙ end in
        rw
          (
            diskstreamer_read_lem sector full p 32 (omega (arith, int)),
            eq→== (byte sector p) 0 here,
          )
          (ap some (omega arith))
    count_items-live (suc fuel) (suc n) p i l int used end =
        let here : byte sector p ≢ 0 =
          λ z. used 0 (omega arith) (ap (λ (q : ℕ). byte sector q) (omega arith) ∙ z) in
        let rest = λ (k : ℕ).
          count_items-live fuel n (p + 32) k (omega arith) (omega (arith, int))
            (λ j q z. used (suc j) (omega arith) (ap (λ (q : ℕ). byte sector q) (omega arith) ∙ z))
            (ap (λ (q : ℕ). byte sector q) (omega arith) ∙ end) in
        rw
          (
            diskstreamer_read_lem sector full p 32 (omega (arith, int)),
            ne→== (byte sector p) 0 here,
          )
          (elim (ℕ_discrete (byte sector p) 0xE5) [
            | yes deleted ↦ rw (eq→== (byte sector p) 0xE5 deleted) (rest i ∙ ap some (omega arith))
            | no kept ↦ rw (ne→== (byte sector p) 0xE5 kept) (rest (i + 1) ∙ ap some (omega arith))
          ])

    -- On disk 0, whose sectors have 512 bytes: where item `n` of a directory ends below byte 2 ^ 31 of the
    -- disk, and is the first whose name begins with the byte 0, the loop ends, and answers how many of the
    -- items before it are not deleted.
    pub get_total_items_for_directory-live :
        (q directory_start_sector n : ℕ)
        → directory_start_sector * 512 + 32 * n + 32 < 2 ^ 31
        → ((j : ℕ) → j < n → byte sector (directory_start_sector * 512 + 32 * j) ≢ 0)
        → byte sector (directory_start_sector * 512 + 32 * n) ≡ 0
        → get_total_items_for_directory sector (record { pos = q; disk = 0 }) directory_start_sector
          ≡ some (live n (directory_start_sector * 512))
    unfolding get_total_items_for_directory diskstreamer_seek
    get_total_items_for_directory-live q directory_start_sector n int used end =
        ap (λ (p : ℕ). count_items sector max_items (record { pos = p; disk = 0 }) 0)
          {x = mul32 directory_start_sector 512 % 2 ^ 32} {y = directory_start_sector * 512}
          (omega (arith, int))
        ∙ count_items-live max_items n (directory_start_sector * 512) 0 (omega (arith, int)) int
            used end
        ∙ ap some (omega arith)

    -- The root directory of a header, which ends at item `n`.
    abbrev pub root_of : FatHeader → (n : ℕ) → FatDirectory
    root_of header n =
        let root = header.fat_copies * header.sectors_per_fat + header.reserved_sectors in
        record {
          items =
              items_of header.root_directory_entries
                (bytes_from sector (root * 512) (header.root_directory_entries * 32));
          total = live n (root * 512);
          sector_pos = root;
          ending_sector_pos = root + header.root_directory_entries * 32 / 512;
        }

    abbrev pub root_byte : FatHeader → ℕ
    root_byte header = (header.fat_copies * header.sectors_per_fat + header.reserved_sectors) * 512

    get_root_directory-live :
        (header : FatHeader) (q n : ℕ)
        → root_byte header + 32 * n + 32 < 2 ^ 31
        → root_byte header + header.root_directory_entries * 32 < 2 ^ 31
        → ((j : ℕ) → j < n → byte sector (root_byte header + 32 * j) ≢ 0)
        → byte sector (root_byte header + 32 * n) ≡ 0
        → get_root_directory sector header (record { pos = q; disk = 0 }) ≡ some (root_of header n)
    unfolding get_root_directory diskstreamer_seek
    get_root_directory-live header q n int ints used end =
        let at : mul32 (header.fat_copies * header.sectors_per_fat + header.reserved_sectors) 512
              % 2 ^ 32
            ≡ root_byte header =
          omega (arith, int) in
        rw
          (
            get_total_items_for_directory-live q
                (header.fat_copies * header.sectors_per_fat + header.reserved_sectors) n int used
                end,
            at,
            diskstreamer_read_lem sector full (root_byte header)
                (header.root_directory_entries * 32) ints,
          )
          refl

    resolve_header :
        (stream end : DiskStream) (bs : List ℕ) (root : FatDirectory)
        → diskstreamer_read sector stream 62 ≡ some (bs, end)
        → (header_of bs).signature ≡ 0x29
        → get_root_directory sector (header_of bs) stream ≡ some root
        → (private : FatPrivate) × (fat16_resolve sector stream ≡ some (pos 0, some private))
          × (private.root_directory ≡ root)
    unfolding fat16_resolve
    resolve_header stream end bs root e sig d =
        let private : FatPrivate = record {
          sectors_per_cluster = (header_of bs).sectors_per_cluster;
          reserved_sectors = (header_of bs).reserved_sectors;
          root_directory = root;
          cluster_read_stream = stream;
          fat_read_stream = stream;
        } in
        (private, rw (e, eq→== (header_of bs).signature 0x29 sig, d) refl, refl)

    -- On disk 0, whose sectors have 512 bytes, with the signature 0x29: where item `n` of the root directory
    -- is the first whose name begins with the byte 0, and it and all the entries that the header counts end
    -- below byte 2 ^ 31 of the disk, `fat16_resolve` answers 0. It keeps the root directory with those
    -- entries, the number of the items before item `n` that are not deleted, and as its end the first
    -- sector behind the whole sectors that the entries fill: a sector that they fill in part is not counted.
    pub fat16_resolve-root :
        (n : ℕ)
        → (header_of (bytes_from sector 0 62)).signature ≡ 0x29
        → root_byte (header_of (bytes_from sector 0 62)) + 32 * n + 32 < 2 ^ 31
        → root_byte (header_of (bytes_from sector 0 62))
            + (header_of (bytes_from sector 0 62)).root_directory_entries * 32
          < 2 ^ 31
        → ((j : ℕ)
            → j < n
            → byte sector (root_byte (header_of (bytes_from sector 0 62)) + 32 * j) ≢ 0)
        → byte sector (root_byte (header_of (bytes_from sector 0 62)) + 32 * n) ≡ 0
        → (private : FatPrivate) × (fat16_resolve sector (record { pos = 0; disk = 0 })
            ≡ some (pos 0, some private))
          × (private.root_directory ≡ root_of (header_of (bytes_from sector 0 62)) n)
    fat16_resolve-root n sig int ints used end =
        resolve_header (record { pos = 0; disk = 0 }) (record { pos = 62; disk = 0 })
          (bytes_from sector 0 62) (root_of (header_of (bytes_from sector 0 62)) n)
          (diskstreamer_read_lem sector full 0 62 (omega arith)) sig
          (get_root_directory-live (header_of (bytes_from sector 0 62)) 0 n int ints used end)
