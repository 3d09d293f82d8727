-- ===== src/Disk.antt =====
-- src/disk/disk.c and streamer.c: the one disk, and byte streams over its sectors. The controller
-- behind the ports is a parameter: `sector lba` is what it sends for a sector, 512 bytes. An `int` is held as
-- its 32-bit pattern, negative from 2 ^ 31 on. What the code does at a negative position, and where a sum of
-- `int`s overflows, is left out: `none`.
pub mod Stream
mod Tests
use peach_os.Prelude.{
  ℕ, zero, suc, ◌+◌, ◌-◌, ◌*◌, ◌/◌, ◌%◌, ◌<◌, Bool, true, false, not, Option, none, some, List, [],
  ◌∷◌, ◌++◌, ◌==◌, ltb, leb, if◌then◌else◌, get_or, take, drop, length, u32, ◌^◌, ℤ, pos, negsuc,
  is_negative,
}

abbrev pub sector_size : ℕ
sector_size = 512

-- `disk_get`: only disk 0 exists.
unfoldable pub disk_get : ℤ → Option ℕ
disk_get (pos n) = if n == 0 then some 0 else none
disk_get (negsuc n) = none

-- 2 ^ 31: an `int` is below it.
abbrev pub int_limit : ℕ
int_limit = 2 ^ 31

-- `struct disk_stream`: the position, in bytes, as the pattern of an `int`, and the disk.
pub record DiskStream : Type 0 where
  pub pos : ℕ
  pub disk : ℕ

unfoldable pub disk_streamer_new : ℤ → Option DiskStream
unfolding disk_get
disk_streamer_new disk_id = elim (disk_get disk_id) [
  | none ↦ none
  | some d ↦ some (record { pos = 0; disk = d })
]

unfoldable pub diskstreamer_seek : DiskStream → (p : ℕ) → DiskStream
diskstreamer_seek stream p = record stream { pos = u32 p }

module _ (sector : ℕ → List ℕ) where
  -- The sectors `lba` to `lba + total - 1`, as the loop of `disk_read_sector` copies them.
  unfoldable pub disk_read_sector : (lba total : ℕ) → List ℕ
  disk_read_sector lba zero = []
  disk_read_sector lba (suc total) = sector lba ++ disk_read_sector (lba + 1) total

  -- `none` is `-EIO`, for any disk but the one that exists.
  unfoldable pub disk_read_block : (disk lba total : ℕ) → Option (List ℕ)
  unfolding disk_read_sector
  disk_read_block disk lba total =
      if not (disk == 0) then none else some (disk_read_sector lba total)

  -- `buf[offset]`, ..., `buf[offset + n - 1]`
  unfoldable pub copy_from : List ℕ → (offset n : ℕ) → List ℕ
  copy_from buf offset n = take n (drop offset buf)

  -- The bytes that are written to `out`, and the stream. Each call reads from one sector; the fuel
  -- bounds the calls. `none` is that it ran out, or that the position is negative or does not stay an `int`
  -- up to the end of the bytes. The answer is 0 also where a block cannot be read.
  unfoldable pub read_loop : (fuel : ℕ) → DiskStream → (total : ℕ) → Option (List ℕ × DiskStream)
  unfolding disk_read_block copy_from
  read_loop zero stream total = none
  read_loop (suc fuel) stream total =
      let lba = stream.pos / sector_size in
      let offset = stream.pos % sector_size in
      let overflow = leb sector_size (offset + total) in
      let total_to_read = if overflow then total - (offset + total - sector_size) else total in
      let stream' = record stream { pos = stream.pos + total_to_read } in
      let rest = read_loop fuel stream' (total - total_to_read) in
      if leb int_limit (stream.pos + total)
      then none
      else elim (disk_read_block stream.disk lba 1) [
        | none ↦ some ([], stream)
        | some buf ↦
            if overflow
            then (elim rest [
              | none ↦ none
              | some (out, end) ↦ some (copy_from buf offset total_to_read ++ out, end)
            ])
            else some (copy_from buf offset total_to_read, stream')
      ]

  -- One call for each sector that the bytes touch, and one more at the end of a sector.
  unfoldable pub diskstreamer_read : DiskStream → (total : ℕ) → Option (List ℕ × DiskStream)
  unfolding read_loop
  diskstreamer_read stream total = read_loop (total / sector_size + 2) stream total
