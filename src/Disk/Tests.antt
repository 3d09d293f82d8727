-- ===== src/Disk/Tests.antt =====
-- Runs of the streams of Disk, and their theorems at concrete inputs.
use peach_os.Prelude.{arith, ℕ, ◌≡◌, some, List, replicate, length-replicate}
use peach_os.Disk.{diskstreamer_read}
use peach_os.Disk.Stream.{bytes_from, diskstreamer_read_lem}

-- A disk whose sectors are filled with their numbers.
abbrev numbered : ℕ → List ℕ
numbered lba = replicate 512 lba

diskstreamer_read_lem_example :
    diskstreamer_read numbered (record { pos = 510; disk = 0 }) 4
    ≡ some (bytes_from numbered 510 4, record { pos = 514; disk = 0 })
diskstreamer_read_lem_example =
    diskstreamer_read_lem numbered (λ lba. length-replicate {A = ℕ} 512 lba) 510 4 (omega arith)
