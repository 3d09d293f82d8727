-- ===== src/Paging/Tests.antt =====
-- A directory over linear tables, and the theorems on paging at it.
use peach_os.Prelude.{
  ℕ, ◌+◌, ◌-◌, ◌*◌, ◌/◌, ◌<◌, ◌≡◌, refl, ◌&&◌, arith, some, leb, ltb, if◌then◌else◌, bit_and-frame,
  pos,
}
use peach_os.Paging.{Memory, word_at, table_of, get, map_range, map_to, get_physical_address}
use peach_os.Paging.Table.{IsDirectory}
use peach_os.KernelHeap.{Ram}
use peach_os.KernelHeap.Bump.{IsBump}
use peach_os.Paging.Chunk.{new_4gb}
use peach_os.Paging.Identity.{new_4gb-identity}
use peach_os.Paging.Range.{map_range_lem, get_physical_address-map_to}

-- The directory stands at 0x1000, and table `i` at 0x2000 + i * 0x1000, present and writeable.
abbrev linear : Memory
linear a = if leb 0x1000 a && ltb a 0x2000 then 0x2000 + (a - 0x1000) / 4 * 0x1000 + 7 else 0

linear-entry : (i : ℕ) → i < 1024 → linear (word_at 0x1000 i) ≡ 0x2000 + i * 0x1000 + 7
linear-entry i h = ground arith

linear-table : (i : ℕ) → i < 1024 → table_of (linear (word_at 0x1000 i)) ≡ 0x2000 + i * 0x1000
linear-table i h = rw (linear-entry i h) (omega (arith, bit_and-frame (0x2000 + i * 0x1000 + 7)))

linear-IsDirectory : IsDirectory linear 0x1000
linear-IsDirectory = record {
  aligned = refl;
  in_memory = omega arith;
  words = λ i h. omega (arith, linear-entry i h);
  off_directory = λ i h e. omega (arith, linear-table i h);
  apart = λ i k hi hk e. omega (arith, linear-table i hi, linear-table k hk);
}

map_range_lem_example :
    ((map_range 3 linear 0x1000 0x400000 0x9000 7).0 ≡ pos 0)
    × IsDirectory (map_range 3 linear 0x1000 0x400000 0x9000 7).1 0x1000
    × (get (map_range 3 linear 0x1000 0x400000 0x9000 7).1 0x1000 0x402000 ≡ 0xB007)
map_range_lem_example =
    map_range_lem 3 0x400000 0x9000 7 0x402000 linear-IsDirectory refl refl (omega arith)
      (omega arith) (omega arith) refl (omega arith)

get_physical_address-map_to_example :
    get_physical_address
      (map_to linear 0x1000 0x400000 0x9000 (0x9000 + 3 * 4096) 7).1
      0x1000
      (0x400000 + 5000)
    ≡ 0x9000 + 5000
get_physical_address-map_to_example =
    get_physical_address-map_to 0x400000 0x9000 3 7 5000 linear-IsDirectory refl refl (omega arith)
      (omega arith) (omega arith) (omega arith)

abbrev blank : Ram
blank = record {
  heap = record { entries = λ i. 0; total = 25600; saddr = 0x1000000 };
  bytes = λ p. 0;
  words = λ p. 0;
}

blank-IsBump : IsBump blank.heap 0 (1026 + 24574)
blank-IsBump = record {
  aligned = refl;
  above_null = omega arith;
  near = omega arith;
  inside = omega arith;
  addressed = omega arith;
  used = λ j p q. absurd (omega arith);
  unused = λ j p q. refl;
}

new_4gb-identity_example :
    (r : ℕ × Ram) × (new_4gb 7 blank ≡ some r)
    × (get_physical_address r.1.words (r.1.words r.0) 0xB8123 ≡ 0xB8123)
    × (get r.1.words (r.1.words r.0) 0xB8000 ≡ 0xB8007)
    × IsBump r.1.heap 1026 24574
new_4gb-identity_example =
    new_4gb-identity 7 0xB8123 0 24574 blank blank-IsBump (omega arith) (omega arith)
