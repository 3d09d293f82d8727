-- ===== src/Gdt/Decode.antt =====
-- What the processor reads back from an encoded descriptor.
use peach_os.Prelude.{
  ℕ, ◌+◌, ◌*◌, ◌/◌, ◌%◌, ◌^◌, ◌≤◌, ◌<◌, ◌≡◌, ap, ◌∙◌, some, arith, ltb, if◌then◌else◌, bit_and,
  bit_or, shr, bit_and-low, bit_or-shifted, shifted, Bool-cases, inl, inr, ◌⊎◌, true, false,
}
use peach_os.Gdt.{GdtStructured, Gdt, encode_gdt_entry}

-- The base of a descriptor, and its limit in bytes: the granularity flag counts in pages, of which
-- the last byte is meant.
abbrev pub base_of : Gdt → ℕ
base_of g = g.base_low + g.base_second * 2 ^ 8 + g.base_third * 2 ^ 16 + g.base_24_31_bits * 2 ^ 24

abbrev pub limit_field : Gdt → ℕ
limit_field g = g.limit_low + g.limit_high * 2 ^ 8 + g.high_flags % 16 * 2 ^ 16

abbrev pub limit_of : Gdt → ℕ
limit_of g = if ltb g.high_flags 0x80 then limit_field g else limit_field g * 4096 + 4095

-- What a descriptor means is what was asked for.
pub record Means (source : GdtStructured) (g : Gdt) : Type 0 where
  pub base : base_of g ≡ source.base
  pub limit : limit_of g ≡ source.limit
  pub access : g.access ≡ source.type

-- The bytes for a limit field and flags.
abbrev bytes : GdtStructured → (limit flags : ℕ) → Gdt
bytes source limit flags = record {
  limit_low = bit_and limit 0xFF;
  limit_high = bit_and (shr limit 8) 0xFF;
  base_low = bit_and source.base 0xFF;
  base_second = bit_and (shr source.base 8) 0xFF;
  base_third = bit_and (shr source.base 16) 0xFF;
  access = source.type % 2 ^ 8;
  high_flags = bit_or flags (bit_and (shr limit 16) 0x0F);
  base_24_31_bits = bit_and (shr source.base 24) 0xFF;
}

encode-bytes-small :
    (source : GdtStructured)
    → source.limit ≤ 65536
    → encode_gdt_entry source ≡ some (bytes source source.limit 0x40)
unfolding encode_gdt_entry
encode-bytes-small source h = rw (let e : ltb 65536 source.limit ≡ false = ground arith in e)

encode-bytes-large :
    (source : GdtStructured)
    → 65536 < source.limit
    → source.limit % 4096 ≡ 4095
    → encode_gdt_entry source ≡ some (bytes source (source.limit / 4096) 0xC0)
unfolding encode_gdt_entry
encode-bytes-large source h m = rw (
  let e : ltb 65536 source.limit ≡ true = ground arith in e,
  let e : bit_and source.limit 0xFFF ≡ 0xFFF = bit_and-low 12 source.limit ∙ m in e,
)

limit_top : (limit : ℕ) → limit < 2 ^ 20 → bit_and (shr limit 16) 0x0F ≡ limit / 65536
limit_top limit h = bit_and-low 4 (shr limit 16) ∙ omega arith

high_flags-bytes :
    (source : GdtStructured) (limit m : ℕ)
    → limit < 2 ^ 20
    → (bytes source limit (shifted 4 m)).high_flags ≡ 16 * m + limit / 65536
high_flags-bytes source limit m h =
    ap (bit_or (shifted 4 m)) (limit_top limit h)
    ∙ bit_or-shifted 4 m (limit / 65536) (omega arith)
    ∙ omega arith

limit_field-bytes :
    (source : GdtStructured) (limit m : ℕ)
    → limit < 2 ^ 20
    → limit_field (bytes source limit (shifted 4 m)) ≡ limit
limit_field-bytes source limit m h =
    omega
      (arith, bit_and-low 8 limit, bit_and-low 8 (shr limit 8), high_flags-bytes source limit m h)

base_of-bytes :
    (source : GdtStructured) (limit flags : ℕ)
    → source.base < 2 ^ 32
    → base_of (bytes source limit flags) ≡ source.base
base_of-bytes source limit flags h = omega (
  arith,
  bit_and-low 8 source.base,
  bit_and-low 8 (shr source.base 8),
  bit_and-low 8 (shr source.base 16),
  bit_and-low 8 (shr source.base 24),
)

-- Every descriptor with a 32-bit base, a one-byte type and a limit that is at most 65536 or ends a
-- page is encoded, and its bytes mean that base, limit and type.
pub encode_gdt_entry-Means :
    (source : GdtStructured)
    → source.base < 2 ^ 32
    → source.limit < 2 ^ 32
    → source.type < 2 ^ 8
    → (source.limit ≤ 65536) ⊎ (source.limit % 4096 ≡ 4095)
    → (g : Gdt) × (encode_gdt_entry source ≡ some g) × Means source g
encode_gdt_entry-Means source b l t fits = elim (Bool-cases (ltb 65536 source.limit)) [
  | inr small ↦ (
    bytes source source.limit 0x40,
    encode-bytes-small source (ground arith),
    record {
      base = base_of-bytes source source.limit 0x40 b;
      limit =
          ground (
            arith,
            limit_field-bytes source source.limit 4,
            high_flags-bytes source source.limit 4,
          );
      access = omega arith;
    },
  )
  | inl large ↦ (
    bytes source (source.limit / 4096) 0xC0,
    encode-bytes-large source (ground arith) (ground arith),
    record {
      base = base_of-bytes source (source.limit / 4096) 0xC0 b;
      limit = ground (
        arith,
        limit_field-bytes source (source.limit / 4096) 12,
        high_flags-bytes source (source.limit / 4096) 12,
      );
      access = omega arith;
    },
  )
]
