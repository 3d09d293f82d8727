-- ===== src/Gdt.antt =====
-- src/gdt/gdt.c: the descriptors of the global descriptor table.
pub mod Decode
mod Tests
use peach_os.Prelude.{
  ℕ, zero, suc, ◌+◌, ◌*◌, ◌%◌, ◌^◌, ◌/◌, Bool, not, ◌&&◌, Option, none, some, List, [], ◌∷◌, ◌>>=◌,
  ◌==◌, ltb, if◌then◌else◌, bit_and, bit_or, shr, u8,
}

pub record GdtStructured : Type 0 where
  pub base : ℕ
  pub limit : ℕ
  pub type : ℕ

-- The 8 bytes `target[0]` to `target[7]` of a `struct gdt`.
pub record Gdt : Type 0 where
  pub limit_low : ℕ
  pub limit_high : ℕ
  pub base_low : ℕ
  pub base_second : ℕ
  pub base_third : ℕ
  pub access : ℕ
  pub high_flags : ℕ
  pub base_24_31_bits : ℕ

-- `none` is the panic on a limit that is not in whole pages.
unfoldable pub encode_gdt_entry : GdtStructured → Option Gdt
encode_gdt_entry source =
    if ltb 65536 source.limit && not (bit_and source.limit 0xFFF == 0xFFF)
    then none
    else let limit = if ltb 65536 source.limit then shr source.limit 12 else source.limit in
      let flags = if ltb 65536 source.limit then 0xC0 else 0x40 in
      some (record {
        limit_low = bit_and limit 0xFF;
        limit_high = bit_and (shr limit 8) 0xFF;
        base_low = bit_and source.base 0xFF;
        base_second = bit_and (shr source.base 8) 0xFF;
        base_third = bit_and (shr source.base 16) 0xFF;
        access = u8 source.type;
        high_flags = bit_or flags (bit_and (shr limit 16) 0x0F);
        base_24_31_bits = bit_and (shr source.base 24) 0xFF;
      })

-- The loop stops at the first entry that panics.
unfoldable pub structured_to_gdt : List GdtStructured → Option (List Gdt)
unfolding encode_gdt_entry
structured_to_gdt [] = some []
structured_to_gdt (source ∷ rest) = encode_gdt_entry source >>= λ entry.
    structured_to_gdt rest >>= λ entries. some (entry ∷ entries)
