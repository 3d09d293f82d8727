-- ===== src/Gdt/Tests.antt =====
-- The kernel's code segment, encoded, and the theorem on descriptors at it.
use peach_os.Prelude.{◌≡◌, refl, inr, some, arith}
use peach_os.Gdt.{GdtStructured, Gdt, encode_gdt_entry}
use peach_os.Gdt.Decode.{Means, encode_gdt_entry-Means}

abbrev kernel_code : GdtStructured
kernel_code = record { base = 0; limit = 0xFFFFFFFF; type = 0x9A }

kernel_code_bytes :
    encode_gdt_entry kernel_code
    ≡ some (record {
      limit_low = 0xFF;
      limit_high = 0xFF;
      base_low = 0;
      base_second = 0;
      base_third = 0;
      access = 0x9A;
      high_flags = 0xCF;
      base_24_31_bits = 0;
    })
unfolding encode_gdt_entry
kernel_code_bytes = refl

encode_gdt_entry-Means_example :
    (g : Gdt) × (encode_gdt_entry kernel_code ≡ some g) × Means kernel_code g
encode_gdt_entry-Means_example =
    encode_gdt_entry-Means kernel_code (omega arith) (omega arith) (omega arith) (inr refl)
