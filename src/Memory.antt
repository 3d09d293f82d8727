-- ===== src/Memory.antt =====
-- src/memory/memory.c: `memset`, `memcmp` and `memcpy`. A pointer is the list of bytes from it to the
-- end of its buffer, and `none` is an access past that end.
pub mod Laws
use peach_os.Prelude.{
  ℕ, zero, suc, ◌+◌, ◌%◌, ◌^◌, not, Option, none, some, List, [], ◌∷◌, ◌>>=◌, ◌==◌, ltb,
  if◌then◌else◌, ℤ, pos, negsuc,
}

-- The buffer after the call; `(char) c` keeps the low byte.
unfoldable pub memset : (ptr : List ℕ) → (c size : ℕ) → Option (List ℕ)
memset ptr c zero = some ptr
memset [] c (suc size) = none
memset (b ∷ ptr) c (suc size) = memset ptr c size >>= λ rest. some (c % 2 ^ 8 ∷ rest)

-- The bytes are `char`, which is signed: adding 128 puts their patterns in order.
unfoldable pub memcmp : (s1 s2 : List ℕ) → (len : ℕ) → Option ℤ
memcmp s1 s2 zero = some (pos 0)
memcmp [] s2 (suc len) = none
memcmp (a ∷ s1) [] (suc len) = none
memcmp (a ∷ s1) (b ∷ s2) (suc len) =
    let rest = memcmp s1 s2 len in
    if not (a == b)
    then some (if ltb ((a + 128) % 2 ^ 8) ((b + 128) % 2 ^ 8) then negsuc 0 else pos 1)
    else rest

unfoldable pub memcpy : (dest src : List ℕ) → (len : ℕ) → Option (List ℕ)
memcpy dest src zero = some dest
memcpy dest [] (suc len) = none
memcpy [] (s ∷ src) (suc len) = none
memcpy (d ∷ dest) (s ∷ src) (suc len) = memcpy dest src len >>= λ rest. some (s ∷ rest)
