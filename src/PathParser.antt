-- ===== src/PathParser.antt =====
-- src/fs/pparser.c: from a path such as "0:/dir/file" to the drive's number and the parts. A pointer
-- into the path is the list of bytes from it to the end of its buffer, `none` is a read past that end,
-- and the linked list of parts is the list of their texts. Allocations are taken to succeed
-- (`kzalloc` stops the kernel otherwise).
pub mod Read
pub mod Parse
mod Tests
use peach_os.Prelude.{
  ℕ, zero, suc, ◌+◌, Bool, true, false, not, ◌&&◌, ◌||◌, Option, none, some, List, [], ◌∷◌, ◌>>=◌,
  ◌==◌, leb, ltb, length, drop, if◌then◌else◌, ℤ, pos, negsuc, is_negative, eq_ℤ,
}
use peach_os.CString.{strlen, strnlen, is_digit, to_numeric_digit}
use peach_os.Memory.{memcmp}

-- PEACHOS_MAX_PATH
abbrev pub max_path : ℕ
max_path = 108

-- `path_root`, with the parts that `first` leads to; none of them is the disk's root.
pub record PathRoot : Type 0 where
  pub drive_no : ℤ
  pub parts : List (List ℕ)

-- `filename[i]`
char_at : List ℕ → ℕ → Option ℕ
char_at [] i = none
char_at (c ∷ s) zero = some c
char_at (c ∷ s) (suc i) = char_at s i

-- The tests run from left to right, and the later ones only if the earlier ones hold.
pub path_valid_format : List ℕ → Option Bool
unfolding char_at
path_valid_format filename = strnlen filename max_path >>= λ len.
    let digit_first = char_at filename 0 >>= λ c.
    if is_digit c
    then (memcmp (drop 1 filename) (b':' ∷ b'/' ∷ []) 2 >>= λ r. some (eq_ℤ r (pos 0)))
    else some false in
    if leb 3 len then digit_first else some false

-- The drive's number, or `-EBADPATH`, and the path behind "0:/".
pub get_drive_by_path : List ℕ → Option (ℤ × List ℕ)
unfolding path_valid_format char_at
get_drive_by_path path = path_valid_format path >>= λ valid.
    if valid
    then (char_at path 0 >>= λ c. some (to_numeric_digit c, drop 3 path))
    else some (negsuc 3, path)

-- The loop of `pathparser_get_path_part`: the bytes up to the slash or the terminator.
copy_part : List ℕ → Option (List ℕ × List ℕ)
copy_part [] = none
copy_part (c ∷ path) =
    let rest = copy_part path in
    if (c == b'/') || (c == 0)
    then some ([], c ∷ path)
    else (rest >>= λ (part, left). some (c ∷ part, left))

skip_slash : List ℕ → List ℕ
skip_slash [] = []
skip_slash (c ∷ path) = if c == b'/' then path else c ∷ path

-- The part, which is empty where the code returns 0, and the path behind it.
pub get_path_part : List ℕ → Option (List ℕ × List ℕ)
unfolding copy_part skip_slash
get_path_part path = copy_part path >>= λ (part, left). some (part, skip_slash left)

-- The calls of `pathparser_parse_path_part`, each of which links its part to the one before. They end
-- at the first empty part.
pub parse_parts : (fuel : ℕ) → List ℕ → Option (List (List ℕ))
unfolding get_path_part
parse_parts zero path = none
parse_parts (suc fuel) path = get_path_part path >>= λ (part, left). elim part [
  | [] ↦ some []
  | c ∷ s ↦ parse_parts fuel left >>= λ parts. some ((c ∷ s) ∷ parts)
]

-- The inner `none` is a null root. The fuel is the number of bytes from the path on.
unfoldable pub parse : List ℕ → Option (Option PathRoot)
unfolding get_drive_by_path parse_parts
parse path = strlen path >>= λ len.
    let parsed = get_drive_by_path path >>= λ (drive, left).
    if is_negative drive
    then some none
    else (parse_parts (length path) left >>= λ parts.
        some (some (record { drive_no = drive; parts = parts }))) in
    if ltb max_path len then some none else parsed
