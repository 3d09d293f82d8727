-- ===== src/CString/Tests.antt =====
-- Runs of the string routines, and their theorems at concrete texts.
use peach_os.Prelude.{ℕ, ◌≡◌, refl, ◌≤◌, some, List, [], ◌∷◌, ◌++◌, arith, length, pos, negsuc}
use peach_os.CString.{ended, strnlen_terminator, strncmp_insensitive, itoa}
use peach_os.CString.Itoa.{itoa-parse, parse_int, IsDecimal}

-- "abc" and "aBc"
abbrev lower : List ℕ
lower = b'a' ∷ b'b' ∷ b'c' ∷ []

abbrev mixed : List ℕ
mixed = b'a' ∷ b'B' ∷ b'c' ∷ []

itoa_runs : itoa (negsuc 119) ≡ some (b'-' ∷ b'1' ∷ b'2' ∷ b'0' ∷ [])
unfolding itoa
itoa_runs = refl

-- The length up to `b'd'` is 3, and the answer is 1.
strnlen_terminator_runs : strnlen_terminator (ended (lower ++ b'd' ∷ []) []) 10 b'd' ≡ some 1
unfolding strnlen_terminator
strnlen_terminator_runs = refl

strncmp_insensitive_runs : strncmp_insensitive (ended lower []) (ended mixed []) 108 ≡ some (pos 0)
unfolding strncmp_insensitive
strncmp_insensitive_runs = refl

itoa-parse_example :
    (out : List ℕ) × (itoa (negsuc 41) ≡ some out)
    × IsDecimal (negsuc 41) out
    × (parse_int out ≡ negsuc 41)
    × (length out ≤ 11)
itoa-parse_example = itoa-parse (negsuc 41) (omega arith) (omega arith)
