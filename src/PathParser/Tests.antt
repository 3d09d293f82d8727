-- ===== src/PathParser/Tests.antt =====
-- Runs of the path parser, and its theorems at concrete paths.
use peach_os.Prelude.{ℕ, ◌≡◌, refl, none, some, List, [], ◌∷◌, arith, pos}
use peach_os.CString.{ended, strlen, strnlen, is_digit, to_numeric_digit}
use peach_os.Memory.{memcmp}
use peach_os.PathParser.{parse}
use peach_os.PathParser.Read.{AllParts}
use peach_os.PathParser.Parse.{path_text, parse-path_text}

-- "bin/a"
abbrev parts : List (List ℕ)
parts = (b'b' ∷ b'i' ∷ b'n' ∷ []) ∷ (b'a' ∷ []) ∷ []

parts-AllParts : AllParts parts
parts-AllParts = (((λ e. cc), omega arith), (((λ e. cc), omega arith), tt))

-- An empty part ends the list: "0://a" has none.
double_slash :
    parse (b'0' ∷ b':' ∷ b'/' ∷ b'/' ∷ b'a' ∷ 0 ∷ [])
    ≡ some (some (record { drive_no = pos 0; parts = [] }))
unfolding parse strlen strnlen is_digit to_numeric_digit memcmp
double_slash = refl

no_drive : parse (b'a' ∷ b':' ∷ b'/' ∷ b'b' ∷ 0 ∷ []) ≡ some none
unfolding parse strlen strnlen is_digit to_numeric_digit memcmp
no_drive = refl

parse-path_text_example :
    parse (ended (path_text 0 parts) (7 ∷ []))
    ≡ some (some (record { drive_no = pos 0; parts = parts }))
parse-path_text_example =
    parse-path_text 0 parts (7 ∷ []) (omega arith) parts-AllParts (omega arith)
