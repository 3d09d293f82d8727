-- ===== src/CString.antt =====
-- src/string/string.c: the kernel's string routines. A `char*` is the list of bytes from the
-- pointer to the end of its buffer, and `none` is a read or write past that end. A `char` is its
-- byte: the tests on letters and digits are false for the negative ones.
pub mod Length
pub mod Compare
pub mod Copy
pub mod Itoa
mod Tests
use peach_os.Prelude.{
  ℕ, ◌++◌, ◌≢◌, zero, suc, ◌+◌, ◌-◌, ◌/◌, ◌%◌, Bool, true, false, not, ◌&&◌, ◌||◌, Option, none,
  some, List, [], ◌∷◌, ◌>>=◌, ◌==◌, leb, ltb, if◌then◌else◌, ℤ, pos, negsuc, sub_ℕ,
}

-- The bytes of a text: none of them is the terminator.
abbrev pub IsText : List ℕ → Type 0
IsText [] = Unit
IsText (c ∷ s) = (c ≢ 0) × IsText s

-- A text in a buffer, with what stands behind its terminator.
abbrev pub ended : List ℕ → List ℕ → List ℕ
ended s rest = s ++ 0 ∷ rest

unfoldable pub tolower : ℕ → ℕ
tolower c = if leb 65 c && leb c 90 then c + 32 else c

unfoldable pub strlen : List ℕ → Option ℕ
strlen [] = none
strlen (c ∷ str) = let rest = strlen str in if c == 0 then some 0 else (rest >>= λ n. some (suc n))

-- `max` is the number of rounds; the loop makes none if it is negative.
unfoldable pub strnlen : List ℕ → (max : ℕ) → Option ℕ
strnlen str zero = some 0
strnlen [] (suc max) = none
strnlen (c ∷ str) (suc max) =
    let rest = strnlen str max in if c == 0 then some 0 else (rest >>= λ n. some (suc n))

-- Each round reads one byte, and, unless that is 0, a second one.
unfoldable pub strnlen_terminator : List ℕ → (max : ℕ) → (terminator : ℕ) → Option ℕ
strnlen_terminator str zero t = some 0
strnlen_terminator [] (suc max) t = none
strnlen_terminator (c ∷ []) (suc max) t = if c == 0 then some 1 else none
strnlen_terminator (c ∷ d ∷ str) (suc max) t =
    let rest = strnlen_terminator str max t in if (c == 0) || (d == t) then some 1 else rest

unfoldable pub strncmp : List ℕ → List ℕ → (max : ℕ) → Option ℤ
strncmp str1 str2 zero = some (pos 0)
strncmp [] str2 (suc max) = none
strncmp (u1 ∷ str1) [] (suc max) = none
strncmp (u1 ∷ str1) (u2 ∷ str2) (suc max) =
    let rest = strncmp str1 str2 max in
    if not (u1 == u2) then some (sub_ℕ u1 u2) else if u1 == 0 then some (pos 0) else rest

unfoldable pub strncmp_insensitive : List ℕ → List ℕ → (max : ℕ) → Option ℤ
unfolding tolower
strncmp_insensitive str1 str2 zero = some (pos 0)
strncmp_insensitive [] str2 (suc max) = none
strncmp_insensitive (u1 ∷ str1) [] (suc max) = none
strncmp_insensitive (u1 ∷ str1) (u2 ∷ str2) (suc max) =
    let rest = strncmp_insensitive str1 str2 max in
    if not (u1 == u2) && not (tolower u1 == tolower u2)
    then some (sub_ℕ u1 u2)
    else if u1 == 0
    then some (pos 0)
    else rest

-- The destination buffer after the copy.
unfoldable pub strcpy : (dest src : List ℕ) → Option (List ℕ)
strcpy dest [] = none
strcpy [] (c ∷ src) = none
strcpy (d ∷ dest) (c ∷ src) =
    let rest = strcpy dest src in if c == 0 then some (0 ∷ dest) else (rest >>= λ t. some (c ∷ t))

-- The terminator at `dest[i]`.
terminate : List ℕ → Option (List ℕ)
terminate [] = none
terminate (d ∷ dest) = some (0 ∷ dest)

-- `rounds` is what is left of `length - 1`.
strncpy_loop : (rounds : ℕ) → (dest src : List ℕ) → Option (List ℕ)
unfolding terminate
strncpy_loop zero dest src = terminate dest
strncpy_loop (suc k) dest [] = none
strncpy_loop (suc k) [] (c ∷ src) = none
strncpy_loop (suc k) (d ∷ dest) (c ∷ src) =
    let rest = strncpy_loop k dest src in
    if c == 0 then some (0 ∷ dest) else (rest >>= λ t. some (c ∷ t))

unfoldable pub strncpy : (dest src : List ℕ) → (length : ℕ) → Option (List ℕ)
unfolding strncpy_loop
strncpy dest src length = strncpy_loop (length - 1) dest src

unfoldable pub is_digit : ℕ → Bool
is_digit c = leb 48 c && leb c 57

unfoldable pub is_ascii_char : ℕ → Bool
is_ascii_char c = leb 65 c && leb c 122

unfoldable pub to_numeric_digit : ℕ → ℤ
to_numeric_digit c = sub_ℕ c 48

-- `i` is negative or 0 in the loop of `itoa`, and is held as its magnitude: `'0' - (i % 10)` is
-- `'0' + n % 10`. The list is the text from `loc` on; `fuel` bounds the digits:
-- an `int` has at most 10.
itoa_loop : (fuel : ℕ) → ℕ → List ℕ → Option (List ℕ)
itoa_loop zero n text = if n == 0 then some text else none
itoa_loop (suc fuel) n text =
    let rest = itoa_loop fuel (n / 10) ((48 + n % 10) ∷ text) in if n == 0 then some text else rest

-- `if (loc == 11)`: no digit was written.
or_zero : List ℕ → List ℕ
or_zero [] = 48 ∷ []
or_zero (d ∷ text) = d ∷ text

-- The text up to its terminator at `text[11]`, below which there are 11 bytes.
itoa_text : (neg : Bool) → ℕ → Option (List ℕ)
unfolding itoa_loop or_zero
itoa_text neg n =
    itoa_loop 10 n [] >>= λ text. some (if neg then b'-' ∷ or_zero text else or_zero text)

unfoldable pub itoa : ℤ → Option (List ℕ)
unfolding itoa_text
itoa (pos n) = itoa_text false n
itoa (negsuc n) = itoa_text true (suc n)
