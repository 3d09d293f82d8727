-- ===== src/CString/Length.antt =====
-- `strlen`, `strnlen` and `strnlen_terminator`.
use peach_os.Prelude.{
  ℕ, zero, suc, ◌≤◌, ◌≡◌, refl, ap, min, some, List, [], ◌∷◌, arith, length, ne→==,
}
use peach_os.CString.{IsText, ended, strlen, strnlen, strnlen_terminator}

-- `strlen` counts the bytes before the terminator.
pub strlen-ended : (s rest : List ℕ) → IsText s → strlen (ended s rest) ≡ some (length s)
unfolding strlen
strlen-ended [] rest h = refl
strlen-ended (c ∷ s) rest h = rw (ne→== c 0 h.0, strlen-ended s rest h.1)

-- `strnlen` counts the bytes before the terminator, up to `max`.
pub strnlen-ended :
    (s rest : List ℕ) (max : ℕ) → IsText s → strnlen (ended s rest) max ≡ some (min max (length s))
unfolding strnlen
strnlen-ended s rest zero h = ground arith
strnlen-ended [] rest (suc max) h = ground arith
strnlen-ended (c ∷ s) rest (suc max) h =
    rw (ne→== c 0 h.0, strnlen-ended s rest max h.1) (ap some (omega arith))

-- What `strnlen_terminator` returns is 0 or 1, whatever the string and the terminator are.
pub strnlen_terminator-le_one :
    (str : List ℕ) (max t : ℕ) {n : ℕ} → strnlen_terminator str max t ≡ some n → n ≤ 1
unfolding strnlen_terminator
strnlen_terminator-le_one str zero t e = ground arith
strnlen_terminator-le_one [] (suc max) t e = ground arith
strnlen_terminator-le_one (c ∷ []) (suc max) t e = ground arith
strnlen_terminator-le_one (c ∷ d ∷ str) (suc max) t {n} e =
    ground (arith, strnlen_terminator-le_one str max t {n = n})
