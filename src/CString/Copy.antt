-- ===== src/CString/Copy.antt =====
-- `strcpy` and `strncpy`: the destination buffer after the copy.
use peach_os.Prelude.{
  ℕ, zero, suc, ◌-◌, ◌<◌, ◌≤◌, ◌≡◌, refl, ap, ◌∙◌, take-all, some, List, [], ◌∷◌, arith, take, drop,
  length, ne→==,
}
use peach_os.CString.{IsText, ended, strcpy, strncpy, strncpy_loop}

-- `strcpy` puts the text and its terminator in front of what the destination holds behind them.
pub strcpy-ended :
    (s rest dest : List ℕ)
    → IsText s
    → length s < length dest
    → strcpy dest (ended s rest) ≡ some (ended s (drop (suc (length s)) dest))
unfolding strcpy
strcpy-ended s rest [] h fits = absurd (omega arith)
strcpy-ended [] rest (d ∷ dest) h fits = refl
strcpy-ended (c ∷ s) rest (d ∷ dest) h fits =
    rw (ne→== c 0 h.0, strcpy-ended s rest dest h.1 (omega arith))

strncpy_loop-ended :
    (k : ℕ) (s rest dest : List ℕ)
    → IsText s
    → k < length dest
    → strncpy_loop k dest (ended s rest)
      ≡ some (ended (take k s) (drop (suc (length (take k s))) dest))
unfolding strncpy_loop
strncpy_loop-ended k s rest [] h fits = absurd (omega arith)
strncpy_loop-ended zero s rest (d ∷ dest) h fits = refl
strncpy_loop-ended (suc k) [] rest (d ∷ dest) h fits = refl
strncpy_loop-ended (suc k) (c ∷ s) rest (d ∷ dest) h fits =
    rw (ne→== c 0 h.0, strncpy_loop-ended k s rest dest h.1 (omega arith))

-- For a terminated text and a count `n` above 0 that the destination has room for, `strncpy` copies at most `n - 1` bytes of the text, always terminates
-- the copy, and leaves the bytes behind it alone.
pub strncpy-ended :
    (s rest dest : List ℕ) (n : ℕ)
    → IsText s
    → 0 < n
    → n ≤ length dest
    → strncpy dest (ended s rest) n
      ≡ some (ended (take (n - 1) s) (drop (suc (length (take (n - 1) s))) dest))
unfolding strncpy
strncpy-ended s rest dest n h pos_n fits = strncpy_loop-ended (n - 1) s rest dest h (omega arith)

-- The same for a text that is shorter than the count.
pub strncpy-whole :
    (s rest dest : List ℕ) (n : ℕ)
    → IsText s
    → length s < n
    → n ≤ length dest
    → strncpy dest (ended s rest) n ≡ some (ended s (drop (suc (length s)) dest))
strncpy-whole s rest dest n h short fits =
    strncpy-ended s rest dest n h (omega arith) fits
    ∙ ap (λ (t : List ℕ). some (ended t (drop (suc (length t)) dest)))
        (take-all (n - 1) s (omega arith))
