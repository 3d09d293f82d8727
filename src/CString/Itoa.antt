-- ===== src/CString/Itoa.antt =====
-- `itoa`: its text is the decimal notation of the number, and fits its buffer.
use peach_os.Prelude.{
  ℕ, zero, suc, ◌+◌, ◌-◌, ◌*◌, ◌/◌, ◌%◌, ◌^◌, ◌<◌, ◌≤◌, ◌≡◌, refl, sym, ap, ◌∙◌, ◌≢◌, some, List,
  [], ◌∷◌, arith, length, ◌==◌, ne→==, eq→==, if◌then◌else◌, ℤ, pos, negsuc, ◌≤ℤ◌, neg_ℕ,
  ℕ_discrete,
}
use native.Mathlib.Nat.{pow-suc}
use peach_os.CString.{itoa, itoa_text, itoa_loop, or_zero}

-- The number that a text of digits stands for, from the value of the digits before it.
pub digits_value : ℕ → List ℕ → ℕ
digits_value v [] = v
digits_value v (c ∷ s) = digits_value (v * 10 + (c - 48)) s

-- The integer that a text of digits, after `-` or not, stands for.
pub parse_int : List ℕ → ℤ
unfolding digits_value
parse_int [] = pos 0
parse_int (c ∷ s) = if c == b'-' then neg_ℕ (digits_value 0 s) else pos (digits_value 0 (c ∷ s))

abbrev pub AllDigits : List ℕ → Type 0
AllDigits [] = Unit
AllDigits (c ∷ s) = (48 ≤ c) × (c ≤ 57) × AllDigits s

-- What the loop leaves, started at `n` with `text` written: digits that read on as `n` and `text`.
record Written (fuel n : ℕ) (text : List ℕ) (out : List ℕ) : Type 0 where
  run : itoa_loop fuel n text ≡ some out
  value : digits_value 0 out ≡ digits_value n text
  digits : AllDigits out
  short : length out ≤ fuel + length text

Written-step :
    (fuel n : ℕ) (text : List ℕ) (out : List ℕ)
    → n ≢ 0
    → Written fuel (n / 10) ((48 + n % 10) ∷ text) out
    → Written (suc fuel) n text out
unfolding itoa_loop digits_value
Written-step fuel n text out ne w = record {
  run = rw (ne→== n 0 ne) w.run;
  value = w.value ∙ ap (λ v. digits_value v text) (omega arith);
  digits = w.digits;
  short = omega (arith, w.short);
}

itoa_loop-Written :
    (fuel n : ℕ) (text : List ℕ)
    → n < 10 ^ fuel
    → AllDigits text
    → (out : List ℕ) × Written fuel n text out
itoa_loop-Written zero n text h d = (
  text,
  record {
    run = unfold itoa_loop in rw (eq→== n 0 (omega arith));
    value = ap (λ v. digits_value v text) {x = 0} (omega arith);
    digits = d;
    short = omega arith;
  },
)
itoa_loop-Written (suc fuel) n text h d = elim (ℕ_discrete n 0) [
  | yes z ↦ (
    text,
    record {
      run = unfold itoa_loop in rw (eq→== n 0 z);
      value = ap (λ v. digits_value v text) {x = 0} (sym z);
      digits = d;
      short = omega arith;
    },
  )
  | no ne ↦
      let (out, w) =
        itoa_loop-Written fuel (n / 10) ((48 + n % 10) ∷ text) (omega (arith, pow-suc 10 fuel))
          (omega arith, omega arith, d) in
      (out, Written-step fuel n text out ne w)
]

-- Reading the digits of `itoa`, with `0` written for none.
parse-or_zero : (out : List ℕ) → AllDigits out → parse_int (or_zero out) ≡ pos (digits_value 0 out)
unfolding parse_int or_zero
parse-or_zero [] d = refl
parse-or_zero (c ∷ s) d = rw (ne→== c b'-' (omega arith))

digits_value-or_zero : (out : List ℕ) → digits_value 0 (or_zero out) ≡ digits_value 0 out
unfolding digits_value or_zero
digits_value-or_zero [] = refl
digits_value-or_zero (c ∷ s) = refl

length-or_zero : (out : List ℕ) (k : ℕ) → length out ≤ suc k → length (or_zero out) ≤ suc k
unfolding or_zero
length-or_zero [] k h = omega arith
length-or_zero (c ∷ s) k h = h

or_zero-digits :
    (out : List ℕ) → AllDigits out → AllDigits (or_zero out) × (0 < length (or_zero out))
unfolding or_zero
or_zero-digits [] d = ((omega arith, omega arith, tt), omega arith)
or_zero-digits (c ∷ s) d = (d, omega arith)

-- Digits, one at least, with a `-` before them for a negative number.
abbrev pub IsDecimal : ℤ → List ℕ → Type 0
IsDecimal (pos n) out = AllDigits out × (0 < length out)
IsDecimal (negsuc n) out = (ds : List ℕ) × (out ≡ b'-' ∷ ds) × AllDigits ds × (0 < length ds)

-- For every `int`, `itoa` returns a text of one digit at least, with a `-` before the digits for a
-- negative number, that reads back as the integer and has at most 11 bytes (so the text and its
-- terminator fit the 12-byte buffer).
pub itoa-parse :
    (z : ℤ)
    → negsuc (2 ^ 31 - 1) ≤ℤ z
    → z ≤ℤ pos (2 ^ 31 - 1)
    → (out : List ℕ) × (itoa z ≡ some out)
      × IsDecimal z out
      × (parse_int out ≡ z)
      × (length out ≤ 11)
unfolding itoa
itoa-parse (pos n) lo hi =
    let (out, w) = itoa_loop-Written 10 n [] (omega arith) tt in
    (
      or_zero out,
      unfold itoa_text in rw w.run,
      or_zero-digits out w.digits,
      parse-or_zero out w.digits ∙ ap pos (w.value ∙ unfold digits_value in refl),
      omega (arith, length-or_zero out 9 (omega (arith, w.short))),
    )
itoa-parse (negsuc n) lo hi =
    let (out, w) = itoa_loop-Written 10 (suc n) [] (omega arith) tt in
    (
      b'-' ∷ or_zero out,
      unfold itoa_text in rw w.run,
      (or_zero out, refl, (or_zero-digits out w.digits).0, (or_zero-digits out w.digits).1),
      unfold parse_int in
          ap neg_ℕ (digits_value-or_zero out ∙ w.value ∙ unfold digits_value in refl),
      omega (arith, length-or_zero out 9 (omega (arith, w.short))),
    )
