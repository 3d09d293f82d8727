-- ===== src/Prelude/Bits.antt =====
-- `&` and `|` of a number with disjoint fields, as arithmetic.
use Prim.Native.Nat.{ℕ, zero, suc, ◌+◌, ◌-◌, ◌*◌, ◌/◌, ◌%◌, ◌^◌, ◌<◌, ◌≤◌, min, max}
use Prim.Native.Nat.{bit_and, bit_or, digits, bit_and-bitwise, bit_or-bitwise}
use mathlib.Core.Path.{◌≡◌, refl, ap, ap₂, ◌∙◌}
use native.Mathlib.Nat.{pow-suc, one-le-pow}
use native.Mathlib.Omega.{arith}

-- The recursion that the operations mean makes one round for each unit of its bound; rounds after the
-- first `x` change nothing.
extra_rounds :
    (rest : ℕ → ℕ) (op : ℕ → ℕ → ℕ) (k n x y : ℕ)
    → x ≤ n
    → digits rest op (n + k) x y ≡ digits rest op n x y
extra_rounds rest op zero n x y h = ap (λ (m : ℕ). digits rest op m x y) (omega arith)
extra_rounds rest op (suc k) zero zero y h =
    ap (λ (m : ℕ). digits rest op m zero y) {x = zero + suc k} {y = suc k} (omega arith)
extra_rounds rest op (suc k) zero (suc x) y h = absurd (omega arith)
extra_rounds rest op (suc k) (suc n) zero y h =
    ap (λ (m : ℕ). digits rest op m zero y) {x = suc n + suc k} {y = suc (n + suc k)} (omega arith)
extra_rounds rest op (suc k) (suc n) (suc x) y h =
    ap (λ (m : ℕ). digits rest op m (suc x) y) {x = suc n + suc k} {y = suc (n + suc k)}
      (omega arith)
    ∙ ap (λ (m : ℕ). m * 2 + op (suc x % 2) (y % 2))
        (extra_rounds rest op (suc k) n (suc x / 2) (y / 2) (omega arith))

rounds_below :
    (rest : ℕ → ℕ) (op : ℕ → ℕ → ℕ) (n x y : ℕ)
    → x ≤ n
    → digits rest op n x y ≡ digits rest op x x y
rounds_below rest op n x y h =
    ap (λ (m : ℕ). digits rest op m x y) {x = n} {y = x + (n - x)} (omega arith)
    ∙ extra_rounds rest op (n - x) x x y (omega arith)

-- `|` and `&` from the halves of their arguments and the lowest bits.
pub bit_or_halves : (x y : ℕ) → bit_or x y ≡ max (x % 2) (y % 2) + 2 * bit_or (x / 2) (y / 2)
bit_or_halves zero y = simp bit_or-bitwise (omega arith)
bit_or_halves (suc x) y =
    simp bit_or-bitwise
      (omega (arith, rounds_below (λ r. r) max x (suc x / 2) (y / 2) (omega arith)))

pub bit_and_halves : (x y : ℕ) → bit_and x y ≡ min (x % 2) (y % 2) + 2 * bit_and (x / 2) (y / 2)
bit_and_halves zero y = simp bit_and-bitwise (omega arith)
bit_and_halves (suc x) y =
    simp bit_and-bitwise
      (omega (arith, rounds_below (λ r. 0) min x (suc x / 2) (y / 2) (omega arith)))

bit_or-zero_below : (n a : ℕ) → a ≤ n → bit_or a 0 ≡ a
bit_or-zero_below n zero h = refl
bit_or-zero_below zero (suc a) h = absurd (omega arith)
bit_or-zero_below (suc n) (suc a) h =
    omega (arith, bit_or_halves (suc a) 0, bit_or-zero_below n (suc a / 2) (omega arith))

pub bit_or-zero : (a : ℕ) → bit_or a 0 ≡ a
bit_or-zero a = bit_or-zero_below a a (omega arith)

bit_and-zero_below : (n a : ℕ) → a ≤ n → bit_and a 0 ≡ 0
bit_and-zero_below n zero h = refl
bit_and-zero_below zero (suc a) h = absurd (omega arith)
bit_and-zero_below (suc n) (suc a) h =
    omega (arith, bit_and_halves (suc a) 0, bit_and-zero_below n (suc a / 2) (omega arith))

pub bit_and-zero : (a : ℕ) → bit_and a 0 ≡ 0
bit_and-zero a = bit_and-zero_below a a (omega arith)

-- `m << k`, `a >> k` and `k` ones, doubled and halved step by step.
abbrev pub shifted : ℕ → ℕ → ℕ
shifted zero m = m
shifted (suc k) m = 2 * shifted k m

abbrev pub halved : ℕ → ℕ → ℕ
halved zero a = a
halved (suc k) a = halved k (a / 2)

abbrev pub ones : ℕ → ℕ
ones zero = 0
ones (suc k) = 2 * ones k + 1

pub bit_and-shifted : (k a m : ℕ) → bit_and a (shifted k m) ≡ shifted k (bit_and (halved k a) m)
bit_and-shifted zero a m = refl
bit_and-shifted (suc k) a m = omega (
  arith,
  bit_and_halves a (2 * shifted k m),
  bit_and-shifted k (a / 2) m,
  ap (bit_and (a / 2)) {x = 2 * shifted k m / 2} {y = shifted k m} (omega arith),
)

-- A mask of `k` ones keeps what fits it.
pub bit_and-ones : (k a : ℕ) → a < 2 ^ k → bit_and a (ones k) ≡ a
bit_and-ones zero a h = omega (arith, bit_and-zero a)
bit_and-ones (suc k) a h = omega (
  arith,
  pow-suc 2 k,
  bit_and_halves a (2 * ones k + 1),
  bit_and-ones k (a / 2) (omega (arith, pow-suc 2 k)),
  ap (bit_and (a / 2)) {x = (2 * ones k + 1) / 2} {y = ones k} (omega arith),
)

pub bit_or-shifted : (k q r : ℕ) → r < 2 ^ k → bit_or (shifted k q) r ≡ shifted k q + r
bit_or-shifted zero q zero h = omega (arith, bit_or-zero q)
bit_or-shifted zero q (suc r) h = absurd (omega arith)
bit_or-shifted (suc k) q r h = omega (
  arith,
  pow-suc 2 k,
  bit_or_halves (2 * shifted k q) r,
  bit_or-shifted k q (r / 2) (omega (arith, pow-suc 2 k)),
  ap (λ (s : ℕ). bit_or s (r / 2)) {x = 2 * shifted k q / 2} {y = shifted k q} (omega arith),
)

-- The mask of a page frame drops the low 12 bits of a word.
pub bit_and-frame : (x : ℕ) → x < 2 ^ 32 → bit_and x 0xFFFFF000 ≡ x / 4096 * 4096
bit_and-frame x h =
    bit_and-shifted 12 x 0xFFFFF
    ∙ ap (shifted 12) (bit_and-ones 20 (halved 12 x) (omega arith))
    ∙ omega arith

-- The bits of a page frame and of its flags are disjoint.
pub bit_or-frame : (p f : ℕ) → p % 4096 ≡ 0 → f < 4096 → bit_or p f ≡ p + f
bit_or-frame p f h k =
    ap (λ (q : ℕ). bit_or q f) {y = shifted 12 (p / 4096)} (omega arith)
    ∙ bit_or-shifted 12 (p / 4096) f k
    ∙ omega arith

mul-pow-suc : (q k : ℕ) → q * 2 ^ suc k ≡ 2 * (q * 2 ^ k)
mul-pow-suc q k = omega (arith, ap (λ (t : ℕ). q * t) (pow-suc 2 k))

bit_and-ones_fields : (k q r : ℕ) → r < 2 ^ k → bit_and (q * 2 ^ k + r) (ones k) ≡ r
bit_and-ones_fields zero q r fits = omega (arith, bit_and-zero (q * 1 + r))
bit_and-ones_fields (suc k) q r fits = omega (
  arith,
  mul-pow-suc q k,
  pow-suc 2 k,
  bit_and_halves (q * 2 ^ suc k + r) (2 * ones k + 1),
  bit_and-ones_fields k q (r / 2) (omega (arith, pow-suc 2 k)),
  halves,
)
  where
    left : (q * 2 ^ suc k + r) / 2 ≡ q * 2 ^ k + r / 2
    left = omega (arith, mul-pow-suc q k)

    right : (2 * ones k + 1) / 2 ≡ ones k
    right = omega arith

    halves :
        bit_and ((q * 2 ^ suc k + r) / 2) ((2 * ones k + 1) / 2)
        ≡ bit_and (q * 2 ^ k + r / 2) (ones k)
    halves = ap₂ bit_and left right

-- A mask of `k` ones is the remainder.
pub bit_and-low : (k a : ℕ) → bit_and a (ones k) ≡ a % 2 ^ k
bit_and-low k a =
    ap (λ (x : ℕ). bit_and x (ones k)) (ground (arith, one-le-pow k 2))
    ∙ bit_and-ones_fields k (a / 2 ^ k) (a % 2 ^ k) (ground (arith, one-le-pow k 2))
