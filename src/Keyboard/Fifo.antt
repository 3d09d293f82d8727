-- ===== src/Keyboard/Fifo.antt =====
-- The keyboard buffer as a queue of the characters that are not yet popped.
use peach_os.Prelude.{
  ℕ, zero, suc, ◌+◌, ◌%◌, ◌^◌, ◌≤◌, ◌<◌, ◌≡◌, ◌≢◌, refl, ap, ◌∙◌, sym, List, [], ◌∷◌, ◌++◌, arith,
  ◌==◌, eq→==, ne→==, if◌then◌else◌, sub32, get_or, set, length, length-set, length-append,
  get_or-set_self, get_or-set_ne, ℕ_discrete,
}
use peach_os.Keyboard.{KeyboardBuffer, backspace, push_to, pop_from}

abbrev pub NonZero : List ℕ → Type 0
NonZero [] = Unit
NonZero (c ∷ q) = (c ≢ 0) × NonZero q

-- The buffer holds the characters `q`, oldest first, from the cell of `head` on, and 0 elsewhere.
pub record Holds (b : KeyboardBuffer) (q : List ℕ) : Type 0 where
  pub size : length b.cells ≡ 1024
  pub head_word : b.head < 2 ^ 32
  pub count : b.tail ≡ (b.head + length q) % 2 ^ 32
  pub fits : length q ≤ 1024
  pub keys : NonZero q
  pub cells : (i : ℕ) → i < 1024 → get_or b.cells ((b.head + i) % 1024) 0 ≡ get_or q i 0

get_or-snoc :
    (q : List ℕ) (c i : ℕ) → get_or (q ++ c ∷ []) i 0 ≡ (if i == length q then c else get_or q i 0)
get_or-snoc [] c zero = refl
get_or-snoc [] c (suc i) = ground arith
get_or-snoc (x ∷ q) c zero = ground arith
get_or-snoc (x ∷ q) c (suc i) = get_or-snoc q c i ∙ ground arith

get_or-past : (q : List ℕ) (i : ℕ) → length q ≤ i → get_or q i 0 ≡ 0
get_or-past [] i h = refl
get_or-past (x ∷ q) zero h = absurd (omega arith)
get_or-past (x ∷ q) (suc i) h = get_or-past q i (omega arith)

NonZero-snoc : (q : List ℕ) (c : ℕ) → NonZero q → c ≢ 0 → NonZero (q ++ c ∷ [])
NonZero-snoc [] c h k = (k, tt)
NonZero-snoc (x ∷ q) c h k = (h.0, NonZero-snoc q c h.1 k)

NonZero-init : (q : List ℕ) (c : ℕ) → NonZero (q ++ c ∷ []) → NonZero q
NonZero-init [] c h = tt
NonZero-init (x ∷ q) c h = (h.0, NonZero-init q c h.1)

-- A cell after one cell is written.
get_or-set :
    (xs : List ℕ) (i j v : ℕ)
    → i < length xs
    → get_or (set xs i v) j 0 ≡ (if i == j then v else get_or xs j 0)
get_or-set xs i j v h = elim (ℕ_discrete i j) [
  | yes e ↦ rw (eq→== i j e, ← e) (get_or-set_self xs i v 0 h)
  | no ne ↦ rw (ne→== i j ne) (get_or-set_ne xs i j v 0 ne)
]

push_to-nonzero :
    (c : ℕ) (b : KeyboardBuffer)
    → c ≢ 0
    → push_to c b ≡ record {
      cells = set b.cells (b.tail % 1024) c;
      tail = (b.tail + 1) % 2 ^ 32;
      head = b.head;
    }
unfolding push_to
push_to-nonzero c b h = rw (ne→== c 0 h)

-- On a buffer that holds a sequence of fewer than 1024 characters, `keyboard_push` of a character that
-- is not 0 appends it to the sequence.
pub push_to-Holds :
    {b : KeyboardBuffer} (q : List ℕ) (c : ℕ)
    → Holds b q
    → length q < 1024
    → c ≢ 0
    → Holds (push_to c b) (q ++ c ∷ [])
push_to-Holds {b} q c h room nz = rw (push_to-nonzero c b nz) (record {
  size = length-set b.cells (b.tail % 1024) c ∙ h.size;
  head_word = h.head_word;
  count = omega (arith, h.count, length-append q (c ∷ []));
  fits = omega (arith, length-append q (c ∷ []));
  keys = NonZero-snoc q c h.keys nz;
  cells = λ i lt.
      get_or-set b.cells (b.tail % 1024) ((b.head + i) % 1024) c (omega (arith, h.size))
      ∙ ground (arith, h.cells i lt, h.count, get_or-snoc q c i)
      ∙ sym (get_or-snoc q c i);
})

-- With no character held, `keyboard_pop` answers 0 and changes nothing.
pub pop_from-nil : {b : KeyboardBuffer} → Holds b [] → pop_from b ≡ (0, b)
unfolding pop_from
pop_from-nil {b} h = rw first
  where
    first : get_or b.cells (b.head % 1024) 0 ≡ 0
    first = ap (λ (i : ℕ). get_or b.cells i 0) (omega arith) ∙ h.cells 0 (omega arith)

pop_from-first :
    (b : KeyboardBuffer) (c : ℕ)
    → get_or b.cells (b.head % 1024) 0 ≡ c
    → c ≢ 0
    → pop_from b ≡ (
      c,
      record { cells = set b.cells (b.head % 1024) 0; tail = b.tail; head = (b.head + 1) % 2 ^ 32 },
    )
unfolding pop_from
pop_from-first b c e h = rw (e, ne→== c 0 h)

-- On a buffer that holds a sequence with a first character, `keyboard_pop` answers that character, the
-- oldest one, and leaves the others.
pub pop_from-cons :
    {b : KeyboardBuffer} (c : ℕ) (q : List ℕ)
    → Holds b (c ∷ q)
    → ((pop_from b).0 ≡ c) × Holds (pop_from b).1 q
pop_from-cons {b} c q h = rw popped (
  refl,
  record {
    size = length-set b.cells (b.head % 1024) 0 ∙ h.size;
    head_word = omega arith;
    count = omega (arith, h.count);
    fits = omega (arith, h.fits);
    keys = h.keys.1;
    cells = λ i lt.
        get_or-set b.cells (b.head % 1024) _ 0 (omega (arith, h.size))
        ∙ rest i lt (ℕ_discrete i 1023);
  },
)
  where
    first : get_or b.cells (b.head % 1024) 0 ≡ c
    first = ap (λ (i : ℕ). get_or b.cells i 0) (omega arith) ∙ h.cells 0 (omega arith)

    popped : pop_from b ≡ (
      c,
      record { cells = set b.cells (b.head % 1024) 0; tail = b.tail; head = (b.head + 1) % 2 ^ 32 },
    )
    popped = pop_from-first b c first h.keys.0

    rest :
        (i : ℕ)
        → i < 1024
        → Dec (i ≡ 1023)
        → (if (b.head % 1024) == (((b.head + 1) % 2 ^ 32 + i) % 1024)
            then 0
            else get_or b.cells (((b.head + 1) % 2 ^ 32 + i) % 1024) 0)
          ≡ get_or q i 0
    rest i lt (yes e) =
        rw (eq→== (b.head % 1024) (((b.head + 1) % 2 ^ 32 + i) % 1024) (omega arith))
          (sym (get_or-past q i (omega (arith, h.fits))))
    rest i lt (no ne) =
        rw (ne→== (b.head % 1024) (((b.head + 1) % 2 ^ 32 + i) % 1024) (omega arith))
          (ap (λ (j : ℕ). get_or b.cells j 0) (omega arith) ∙ h.cells (suc i) (omega arith))

-- On a buffer that holds a sequence with a last character, `keyboard_backspace` takes that character,
-- the newest one, off the sequence.
pub backspace-snoc :
    {b : KeyboardBuffer} (q : List ℕ) (c : ℕ) → Holds b (q ++ c ∷ []) → Holds (backspace b) q
unfolding backspace
backspace-snoc {b} q c h = record {
  size = length-set b.cells _ 0 ∙ h.size;
  head_word = h.head_word;
  count = omega (arith, h.count, length-append q (c ∷ []));
  fits = omega (arith, h.fits, length-append q (c ∷ []));
  keys = NonZero-init q c h.keys;
  cells = λ i lt.
      get_or-set b.cells _ ((b.head + i) % 1024) 0 (omega (arith, h.size))
      ∙ ground (
        arith,
        h.cells i lt,
        h.count,
        get_or-snoc q c i,
        length-append q (c ∷ []),
        get_or-past q i,
      );
}

pop_from-zero : (b : KeyboardBuffer) → get_or b.cells (b.head % 1024) 0 ≡ 0 → (pop_from b).0 ≡ 0
unfolding pop_from
pop_from-zero b e = rw e

-- On an empty buffer `keyboard_backspace` moves the tail below the head, and after the next
-- character that is pushed, and is not 0, `keyboard_pop` answers 0.
pub backspace-nil :
    {b : KeyboardBuffer} (c : ℕ) → Holds b [] → c ≢ 0 → (pop_from (push_to c (backspace b))).0 ≡ 0
unfolding backspace
backspace-nil {b} c h nz = pop_from-zero _ (
    ap (λ (r : KeyboardBuffer). get_or r.cells (r.head % 1024) 0)
      (push_to-nonzero c (backspace b) nz)
    ∙ get_or-set_ne _ (sub32 b.tail 1 % 1024) (b.head % 1024) c 0 (omega (arith, h.count))
    ∙ get_or-set_ne b.cells (sub32 b.tail 1 % 1024) (b.head % 1024) 0 0 (omega (arith, h.count))
    ∙ ap (λ (i : ℕ). get_or b.cells i 0) (omega arith)
    ∙ h.cells 0 (omega arith))

-- With 1024 characters held, `keyboard_push` overwrites the oldest one, and the new character is the
-- next one that is popped.
pub push_to-full :
    {b : KeyboardBuffer} (q : List ℕ) (c : ℕ)
    → Holds b q
    → length q ≡ 1024
    → c ≢ 0
    → (pop_from (push_to c b)).0 ≡ c
push_to-full {b} q c h full nz = rw (push_to-nonzero c b nz) (
    ap (λ (r : ℕ × KeyboardBuffer). r.0)
      (pop_from-first
        (record b { cells = set b.cells (b.tail % 1024) c; tail = (b.tail + 1) % 2 ^ 32 }) c
        (rw (let e : b.tail % 1024 ≡ b.head % 1024 = omega (arith, h.count) in e)
          (get_or-set_self b.cells (b.head % 1024) c 0 (omega (arith, h.size))))
        nz))
