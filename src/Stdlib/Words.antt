-- ===== src/Stdlib/Words.antt =====
-- programs/stdlib/src/string.c: what `strtok` makes of a text.
use peach_os.Prelude.{
  ℕ, zero, suc, ◌<◌, ◌≤◌, ◌≡◌, ◌⊎◌, inl, inr, refl, ap, ◌∙◌, arith, Bool, true, false, Option, none,
  some, ◌>>=◌, List, [], ◌∷◌, if◌then◌else◌, length, ne→==, Bool-cases, not,
}
use peach_os.CString.{IsText, ended}
use peach_os.Stdlib.Strtok.{
  is_delimiter, skip_delimiters, find_end, next_token, strtok, tokens_from,
}

pub bind_assoc :
    {A B C : Type 0} (m : Option A) (f : A → Option B) (g : B → Option C)
    → (m >>= λ a. f a >>= g) ≡ ((m >>= f) >>= g)
bind_assoc none f g = refl
bind_assoc (some a) f g = refl

module _ (delimiters : List ℕ) where
  -- A character before a word that goes on, if it does.
  abbrev extend : (c : ℕ) → (goes_on : Bool) → List (List ℕ) → List (List ℕ)
  extend c true (word ∷ ws) = (c ∷ word) ∷ ws
  extend c true [] = (c ∷ []) ∷ []
  extend c false ws = (c ∷ []) ∷ ws

  -- The longest runs of characters that are no delimiters.
  unfoldable pub words : List ℕ → List (List ℕ)
  words [] = []
  words (c ∷ []) = if is_delimiter c delimiters then [] else (c ∷ []) ∷ []
  words (c ∷ d ∷ text) =
      let rest = words (d ∷ text) in
      if is_delimiter c delimiters then rest else extend c (not (is_delimiter d delimiters)) rest

  words-delimiter :
      (c : ℕ) (text : List ℕ) → is_delimiter c delimiters ≡ true → words (c ∷ text) ≡ words text
  unfolding words
  words-delimiter c [] e = rw e refl
  words-delimiter c (d ∷ text) e = rw e refl

  find_end-words :
      (text rest : List ℕ) (c : ℕ)
      → IsText text
      → is_delimiter c delimiters ≡ false
      → (token : List ℕ) × (t : List ℕ) × (find_end (ended text rest) delimiters
          ≡ some (token, ended t rest))
        × (length t ≤ length text)
        × IsText t
        × (words (c ∷ text) ≡ (c ∷ token) ∷ words t)
        × IsText token
  unfolding find_end words
  find_end-words [] rest c h n = ([], [], refl, omega arith, tt, rw n refl, tt)
  find_end-words (d ∷ text) rest c (d0, h) n = elim (Bool-cases (is_delimiter d delimiters)) [
    | inl yes' ↦ (
      [],
      text,
      rw (ne→== d 0 d0, yes') refl,
      omega arith,
      h,
      rw (n, yes') (ap (λ ws. (c ∷ []) ∷ ws) (words-delimiter d text yes')),
      tt,
    )
    | inr no' ↦
        let (token, t, e, l, i, w, it) = find_end-words text rest d h no' in
        (
          d ∷ token,
          t,
          rw (ne→== d 0 d0, no', e) refl,
          omega (arith, l),
          i,
          rw (n, no', w) refl,
          (d0, it),
        )
  ]

  -- The end of a text, or the start of a word.
  abbrev AtWord : List ℕ → Type 0
  AtWord [] = Unit
  AtWord (c ∷ t) = is_delimiter c delimiters ≡ false

  skip_delimiters-words :
      (text rest : List ℕ)
      → IsText text
      → is_delimiter 0 delimiters ≡ false
      → (t : List ℕ) × (skip_delimiters (ended text rest) delimiters ≡ some (ended t rest))
        × (length t ≤ length text)
        × IsText t
        × (words text ≡ words t)
        × AtWord t
  unfolding skip_delimiters
  skip_delimiters-words [] rest h z = ([], rw z refl, omega arith, tt, refl, tt)
  skip_delimiters-words (d ∷ text) rest (d0, h) z = elim (Bool-cases (is_delimiter d delimiters)) [
    | inl yes' ↦
        let (t, e, l, i, w, s) = skip_delimiters-words text rest h z in
        (t, rw (yes', e) refl, omega (arith, l), i, words-delimiter d text yes' ∙ w, s)
    | inr no' ↦ (d ∷ text, rw no' refl, omega arith, (d0, h), refl, no')
  ]

  -- What a call answers for a text.
  abbrev pub Next : (text rest : List ℕ) → Type 0
  Next text rest =
      ((words text ≡ []) × (next_token delimiters (ended text rest) ≡ some (none, none)))
      ⊎ ((token : List ℕ) × (t : List ℕ) × (next_token delimiters (ended text rest)
            ≡ some (some token, some (ended t rest)))
          × (words text ≡ token ∷ words t)
          × (length t < length text)
          × IsText t
          × IsText token)

  pub next_token_lem :
      (text rest : List ℕ) → IsText text → is_delimiter 0 delimiters ≡ false → Next text rest
  unfolding next_token find_end words
  next_token_lem text rest h z =
      let (t, e, l, i, w, s) = skip_delimiters-words text rest h z in from t e l i w s
    where
      from :
          (t : List ℕ)
          → skip_delimiters (ended text rest) delimiters ≡ some (ended t rest)
          → length t ≤ length text
          → IsText t
          → words text ≡ words t
          → AtWord t
          → Next text rest
      from [] e l i w s = inl (w, rw e refl)
      from (c ∷ t) e l (c0, i) w n =
          let (token, t', f, l', i', w', it) = find_end-words t rest c i n in
          inr (
            c ∷ token,
            t',
            rw (e, ne→== c 0 c0, n, f) refl,
            w ∙ w',
            omega (arith, l, l'),
            i',
            (c0, it),
          )

  tokens_from-words :
      (fuel : ℕ) (text rest : List ℕ)
      → length text ≤ fuel
      → IsText text
      → is_delimiter 0 delimiters ≡ false
      → (next_token delimiters (ended text rest) >>= λ (token, sp).
          tokens_from fuel delimiters token sp)
        ≡ some (words text)
  unfolding tokens_from strtok
  tokens_from-words zero text rest l h z = elim (next_token_lem text rest h z) [
    | inl (w, e) ↦ rw (e, w) refl
    | inr (token, t, e, w, l', i, it) ↦ absurd (omega (arith, l, l'))
  ]
  tokens_from-words (suc fuel) text rest l h z = elim (next_token_lem text rest h z) [
    | inl (w, e) ↦ rw (e, w) refl
    | inr (token, t, e, w, l', i, it) ↦
        let tail = tokens_from-words fuel t rest (omega (arith, l, l')) i z in
        rw (e, w)
          (bind_assoc (next_token delimiters (ended t rest))
              (λ (token', sp'). tokens_from fuel delimiters token' sp') (λ r. some (token ∷ r))
            ∙ ap (λ m. m >>= λ r. some (token ∷ r)) tail)
  ]

  -- On a text that a 0 ends, with delimiters other than the 0 and no text under way, the first call
  -- and as many further calls as the text is long give its words, the longest runs of other
  -- characters, in their order, and then the null pointer.
  strtok-words :
      (fuel : ℕ) (text rest : List ℕ)
      → length text ≤ fuel
      → IsText text
      → is_delimiter 0 delimiters ≡ false
      → (strtok (some (ended text rest)) delimiters none >>= λ (token, sp).
          tokens_from fuel delimiters token sp)
        ≡ some (words text)
  unfolding strtok
  strtok-words = tokens_from-words
