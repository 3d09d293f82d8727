-- ===== src/Stdlib/Strtok.antt =====
-- programs/stdlib/src/string.c: `strtok`, and the tokens of a text. `sp` is the text from the static pointer on, `none` is the
-- null pointer; an outer `none` is a read past the end of a text.
use peach_os.Prelude.{
  ℕ, zero, suc, Bool, false, ◌||◌, Option, none, some, ◌>>=◌, List, [], ◌∷◌, ◌==◌, if◌then◌else◌,
}

unfoldable pub is_delimiter : ℕ → List ℕ → Bool
is_delimiter c [] = false
is_delimiter c (d ∷ delimiters) = (c == d) || is_delimiter c delimiters

-- The first loop: from the first character on that is no delimiter.
unfoldable pub skip_delimiters : (p_start delimiters : List ℕ) → Option (List ℕ)
unfolding is_delimiter
skip_delimiters [] delimiters = none
skip_delimiters (c ∷ p) delimiters =
    let rest = skip_delimiters p delimiters in
    if is_delimiter c delimiters then rest else some (c ∷ p)

-- The second loop: the token, and the text from `sp` on behind it.
unfoldable pub find_end : (sp delimiters : List ℕ) → Option (List ℕ × List ℕ)
unfolding is_delimiter
find_end [] delimiters = none
find_end (c ∷ sp) delimiters =
    let rest = find_end sp delimiters >>= λ (token, end). some (c ∷ token, end) in
    if c == 0 then some ([], c ∷ sp) else if is_delimiter c delimiters then some ([], sp) else rest

-- The token at `sp`, and `sp` behind it: null pointers where there is no token.
unfoldable pub next_token : (delimiters sp : List ℕ) → Option (Option (List ℕ) × Option (List ℕ))
next_token delimiters sp = skip_delimiters sp delimiters >>= λ p_start. elim p_start [
  | [] ↦ none
  | c ∷ p ↦
      if c == 0
      then some (none, none)
      else find_end (c ∷ p) delimiters >>= λ (token, end). some (some token, some end)
]

-- A text is taken up only while no other is under way.
unfoldable pub strtok :
    (str : Option (List ℕ))
    → (delimiters : List ℕ) → (sp : Option (List ℕ)) → Option (Option (List ℕ) × Option (List ℕ))
unfolding next_token
strtok none delimiters none = some (none, none)
strtok (some str) delimiters none = next_token delimiters str
strtok str delimiters (some sp) = next_token delimiters sp

-- The calls of `peachos_parse_command` behind the first one, up to the null pointer; the fuel bounds them.
unfoldable pub tokens_from :
    (fuel : ℕ) → (delimiters : List ℕ) → (token sp : Option (List ℕ)) → Option (List (List ℕ))
unfolding strtok
tokens_from fuel delimiters none sp = some []
tokens_from zero delimiters (some token) sp = none
tokens_from (suc fuel) delimiters (some token) sp = strtok none delimiters sp >>= λ (token', sp').
    tokens_from fuel delimiters token' sp' >>= λ rest. some (token ∷ rest)
