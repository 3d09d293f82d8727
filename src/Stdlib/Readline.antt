-- ===== src/Stdlib/Readline.antt =====
-- Reading a line as editing a stack of characters.
use peach_os.Prelude.{
  ℕ, suc, ◌+◌, ◌-◌, ◌<◌, ◌≡◌, ◌>>=◌, ◌&&◌, ap, ◌∙◌, arith, Option, none, some, List, [], ◌∷◌, ◌==◌,
  leb, ltb, true, false, if◌then◌else◌, set, length, u8, ℕ_discrete, eq→==, ne→==,
}
use peach_os.Stdlib.{readline_from, peachos_terminal_readline}

-- The line after some keys, its last character first: 13 ends it, and 8 takes the last character back,
-- if there is one, and is a character otherwise.
unfoldable pub edit : (keys line : List ℕ) → Option (List ℕ)
edit [] line = none
edit (key ∷ keys) [] = let typed = edit keys (u8 key ∷ []) in if key == 13 then some [] else typed
edit (key ∷ keys) (c ∷ line) =
    let erased = edit keys line in
    let typed = edit keys (u8 key ∷ c ∷ line) in
    if key == 13 then some (c ∷ line) else if key == 0x08 then erased else typed

-- A line, turned round, before other bytes.
abbrev pub before : (line rest : List ℕ) → List ℕ
before [] rest = rest
before (c ∷ line) rest = before line (c ∷ rest)

set-before :
    (line rest : List ℕ) (k v : ℕ)
    → set (before line rest) (length line + k) v ≡ before line (set rest k v)
set-before [] rest k v = ap (λ (i : ℕ). set rest i v) (omega arith)
set-before (c ∷ line) rest k v =
    ap (λ (i : ℕ). set (before line (c ∷ rest)) i v) {x = suc (length line) + k}
      {y = length line + suc k} (omega arith)
    ∙ set-before line (c ∷ rest) (suc k) v

set_next :
    (line rest : List ℕ) (r v : ℕ)
    → set (before line (r ∷ rest)) (length line) v ≡ before line (v ∷ rest)
set_next line rest r v =
    ap (λ (i : ℕ). set (before line (r ∷ rest)) i v) {x = length line} {y = length line + 0}
      (omega arith)
    ∙ set-before line (r ∷ rest) 0 v

ended_line :
    (line end rest : List ℕ)
    → some line ≡ some end
    → some (before line (0 ∷ rest)) ≡ some (before end (0 ∷ rest))
ended_line line end rest e = ap (λ (o : Option (List ℕ)). o >>= λ t. some (before t (0 ∷ rest))) e

readline_from-edit :
    (keys line rest : List ℕ) (max : ℕ) (end : List ℕ)
    → length line + length keys < max
    → length keys < length rest
    → edit keys line ≡ some end
    → (rest' : List ℕ) × (readline_from keys (length line) max (before line rest)
        ≡ some (before end (0 ∷ rest')))
unfolding readline_from edit
readline_from-edit [] line rest max end l room e = absurd (ground (arith, e))
readline_from-edit (key ∷ keys) line [] max end l room e = absurd (omega arith)
readline_from-edit (key ∷ keys) [] (r ∷ rest) max end l room e =
    let run : ltb 0 (max - 1) ≡ true = ground arith in
    elim (ℕ_discrete key 13) [
      | yes k ↦ (rest, rw (run, eq→== key 13 k) (ended_line [] end rest (rw (eq→== key 13 k) at e)))
      | no k ↦
          let plain : ((key == 0x08) && false) ≡ false = ground arith in
          rw (run, ne→== key 13 k, plain)
            (readline_from-edit keys (u8 key ∷ []) rest max end (omega arith) (omega arith)
              (rw (ne→== key 13 k) at e))
    ]
readline_from-edit (key ∷ keys) (c ∷ line) (r ∷ rest) max end l room e =
    let run : ltb (suc (length line)) (max - 1) ≡ true = ground arith in
    let inside : leb 1 (suc (length line)) ≡ true = ground arith in
    elim (ℕ_discrete key 13) [
      | yes k ↦ (
        rest,
        rw (run, eq→== key 13 k, set_next (c ∷ line) rest r 0)
            (ended_line (c ∷ line) end rest (rw (eq→== key 13 k) at e)),
      )
      | no k ↦ elim (ℕ_discrete key 8) [
        | yes b ↦
            let back : suc (length line) - 1 ≡ length line = omega arith in
            rw (run, ne→== key 13 k, eq→== key 8 b, inside, back, set_next line (r ∷ rest) c 0)
              (readline_from-edit keys line (0 ∷ r ∷ rest) max end (omega arith) (omega arith)
                (rw (ne→== key 13 k, eq→== key 8 b) at e))
        | no b ↦
            let on : suc (length line) + 1 ≡ suc (suc (length line)) = omega arith in
            rw (run, ne→== key 13 k, ne→== key 8 b, on, set_next (c ∷ line) rest r (u8 key))
              (readline_from-edit keys (u8 key ∷ c ∷ line) rest max end (omega arith) (omega arith)
                (rw (ne→== key 13 k, ne→== key 8 b) at e))
      ]
    ]

-- For fewer keys than the count and than the buffer's bytes, whose editing gives a line: reading ends,
-- and the buffer begins with that line and a null byte.
pub peachos_terminal_readline-edit :
    (keys out : List ℕ) (max : ℕ) (line : List ℕ)
    → length keys < max
    → length keys < length out
    → edit keys [] ≡ some line
    → (rest : List ℕ) × (peachos_terminal_readline keys max out ≡ some (before line (0 ∷ rest)))
unfolding peachos_terminal_readline
peachos_terminal_readline-edit keys out max line l room e =
    readline_from-edit keys [] out max line (omega arith) room e
