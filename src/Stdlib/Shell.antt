-- ===== src/Stdlib/Shell.antt =====
-- programs/shell/src/shell.c: a round of the loop in `main`, from the keys of a line to the system
-- call; what is printed is left out.
use peach_os.Prelude.{
  ℕ, suc, ◌+◌, ◌-◌, ◌<◌, ◌≤◌, ◌≡◌, refl, sym, ap, ◌∙◌, arith, Option, none, some, ◌>>=◌, List, [],
  ◌∷◌, ◌++◌, ℤ, length, length-drop, map, take, drop,
}
use mathlib.Core.List.{append_assoc}
use peach_os.CString.{IsText, ended, strlen, strncpy}
use peach_os.CString.Length.{strlen-ended}
use peach_os.CString.Copy.{strncpy-whole}
use peach_os.Stdlib.{peachos_terminal_readline}
use peach_os.Stdlib.Readline.{edit, before, peachos_terminal_readline-edit}
use peach_os.Stdlib.Words.{words}
use peach_os.Stdlib.Command.{spaces, run_arguments, peachos_system_run}
use peach_os.Stdlib.Arguments.{text_of, Allocates, peachos_system_run-words}

-- `buf` is what the line's buffer holds before, `copy` and `scommand` what those of
-- `peachos_system_run` and `peachos_parse_command` hold.
unfoldable pub shell_round :
    (allocated : ℕ → Option (List ℕ)) (system : List (List ℕ) → ℤ)
    (keys current_path buf copy scommand : List ℕ)
    → (sp : Option (List ℕ)) → Option (ℤ × Option (List ℕ))
unfolding strlen strncpy peachos_terminal_readline peachos_system_run
shell_round allocated system keys current_path buf copy scommand sp =
    strlen current_path >>= λ path_length. strncpy buf current_path (path_length + 1) >>= λ path.
    peachos_terminal_readline keys (1024 - path_length) (drop path_length path) >>= λ line.
    peachos_system_run allocated system copy scommand (take path_length path ++ line) sp

-- The line that `edit` makes, in its order.
abbrev pub line_of : List ℕ → List ℕ
line_of line = before line []

take-++ : (xs ys : List ℕ) → take (length xs) (xs ++ ys) ≡ xs
take-++ [] ys = refl
take-++ (x ∷ xs) ys = ap (λ t. x ∷ t) (take-++ xs ys)

drop-++ : (xs ys : List ℕ) → drop (length xs) (xs ++ ys) ≡ ys
drop-++ [] ys = refl
drop-++ (x ∷ xs) ys = drop-++ xs ys

before-++ : (line xs ys : List ℕ) → before line (xs ++ ys) ≡ before line xs ++ ys
before-++ [] xs ys = refl
before-++ (c ∷ line) xs ys = before-++ line (c ∷ xs) ys

IsText-++ : (s t : List ℕ) → IsText s → IsText t → IsText (s ++ t)
IsText-++ [] t hs ht = ht
IsText-++ (c ∷ s) t (c0, hs) ht = (c0, IsText-++ s t hs ht)

-- Let the first `n` calls of `peachos_malloc` have memory and the next one none, let the path and the
-- line that the editing of the keys gives be texts, let there be fewer keys than the buffer has bytes
-- behind the path, and let no text be under way. Then the round hands the system call the first `n`
-- words of the path with the line behind it, each cut to 511 bytes; without any the answer is -2. If
-- it hands on every word, `strtok` has no text under way behind it.
pub shell_round-words :
    (allocated : ℕ → Option (List ℕ)) (n : ℕ) (system : List (List ℕ) → ℤ)
    (keys path rest buf copy scommand line : List ℕ)
    → Allocates allocated n
    → IsText path
    → length keys + length path < 1024
    → length buf ≡ 1024
    → 1024 ≤ length copy
    → 1025 ≤ length scommand
    → edit keys [] ≡ some line
    → IsText (line_of line)
    → (arguments : List (List ℕ)) × (sp : Option (List ℕ)) × (shell_round allocated system keys
          (ended path rest)
          buf
          copy
          scommand
          none
        ≡ some (run_arguments system arguments, sp))
      × (map text_of arguments
          ≡ map (take 511) (take n (words spaces (take 1023 (path ++ line_of line)))))
      × (length (words spaces (take 1023 (path ++ line_of line))) ≤ n → sp ≡ none)
unfolding shell_round
shell_round-words allocated n system keys path rest buf copy scommand line memory hp fits hb hc hs e
      hl =
    let behind = drop (suc (length path)) buf in
    let (rest', typed) =
      peachos_terminal_readline-edit keys (0 ∷ behind) (1024 - length path) line (omega arith)
        (omega (arith, length-drop (suc (length path)) buf)) e in
    let (arguments, sp, r, same, done) =
      peachos_system_run-words allocated n memory system copy scommand (path ++ line_of line) rest'
        (IsText-++ path (line_of line) hp hl) hc hs in
    let whole : path ++ before line (0 ∷ rest') ≡ ended (path ++ line_of line) rest' =
      ap (λ t. path ++ t) (before-++ line [] (0 ∷ rest'))
      ∙ sym (append_assoc path (line_of line) (0 ∷ rest')) in
    (
      arguments,
      sp,
      rw
          (
            strlen-ended path rest hp,
            strncpy-whole path rest buf (length path + 1) hp (omega arith) (omega arith),
            drop-++ path (0 ∷ behind),
            typed,
            take-++ path (0 ∷ behind),
            whole,
          )
          r,
      same,
      done,
    )
