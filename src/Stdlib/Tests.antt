-- ===== src/Stdlib/Tests.antt =====
-- The line "ls", typed with a mistake, and the words of a command.
use peach_os.Prelude.{
  ℕ, zero, suc, ◌<◌, ◌≤◌, ◌≡◌, refl, arith, Option, none, some, ◌>>=◌, List, [], ◌∷◌, ◌++◌, map,
  take, length, replicate, length-replicate, pos,
}
use peach_os.Stdlib.Command.{spaces, peachos_parse_command, arguments_of, run_arguments}
use peach_os.Stdlib.Shell.{line_of, shell_round, shell_round-words}
use peach_os.Stdlib.Arguments.{text_of, Allocates}
use peach_os.CString.{ended, strncpy}
use peach_os.Stdlib.Strtok.{is_delimiter, skip_delimiters, find_end, next_token, strtok}
use peach_os.Stdlib.Words.{words}
use peach_os.Stdlib.Readline.{edit}

abbrev typed : List ℕ
typed = b'l' ∷ b'a' ∷ 8 ∷ b's' ∷ 13 ∷ []

abbrev buffer : List ℕ
buffer = 9 ∷ 9 ∷ 9 ∷ 9 ∷ 9 ∷ 9 ∷ []

-- A backspace on an empty line becomes a character.
edit-backspace : edit (8 ∷ 13 ∷ []) [] ≡ some (8 ∷ [])
unfolding edit
edit-backspace = refl

typed-line : edit typed [] ≡ some (b's' ∷ b'l' ∷ [])
unfolding edit
typed-line = refl

-- A command with two spaces between its words, and one behind them.
abbrev command : List ℕ
command = b'l' ∷ b's' ∷ b' ' ∷ b' ' ∷ b'a' ∷ b' ' ∷ []

command-words : words spaces command ≡ (b'l' ∷ b's' ∷ []) ∷ (b'a' ∷ []) ∷ []
unfolding words is_delimiter
command-words = refl

-- A text that is under way is not left for a new one.
strtok-under_way :
    strtok (some (b'b' ∷ 0 ∷ [])) spaces (some (b'a' ∷ 0 ∷ []))
    ≡ some (some (b'a' ∷ []), some (0 ∷ []))
unfolding strtok skip_delimiters find_end
strtok-under_way = refl

-- "0:/"
abbrev root_path : List ℕ
root_path = b'0' ∷ b':' ∷ b'/' ∷ []

-- `peachos_malloc` has memory twice.
abbrev twice : ℕ → Option (List ℕ)
twice zero = some (replicate 512 0)
twice (suc zero) = some (replicate 512 0)
twice (suc (suc i)) = none

twice-Allocates : Allocates twice 2
twice-Allocates = record { given = given; refused = refl }
  where
    given :
        (i : ℕ) → i < 2 → (argument : List ℕ) × (twice i ≡ some argument) × (512 ≤ length argument)
    given zero l = (replicate 512 0, refl, omega (arith, length-replicate {A = ℕ} 512 0))
    given (suc zero) l = (replicate 512 0, refl, omega (arith, length-replicate {A = ℕ} 512 0))
    given (suc (suc i)) l = absurd (omega (arith, l))

-- Where memory runs out, the rest of a command stands for the next one.
no_memory :
    (peachos_parse_command (λ i. none) (replicate 1025 0) (b'a' ∷ b' ' ∷ b'b' ∷ 0 ∷ []) 1024 none
      >>= λ (arguments, sp).
          peachos_parse_command twice (replicate 1025 0) (b'c' ∷ 0 ∷ []) 1024 sp
          >>= λ (arguments', sp'). some (map text_of arguments'))
    ≡ some ((b'b' ∷ []) ∷ [])
unfolding peachos_parse_command strtok arguments_of skip_delimiters find_end strncpy text_of
    next_token is_delimiter
no_memory = refl

shell_round-words_example :
    (arguments : List (List ℕ)) × (sp : Option (List ℕ)) × (shell_round twice
        (λ a. pos 0)
        typed
        (ended root_path [])
        (replicate 1024 0)
        (replicate 1024 0)
        (replicate 1025 0)
        none
      ≡ some (run_arguments (λ a. pos 0) arguments, sp))
    × (map text_of arguments
        ≡ map
            (take 511)
            (take 2 (words spaces (take 1023 (root_path ++ line_of (b's' ∷ b'l' ∷ []))))))
    × (length (words spaces (take 1023 (root_path ++ line_of (b's' ∷ b'l' ∷ [])))) ≤ 2 → sp ≡ none)
shell_round-words_example =
    shell_round-words twice 2 (λ a. pos 0) typed root_path [] (replicate 1024 0) (replicate 1024 0)
      (replicate 1025 0) (b's' ∷ b'l' ∷ []) twice-Allocates
      (omega arith, (omega arith, (omega arith, tt))) (omega arith)
      (length-replicate {A = ℕ} 1024 0) (omega (arith, length-replicate {A = ℕ} 1024 0))
      (omega (arith, length-replicate {A = ℕ} 1025 0)) typed-line (omega arith, (omega arith, tt))
