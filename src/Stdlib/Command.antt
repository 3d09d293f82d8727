-- ===== src/Stdlib/Command.antt =====
-- programs/stdlib/src/peachos.c: a command's arguments, and running a command. The linked list of
-- arguments is the list of its buffers, empty for the null pointer.
use peach_os.Prelude.{
  ℕ, zero, suc, Option, none, some, ◌>>=◌, List, [], ◌∷◌, ℤ, negsuc, leb, if◌then◌else◌,
}
use peach_os.CString.{ended, strncpy}
use peach_os.Stdlib.Strtok.{strtok}

abbrev pub spaces : List ℕ
spaces = b' ' ∷ []

-- sizeof(scommand)
abbrev pub scommand_size : ℕ
scommand_size = 1025

-- sizeof(current->argument)
abbrev pub argument_length : ℕ
argument_length = 512

-- `-EINVARG` is -2; `system` is the answer of the system call.
unfoldable pub run_arguments : (system : List (List ℕ) → ℤ) → List (List ℕ) → ℤ
run_arguments system [] = negsuc 1
run_arguments system (argument ∷ arguments) = system (argument ∷ arguments)

-- `allocated` is what the calls of `peachos_malloc` answer, by their numbers: the bytes of
-- `argument`, or none for the null pointer.
module _ (allocated : ℕ → Option (List ℕ)) where
  -- From call `i` on. The first one is that for the root, the others are those of the loop; without
  -- memory either ends the list. The answer has `sp` behind it. The fuel bounds the tokens.
  unfoldable pub arguments_of :
      (fuel i : ℕ) → (token sp : Option (List ℕ)) → Option (List (List ℕ) × Option (List ℕ))
  unfolding strncpy strtok
  arguments_of fuel i none sp = some ([], sp)
  arguments_of zero i (some token) sp = none
  arguments_of (suc fuel) i (some token) sp = elim (allocated i) [
    | none ↦ some ([], sp)
    | some argument ↦ strncpy argument (ended token []) argument_length >>= λ copy.
        strtok none spaces sp >>= λ (token', sp').
        arguments_of fuel (suc i) token' sp' >>= λ (rest, sp''). some (copy ∷ rest, sp'')
  ]

  unfoldable pub peachos_parse_command :
      (scommand command : List ℕ)
      → (max : ℕ) → (sp : Option (List ℕ)) → Option (List (List ℕ) × Option (List ℕ))
  unfolding strncpy strtok arguments_of
  peachos_parse_command scommand command max sp =
      if leb scommand_size max
      then some ([], sp)
      else strncpy scommand command scommand_size >>= λ copy.
          strtok (some copy) spaces sp >>= λ (token, sp'). arguments_of scommand_size 0 token sp'

  unfoldable pub peachos_system_run :
      (system : List (List ℕ) → ℤ)
      → (buf scommand command : List ℕ) → (sp : Option (List ℕ)) → Option (ℤ × Option (List ℕ))
  unfolding strncpy peachos_parse_command run_arguments
  peachos_system_run system buf scommand command sp = strncpy buf command 1024 >>= λ copy.
      peachos_parse_command scommand copy 1024 sp >>= λ (arguments, sp').
      some (run_arguments system arguments, sp')
