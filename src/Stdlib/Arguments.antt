-- ===== src/Stdlib/Arguments.antt =====
-- programs/stdlib/src/peachos.c: the arguments of a command are its words.
use peach_os.Prelude.{
  ℕ, zero, suc, ◌+◌, ◌<◌, ◌≤◌, ◌≡◌, inl, inr, refl, sym, ap, ap₂, ◌∙◌, arith, Option, none, some,
  ◌>>=◌, List, [], ◌∷◌, ◌==◌, if◌then◌else◌, ℤ, length, map, take, drop, length-take, ne→==,
}
use peach_os.CString.{IsText, ended}
use peach_os.CString.Copy.{strncpy-ended, strncpy-whole}
use peach_os.Stdlib.Strtok.{is_delimiter, next_token, strtok}
use peach_os.Stdlib.Words.{words, next_token_lem, bind_assoc}
use peach_os.Stdlib.Command.{
  spaces, scommand_size, argument_length, arguments_of, peachos_parse_command, run_arguments,
  peachos_system_run,
}

-- The text in a buffer.
unfoldable pub text_of : List ℕ → List ℕ
text_of [] = []
text_of (c ∷ s) = let rest = text_of s in if c == 0 then [] else c ∷ rest

text_of-ended : (s rest : List ℕ) → IsText s → text_of (ended s rest) ≡ s
unfolding text_of
text_of-ended [] rest h = refl
text_of-ended (c ∷ s) rest (c0, h) = rw (ne→== c 0 c0, text_of-ended s rest h) refl

IsText-take : (n : ℕ) (s : List ℕ) → IsText s → IsText (take n s)
IsText-take zero s h = tt
IsText-take (suc n) [] h = tt
IsText-take (suc n) (c ∷ s) (c0, h) = (c0, IsText-take n s h)

take-nil : (n : ℕ) → take {A = List ℕ} n [] ≡ []
take-nil zero = refl
take-nil (suc n) = refl

-- What the calls of `peachos_malloc` answer when the first `n` of them have memory.
pub record Allocates (allocated : ℕ → Option (List ℕ)) (n : ℕ) : Type 0 where
  pub given :
      (i : ℕ)
      → i < n
      → (argument : List ℕ) × (allocated i ≡ some argument) × (512 ≤ length argument)
  pub refused : allocated n ≡ none

module _ (allocated : ℕ → Option (List ℕ)) (n : ℕ) (memory : Allocates allocated n) where
  -- The first `m` words of a text, each cut to 511 bytes, and `sp` behind them.
  abbrev Taken : (m : ℕ) (text : List ℕ) → Option (List (List ℕ) × Option (List ℕ)) → Type 0
  Taken m text result =
      (arguments : List (List ℕ)) × (sp : Option (List ℕ)) × (result ≡ some (arguments, sp))
      × (map text_of arguments ≡ map (take 511) (take m (words spaces text)))
      × (length (words spaces text) ≤ m → sp ≡ none)

  -- From a word on, with the arguments behind it.
  arguments_of-word :
      (fuel i m : ℕ) (text rest token t : List ℕ)
      → i < n
      → next_token spaces (ended text rest) ≡ some (some token, some (ended t rest))
      → words spaces text ≡ token ∷ words spaces t
      → IsText token
      → Taken m t (
          next_token spaces (ended t rest) >>= λ (token', sp).
          arguments_of allocated fuel (suc i) token' sp)
      → Taken (suc m) text (
          next_token spaces (ended text rest) >>= λ (token', sp).
          arguments_of allocated (suc fuel) i token' sp)
  unfolding arguments_of strtok
  arguments_of-word fuel i m text rest token t l q w hw (arguments, sp, r, same, done) =
      let (argument, given, room) = memory.given i l in
      let copied = strncpy-ended token [] argument argument_length hw (omega arith) room in
      let short = take 511 token in
      (
        ended short (drop (suc (length short)) argument) ∷ arguments,
        sp,
        rw (q, arguments_of, given, copied)
            (bind_assoc (next_token spaces (ended t rest))
                (λ (token', sp'). arguments_of allocated fuel (suc i) token' sp')
                (λ (rest', sp'').
                  some (ended short (drop (suc (length short)) argument) ∷ rest', sp''))
              ∙ rw r refl),
        rw w (ap₂ (λ a others. a ∷ others) (text_of-ended short _ (IsText-take 511 token hw)) same),
        λ le. done (omega (arith, le, ap length w)),
      )

  arguments_of-words :
      (fuel i m : ℕ) (text rest : List ℕ)
      → i + m ≡ n
      → length text ≤ fuel
      → IsText text
      → Taken m text (
          next_token spaces (ended text rest) >>= λ (token, sp).
          arguments_of allocated fuel i token sp)
  unfolding arguments_of strtok is_delimiter
  arguments_of-words zero i m text rest e l h = elim (next_token_lem spaces text rest h refl) [
    | inl (w, q) ↦ ([], none, rw q refl, rw w (ap (map (take 511)) (sym (take-nil m))), λ _. refl)
    | inr (token, t, q, w, l', ht, hw) ↦ absurd (omega (arith, l, l'))
  ]
  arguments_of-words (suc fuel) i zero text rest e l h =
      elim (next_token_lem spaces text rest h refl) [
        | inl (w, q) ↦ ([], none, rw q refl, refl, λ _. refl)
        | inr (token, t, q, w, l', ht, hw) ↦
            let end : allocated i ≡ none =
              ap allocated (let r : i ≡ n = omega (arith, e) in r) ∙ memory.refused in
            (
              [],
              some (ended t rest),
              rw (q, arguments_of, end) refl,
              refl,
              λ le. absurd (omega (arith, le, ap length w)),
            )
      ]
  arguments_of-words (suc fuel) i (suc m) text rest e l h =
      elim (next_token_lem spaces text rest h refl) [
        | inl (w, q) ↦ ([], none, rw q refl, rw w refl, λ _. refl)
        | inr (token, t, q, w, l', ht, hw) ↦
            arguments_of-word fuel i m text rest token t (omega (arith, e)) q w hw (
              arguments_of-words fuel (suc i) m t rest (omega (arith, e)) (omega (arith, l, l')) ht)
      ]

  -- Let the first `n` calls of `peachos_malloc` have memory and the next one none, and let no text be
  -- under way. Then running a command cuts the first 1023 bytes of it into words, and hands the system
  -- call a list with the first `n` of the words, each cut to 511 bytes; where that list is empty the
  -- answer is -2. If it holds every word, `strtok` has no text under way behind it.
  pub peachos_system_run-words :
      (system : List (List ℕ) → ℤ) (buf scommand command rest : List ℕ)
      → IsText command
      → 1024 ≤ length buf
      → 1025 ≤ length scommand
      → (arguments : List (List ℕ)) × (sp : Option (List ℕ)) × (peachos_system_run allocated system
            buf scommand
            (ended command rest)
            none
          ≡ some (run_arguments system arguments, sp))
        × (map text_of arguments ≡ map (take 511) (take n (words spaces (take 1023 command))))
        × (length (words spaces (take 1023 command)) ≤ n → sp ≡ none)
  unfolding peachos_system_run peachos_parse_command strtok
  peachos_system_run-words system buf scommand command rest h b s =
      let text = take 1023 command in
      let ht = IsText-take 1023 command h in
      let short : length text ≤ 1023 = omega (arith, length-take 1023 command) in
      let (arguments, sp, r, same, done) =
        arguments_of-words scommand_size 0 n text (drop (suc (length text)) scommand) (omega arith)
          (omega (arith, short)) ht in
      (
        arguments,
        sp,
        rw
            (
              strncpy-ended command rest buf 1024 h (omega arith) b,
              strncpy-whole text (drop (suc (length text)) buf) scommand scommand_size ht
                  (omega (arith, short)) s,
            )
            (ap (λ m. m >>= λ (parsed, sp'). some (run_arguments system parsed, sp')) r),
        same,
        done,
      )
