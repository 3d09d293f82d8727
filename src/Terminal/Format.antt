-- ===== src/Terminal/Format.antt =====
-- `printf` as one text.
use peach_os.Prelude.{
  ℕ, ◌≡◌, refl, sym, ap, ◌∙◌, Bool, true, false, ◌==◌, if◌then◌else◌, Option, none, some, ◌>>=◌,
  List, [], ◌∷◌, ◌++◌, take, u8,
}
use peach_os.CString.{strlen, itoa}
use peach_os.Terminal.{
  Terminal, Arg, int, str, terminal_writechar, write_all, print_colour, print, print_char,
  print_int, print_str, printf, default_colour,
}

-- The text that an argument stands for, with the other arguments.
abbrev arg_int : List Arg → Option (List ℕ × List Arg)
arg_int (int i ∷ args) = itoa i >>= λ text. some (text, args)
arg_int (str t ∷ args) = none
arg_int [] = none

abbrev arg_str : List Arg → Option (List ℕ × List Arg)
arg_str (str t ∷ args) = strlen t >>= λ len. some (take len t, args)
arg_str (int i ∷ args) = none
arg_str [] = none

-- The text of a format: %i stands for an integer argument and %s for a string one, % before another
-- character for that character, and the first 0 ends the format.
unfoldable pub expand : (fmt : List ℕ) → List Arg → Option (List ℕ)
expand [] args = none
expand (c ∷ []) args = if c == 0 then some [] else none
expand (c ∷ d ∷ fmt) args =
    let normal = expand (d ∷ fmt) args >>= λ rest. some (u8 c ∷ rest) in
    let integer =
      arg_int args >>= λ (text, args'). expand fmt args' >>= λ rest. some (text ++ rest) in
    let text = arg_str args >>= λ (text, args'). expand fmt args' >>= λ rest. some (text ++ rest) in
    let other = expand fmt args >>= λ rest. some (u8 d ∷ rest) in
    if c == 0
    then some []
    else if c == b'%'
    then (if d == b'i' then integer else if d == b's' then text else other)
    else normal

write_all-append :
    (s t : List ℕ) (colour : ℕ) (m : Terminal)
    → write_all (s ++ t) colour m ≡ write_all t colour (write_all s colour m)
unfolding write_all
write_all-append [] t colour m = refl
write_all-append (c ∷ s) t colour m = write_all-append s t colour (terminal_writechar c colour m)

-- `printf` writes the expanded text, or faults where there is none.
abbrev writes : Terminal → Option (List ℕ) → Option Terminal
writes s text = text >>= λ t. some (write_all t default_colour s)

write_first :
    (c : ℕ) (s : Terminal) (o : Option (List ℕ))
    → writes s (o >>= λ rest. some (u8 c ∷ rest)) ≡ writes (print_char c s) o
unfolding print_char write_all
write_first c s none = refl
write_first c s (some rest) = refl

write_text :
    (text : List ℕ) (s : Terminal) (o : Option (List ℕ))
    → writes s (o >>= λ rest. some (text ++ rest)) ≡ writes (write_all text default_colour s) o
write_text text s none = refl
write_text text s (some rest) = ap some (write_all-append text rest default_colour s)

choose :
    (s : Terminal) (b : Bool) {x y : Option Terminal} (t u : Option (List ℕ))
    → x ≡ writes s t
    → y ≡ writes s u
    → (if b then x else y) ≡ writes s (if b then t else u)
choose s true t u e f = e
choose s false t u e f = f

module _ (fmt : List ℕ)
    (ih : (args : List Arg) (s : Terminal) → printf fmt args s ≡ writes s (expand fmt args)) where
  -- An argument that stands for `o`.
  argument :
      (o : Option (List ℕ)) (args : List Arg) (s : Terminal)
      → ((o >>= λ text. some (args, write_all text default_colour s)) >>= λ (args', s').
          printf fmt args' s')
        ≡ writes s (
            (o >>= λ text. some (text, args)) >>= λ (text, args').
            expand fmt args' >>= λ rest. some (text ++ rest))
  argument none args s = refl
  argument (some text) args s =
      ih args (write_all text default_colour s) ∙ sym (write_text text s (expand fmt args))

  integer-writes :
      (args : List Arg) (s : Terminal)
      → (print_int args s >>= λ (args', s'). printf fmt args' s')
        ≡ writes s
            (arg_int args >>= λ (text, args'). expand fmt args' >>= λ rest. some (text ++ rest))
  unfolding print_int
  integer-writes (int i ∷ args) s = argument (itoa i) args s
  integer-writes (str t ∷ args) s = refl
  integer-writes [] s = refl

  printed :
      (o : Option ℕ) (t : List ℕ) (args : List Arg) (s : Terminal)
      → (((o >>= λ len. some (write_all (take len t) default_colour s)) >>= λ s'. some (args, s'))
          >>= λ (args', s'). printf fmt args' s')
        ≡ writes s (
            (o >>= λ len. some (take len t, args)) >>= λ (text, args').
            expand fmt args' >>= λ rest. some (text ++ rest))
  printed none t args s = refl
  printed (some len) t args s = argument (some (take len t)) args s

  text-writes :
      (args : List Arg) (s : Terminal)
      → (print_str args s >>= λ (args', s'). printf fmt args' s')
        ≡ writes s
            (arg_str args >>= λ (text, args'). expand fmt args' >>= λ rest. some (text ++ rest))
  unfolding print_str print print_colour
  text-writes (str t ∷ args) s = printed (strlen t) t args s
  text-writes (int i ∷ args) s = refl
  text-writes [] s = refl

-- `printf` writes the characters of the expanded format and nothing else; it faults (a format without
-- end, an argument that is missing or of the other type) where the format has no expansion.
pub printf-expand :
    (fmt : List ℕ) (args : List Arg) (s : Terminal)
    → printf fmt args s ≡ (expand fmt args >>= λ text. some (write_all text default_colour s))
unfolding printf expand write_all
printf-expand [] args s = refl
printf-expand (c ∷ []) args s = choose s (c == 0) _ _ refl refl
printf-expand (c ∷ d ∷ fmt) args s = choose s (c == 0) _ _ refl (
    choose s (c == b'%') _ _
      (choose s (d == b'i') _ _ (integer-writes fmt (λ a t. printf-expand fmt a t) args s) (
        choose s (d == b's') _ _ (text-writes fmt (λ a t. printf-expand fmt a t) args s)
          (printf-expand fmt args (print_char d s) ∙ sym (write_first d s (expand fmt args)))))
      (printf-expand (d ∷ fmt) args (print_char c s)
        ∙ sym (write_first c s (expand (d ∷ fmt) args))))
