-- ===== src/Terminal/Tests.antt =====
-- Small screens, and the theorems of Terminal at them.
use peach_os.Prelude.{ℕ, ◌≡◌, refl, arith, ◌==◌, if◌then◌else◌, some, ◌>>=◌, List, [], ◌∷◌, negsuc}
use peach_os.Terminal.{
  write, make_char, terminal_writechar, terminal_backspace, write_all, scroll_down, printf, int,
  str, default_colour,
}
use peach_os.Terminal.Cells.{scroll_down_lem}
use peach_os.Terminal.Cursor.{OnScreen, write_all-OnScreen}
use peach_os.Terminal.Erase.{at, terminal_writechar-erase, terminal_backspace-column_zero}
use peach_os.Terminal.Format.{printf-expand, expand}

abbrev blank : ℕ → ℕ
blank p = 0

abbrev numbered : ℕ → ℕ
numbered p = p

abbrev format : List ℕ
format = (b'x' ∷ b'=' ∷ b'%' ∷ b'i' ∷ b' ' ∷ b'%' ∷ b's' ∷ b'%' ∷ b'%' ∷ 0 ∷ [])

format-text :
    expand format (int (negsuc 41) ∷ str (b'o' ∷ b'k' ∷ 0 ∷ b'?' ∷ []) ∷ [])
    ≡ some (b'x' ∷ b'=' ∷ b'-' ∷ b'4' ∷ b'2' ∷ b' ' ∷ b'o' ∷ b'k' ∷ b'%' ∷ [])
unfolding expand peach_os.CString.itoa peach_os.CString.strlen
format-text = refl

make_char-grey : make_char b'A' default_colour ≡ 0x0741
unfolding make_char
make_char-grey = refl

scroll_down_lem_example : scroll_down numbered 1595 ≡ 1675
scroll_down_lem_example = scroll_down_lem numbered 1595

at-OnScreen : OnScreen (at blank 21 5)
at-OnScreen = record { row = omega arith; col = omega arith }

write_all-OnScreen_example :
    OnScreen (write_all (b'A' ∷ 10 ∷ b'B' ∷ []) 7 (at blank 21 5))
    × ((write_all (b'A' ∷ 10 ∷ b'B' ∷ []) 7 (at blank 21 5)).video_mem 1700 ≡ 0)
write_all-OnScreen_example =
    write_all-OnScreen (b'A' ∷ 10 ∷ b'B' ∷ []) 7 (at blank 21 5) 1700 at-OnScreen
      ((λ e. omega arith), ((λ e. omega arith), ((λ e. omega arith), tt))) (omega arith)

terminal_writechar-erase_example :
    let end = terminal_writechar 8 default_colour (terminal_writechar b'A' 7 (at numbered 3 9)) in
    (end.terminal_row ≡ 3)
    × (end.terminal_col ≡ 9)
    × ((p : ℕ) → end.video_mem p ≡ (if p == 249 then make_char b' ' default_colour else numbered p))
terminal_writechar-erase_example =
    terminal_writechar-erase b'A' 7 numbered 3 9 (omega arith) (omega arith) (omega arith)
      (λ e. omega arith) (λ e. omega arith) (λ e. omega arith)

terminal_backspace-column_zero_example :
    terminal_backspace (at blank 2 0)
    ≡ at (write blank 65695 (make_char b' ' default_colour)) 3 65535
terminal_backspace-column_zero_example =
    terminal_backspace-column_zero blank 2 (omega arith) (omega arith)

printf-expand_example :
    printf format (int (negsuc 41) ∷ str (b'o' ∷ b'k' ∷ 0 ∷ []) ∷ []) (at blank 0 0) ≡ (
      expand format (int (negsuc 41) ∷ str (b'o' ∷ b'k' ∷ 0 ∷ []) ∷ []) >>= λ text.
      some (write_all text default_colour (at blank 0 0)))
printf-expand_example =
    printf-expand format (int (negsuc 41) ∷ str (b'o' ∷ b'k' ∷ 0 ∷ []) ∷ []) (at blank 0 0)
