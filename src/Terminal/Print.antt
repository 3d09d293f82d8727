-- ===== src/Terminal/Print.antt =====
-- Printing a text that a 0 ends.
use peach_os.Prelude.{ℕ, ◌≡◌, refl, some, List, length, take}
use peach_os.CString.{IsText, ended}
use peach_os.CString.Length.{strlen-ended}
use peach_os.Terminal.{
  Terminal, default_colour, write_all, terminal_writechar, print_colour, print, println,
}

pub print-some :
    (text rest : List ℕ) (s : Terminal)
    → IsText text
    → print (ended text rest) s
      ≡ some (write_all (take (length text) (ended text rest)) default_colour s)
unfolding print print_colour
print-some text rest s h = rw (strlen-ended text rest h) refl

pub println-some :
    (text rest : List ℕ) (s : Terminal)
    → IsText text
    → println (ended text rest) s
      ≡ some (
          terminal_writechar 10 default_colour
            (write_all (take (length text) (ended text rest)) default_colour s))
unfolding println
println-some text rest s h = rw (print-some text rest s h) refl

-- The screen after a line is written.
abbrev pub line_written : (n : ℕ) → List ℕ → Terminal → Terminal
line_written n text s =
    terminal_writechar 10 default_colour (write_all (take n text) default_colour s)
