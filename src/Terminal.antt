-- ===== src/Terminal.antt =====
-- src/terminal/terminal.c: characters and texts in the memory of the VGA text mode. `video_mem` is that
-- memory, as 16-bit words by their index from 0xB8000 on, and the cursor's row and column are 16-bit
-- patterns. A `char` is its byte, and sign extended where it becomes an `int`.
pub mod Cells
pub mod Cursor
pub mod Erase
pub mod Format
pub mod Print
mod Tests
use peach_os.Prelude.{
  ℕ, zero, suc, ◌+◌, ◌-◌, ◌*◌, ◌%◌, ◌^◌, Bool, true, false, ◌&&◌, ◌||◌, Option, none, some, List,
  [], ◌∷◌, ◌==◌, ltb, ◌>>=◌, if◌then◌else◌, take, u8, u16, shl, bit_or, ℤ,
}
use peach_os.CString.{strlen, itoa}

abbrev pub vga_width : ℕ
vga_width = 80

abbrev pub vga_height : ℕ
vga_height = 20

abbrev pub default_colour : ℕ
default_colour = 7

abbrev pub sub16 : ℕ → ℕ → ℕ
sub16 a b = (a + 2 ^ 16 - b) % 2 ^ 16

pub record Terminal : Type 0 where
  pub video_mem : ℕ → ℕ
  pub terminal_row : ℕ
  pub terminal_col : ℕ

-- A write to one word.
abbrev pub write : (ℕ → ℕ) → (p v : ℕ) → ℕ → ℕ
write mem p v q = if q == p then v else mem q

-- The loops of `terminal_scroll_down`: one row from column `x` on, the rows from `y` on, and the last
-- line from column `x` on.
unfoldable pub scroll_row : (rounds x y : ℕ) → (ℕ → ℕ) → ℕ → ℕ
scroll_row zero x y mem = mem
scroll_row (suc k) x y mem =
    scroll_row k (suc x) y (write mem (y * vga_width + x) (mem (suc y * vga_width + x)))

unfoldable pub scroll_rows : (rounds y : ℕ) → (ℕ → ℕ) → ℕ → ℕ
unfolding scroll_row
scroll_rows zero y mem = mem
scroll_rows (suc k) y mem = scroll_rows k (suc y) (scroll_row (vga_width - 2) 0 y mem)

unfoldable pub clear_last : (rounds x : ℕ) → (ℕ → ℕ) → ℕ → ℕ
clear_last zero x mem = mem
clear_last (suc k) x mem = clear_last k (suc x) (write mem (vga_height * vga_width + x) 0x00)

unfoldable pub scroll_down : (ℕ → ℕ) → ℕ → ℕ
unfolding scroll_rows clear_last
scroll_down mem = clear_last (vga_width - 2) 0 (scroll_rows vga_height 0 mem)

unfoldable pub make_char : (c colour : ℕ) → ℕ
make_char c colour = u16 (bit_or (shl colour 8) (if ltb c 128 then c else c + 0xFF00))

unfoldable pub putchar : (x y c colour : ℕ) → Terminal → Terminal
unfolding make_char
putchar x y c colour s = record s {
  video_mem = write s.video_mem (y * vga_width + x) (make_char c colour);
}

-- The test at the start of `terminal_writechar`.
unfoldable pub scroll_if_full : Terminal → Terminal
scroll_if_full s =
    if ltb vga_height s.terminal_row
    then record s { video_mem = scroll_down s.video_mem; terminal_row = sub16 s.terminal_row 1 }
    else s

-- The end of `terminal_writechar`, for all other characters.
unfoldable pub put_and_step : (c colour : ℕ) → Terminal → Terminal
unfolding putchar
put_and_step c colour s =
    let s' = putchar s.terminal_col s.terminal_row c colour s in
    if ltb s.terminal_col (vga_width - 2)
    then record s' { terminal_col = u16 (s.terminal_col + 1) }
    else record s' { terminal_col = 0; terminal_row = u16 (s.terminal_row + 1) }

unfoldable pub new_line : Terminal → Terminal
new_line s = record s { terminal_row = u16 (s.terminal_row + 1); terminal_col = 0 }

-- `terminal_writechar` and `terminal_backspace` call each other; the call from `terminal_backspace`
-- is for a space, which makes no further call.
unfoldable pub terminal_backspace : Terminal → Terminal
unfolding scroll_if_full put_and_step
terminal_backspace s =
    if (s.terminal_row == 0) && (s.terminal_col == 0)
    then s
    else let s1 =
        if s.terminal_col == 1
        then record s { terminal_col = vga_width - 1; terminal_row = sub16 s.terminal_row 1 }
        else s in
      let s2 = record s1 { terminal_col = sub16 s1.terminal_col 1 } in
      let s3 = put_and_step b' ' default_colour (scroll_if_full s2) in
      record s3 { terminal_col = sub16 s3.terminal_col 1 }

unfoldable pub terminal_writechar : (c colour : ℕ) → Terminal → Terminal
unfolding scroll_if_full new_line terminal_backspace put_and_step
terminal_writechar c colour s =
    let s1 = scroll_if_full s in
    if (c == 10) || (c == 0x0D)
    then new_line s1
    else if c == 0x08
    then terminal_backspace s1
    else put_and_step c colour s1

-- The loop of `print_colour` over the characters of a text.
unfoldable pub write_all : List ℕ → (colour : ℕ) → Terminal → Terminal
unfolding terminal_writechar
write_all [] colour s = s
write_all (c ∷ text) colour s = write_all text colour (terminal_writechar c colour s)

-- `none` is a read past the end of a string.
unfoldable pub print_colour : List ℕ → (colour : ℕ) → Terminal → Option Terminal
unfolding write_all
print_colour str colour s = strlen str >>= λ len. some (write_all (take len str) colour s)

unfoldable pub print : List ℕ → Terminal → Option Terminal
unfolding print_colour
print str s = print_colour str default_colour s

unfoldable pub println : List ℕ → Terminal → Option Terminal
unfolding print
println str s = print str s >>= λ s'. some (terminal_writechar 10 default_colour s')

unfoldable pub print_char : ℕ → Terminal → Terminal
unfolding terminal_writechar
print_char c s = terminal_writechar (u8 c) default_colour s

-- The arguments of `printf`.
pub data Arg : Type 0 where
  int : ℤ → Arg
  str : List ℕ → Arg

-- An argument that is missing or of the other type is a fault.
unfoldable pub print_int : List Arg → Terminal → Option (List Arg × Terminal)
unfolding write_all
print_int (int i ∷ args) s = itoa i >>= λ text. some (args, write_all text default_colour s)
print_int (str t ∷ args) s = none
print_int [] s = none

unfoldable pub print_str : List Arg → Terminal → Option (List Arg × Terminal)
unfolding print
print_str (str t ∷ args) s = print t s >>= λ s'. some (args, s')
print_str (int i ∷ args) s = none
print_str [] s = none

unfoldable pub printf : (fmt : List ℕ) → List Arg → Terminal → Option Terminal
unfolding print_int print_str print_char
printf [] args s = none
printf (c ∷ []) args s = if c == 0 then some s else none
printf (c ∷ d ∷ fmt) args s =
    let normal = printf (d ∷ fmt) args (print_char c s) in
    let integer = print_int args s >>= λ (args', s'). printf fmt args' s' in
    let text = print_str args s >>= λ (args', s'). printf fmt args' s' in
    let other = printf fmt args (print_char d s) in
    if c == 0
    then some s
    else if c == b'%'
    then (if d == b'i' then integer else if d == b's' then text else other)
    else normal

unfoldable pub terminal_get_current_char : Terminal → ℕ
terminal_get_current_char s = u8 (s.video_mem (s.terminal_row * vga_width + s.terminal_col))

-- The loops of `terminal_initialize`: one row from column `x` on, and the rows from `y` on.
unfoldable pub clear_row : (rounds x y : ℕ) → Terminal → Terminal
unfolding putchar
clear_row zero x y s = s
clear_row (suc k) x y s = clear_row k (suc x) y (putchar x y b' ' 0 s)

unfoldable pub clear_rows : (rounds y : ℕ) → Terminal → Terminal
unfolding clear_row
clear_rows zero y s = s
clear_rows (suc k) y s = clear_rows k (suc y) (clear_row vga_width 0 y s)

-- "Initialised terminal"
abbrev pub initialised : List ℕ
initialised =
    b'I' ∷ b'n' ∷ b'i' ∷ b't' ∷ b'i' ∷ b'a' ∷ b'l' ∷ b'i' ∷ b's' ∷ b'e' ∷ b'd' ∷ b' ' ∷ b't' ∷ b'e'
    ∷ b'r' ∷ b'm' ∷ b'i' ∷ b'n' ∷ b'a' ∷ b'l' ∷ 0 ∷ []

unfoldable pub terminal_initialize : Terminal → Option Terminal
unfolding clear_rows println
terminal_initialize s =
    println initialised (clear_rows vga_height 0 (record s { terminal_row = 0; terminal_col = 0 }))
