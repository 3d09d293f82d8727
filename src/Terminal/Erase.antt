-- ===== src/Terminal/Erase.antt =====
-- A backspace after a character.
use peach_os.Prelude.{
  ℕ, ◌+◌, ◌*◌, ◌≤◌, ◌≡◌, ◌≢◌, refl, ap, arith, true, false, ◌==◌, ltb, ◌&&◌, if◌then◌else◌, ne→==,
  eq→==, ℕ_discrete,
}
use peach_os.Terminal.{
  Terminal, write, make_char, putchar, scroll_if_full, put_and_step, terminal_backspace,
  terminal_writechar, sub16, default_colour,
}

abbrev pub at : (ℕ → ℕ) → ℕ → ℕ → Terminal
at mem row col = record { video_mem = mem; terminal_row = row; terminal_col = col }

scroll_if_full-room :
    (mem : ℕ → ℕ) (row col : ℕ) → row ≤ 20 → scroll_if_full (at mem row col) ≡ at mem row col
unfolding scroll_if_full
scroll_if_full-room mem row col r = rw (let e : ltb 20 row ≡ false = ground arith in e) refl

put_and_step-inside :
    (c colour : ℕ) (mem : ℕ → ℕ) (row col : ℕ)
    → col ≤ 77
    → put_and_step c colour (at mem row col)
      ≡ at (write mem (row * 80 + col) (make_char c colour)) row (col + 1)
unfolding put_and_step putchar
put_and_step-inside c colour mem row col l =
    rw (let e : ltb col 78 ≡ true = ground arith in e) (ap (at _ row) (omega arith))

writechar-inside :
    (c colour : ℕ) (mem : ℕ → ℕ) (row col : ℕ)
    → row ≤ 20
    → col ≤ 77
    → c ≢ 8
    → c ≢ 10
    → c ≢ 0x0D
    → terminal_writechar c colour (at mem row col)
      ≡ at (write mem (row * 80 + col) (make_char c colour)) row (col + 1)
unfolding terminal_writechar
writechar-inside c colour mem row col r l n8 n10 n13 =
    rw (scroll_if_full-room mem row col r, ne→== c 8 n8, ne→== c 10 n10, ne→== c 13 n13)
      (put_and_step-inside c colour mem row col l)

backspace-inside :
    (mem : ℕ → ℕ) (row col : ℕ)
    → row ≤ 20
    → 1 ≤ col
    → col ≤ 77
    → terminal_backspace (at mem row (col + 1))
      ≡ at (write mem (row * 80 + col) (make_char b' ' default_colour)) row col
unfolding terminal_backspace
backspace-inside mem row col r u l =
    let some : ((row == 0) && ((col + 1) == 0)) ≡ false = ground arith in
    let back : sub16 (col + 1) 1 ≡ col = omega arith in
    rw
      (
        some,
        ne→== (col + 1) 1 (λ e. omega arith),
        back,
        scroll_if_full-room mem row col r,
        put_and_step-inside b' ' default_colour mem row col l,
        back,
      )
      refl

write_twice :
    (mem : ℕ → ℕ) (q v w p : ℕ) → write (write mem q v) q w p ≡ (if p == q then w else mem p)
write_twice mem q v w p = elim (ℕ_discrete p q) [
  | yes same ↦ rw (eq→== p q same) refl
  | no other ↦ rw (ne→== p q other) refl
]

-- A character that is no line end or backspace, written in row 0 to 20 at column 1 to 77, and then a
-- backspace: the cursor is back where it was, its cell holds a space in the default colour, and every
-- other cell is as before.
pub terminal_writechar-erase :
    (c colour : ℕ) (mem : ℕ → ℕ) (row col : ℕ)
    → row ≤ 20
    → 1 ≤ col
    → col ≤ 77
    → c ≢ 8
    → c ≢ 10
    → c ≢ 0x0D
    → let end =
        terminal_writechar 8 default_colour (terminal_writechar c colour (at mem row col)) in
      (end.terminal_row ≡ row)
      × (end.terminal_col ≡ col)
      × ((p : ℕ)
          → end.video_mem p
            ≡ (if p == (row * 80 + col) then make_char b' ' default_colour else mem p))
unfolding terminal_writechar
terminal_writechar-erase c colour mem row col r u l n8 n10 n13 =
    rw
      (
        writechar-inside c colour mem row col r l n8 n10 n13,
        terminal_writechar,
        scroll_if_full-room (write mem (row * 80 + col) (make_char c colour)) row (col + 1) r,
        backspace-inside (write mem (row * 80 + col) (make_char c colour)) row col r u l,
      )
      (
        refl,
        refl,
        write_twice mem (row * 80 + col) (make_char c colour) (make_char b' ' default_colour),
      )

-- A backspace at column 0 of row 1 to 20 writes the word at index row * 80 + 65535, which is no cell of
-- the screen, and leaves the cursor one row lower, at column 65535.
pub terminal_backspace-column_zero :
    (mem : ℕ → ℕ) (row : ℕ)
    → 1 ≤ row
    → row ≤ 20
    → terminal_backspace (at mem row 0)
      ≡ at (write mem (row * 80 + 65535) (make_char b' ' default_colour)) (row + 1) 65535
unfolding terminal_backspace put_and_step putchar
terminal_backspace-column_zero mem row l r =
    let some : ((row == 0) && true) ≡ false = ground arith in
    rw (some, scroll_if_full-room mem row 65535 r)
      (ap (λ r'. at (write mem (row * 80 + 65535) 1824) r' 65535) (omega arith))
