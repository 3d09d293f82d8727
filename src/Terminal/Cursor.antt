-- ===== src/Terminal/Cursor.antt =====
-- Where the cursor goes, and which cells are written.
use peach_os.Prelude.{
  if_elim, ℕ, ◌+◌, ◌≤◌, ◌≡◌, ◌≢◌, refl, ◌∙◌, arith, inl, ◌==◌, ltb, ◌||◌, if◌then◌else◌, List, [],
  ◌∷◌, ne→==, u16,
}
use peach_os.Terminal.{
  Terminal, putchar, scroll_down, scroll_if_full, put_and_step, new_line, terminal_backspace,
  terminal_writechar, write_all, sub16,
}
use peach_os.Terminal.Cells.{scroll_down-stays, write_other}

-- The cursor stands in one of the rows 0 to 21 and the columns 0 to 78; in row 21 the next character
-- scrolls.
pub record OnScreen (s : Terminal) : Type 0 where
  pub row : s.terminal_row ≤ 21
  pub col : s.terminal_col ≤ 78

-- Two states with the same memory outside the 21 rows of the screen.
abbrev SameOutside : (ℕ → ℕ) → (ℕ → ℕ) → Type 0
SameOutside mem mem' = (p : ℕ) → 1680 ≤ p → mem' p ≡ mem p

-- What a step keeps, with the last row it leaves the cursor in.
abbrev Steps : (limit : ℕ) → (s s' : Terminal) → Type 0
Steps limit s s' =
    (s'.terminal_row ≤ limit) × (s'.terminal_col ≤ 78) × SameOutside s.video_mem s'.video_mem

-- The state after the last column, and that after any other.
abbrev wraps : Terminal → Terminal
wraps s = record s { terminal_col = 0; terminal_row = u16 (s.terminal_row + 1) }

abbrev advances : Terminal → ℕ → Terminal
advances s col = record s { terminal_col = u16 (col + 1) }

scroll_if_full-Steps : (s : Terminal) → OnScreen s → Steps 20 s (scroll_if_full s)
unfolding scroll_if_full
scroll_if_full-Steps s h =
    if_elim (Steps 20 s) (ltb 20 s.terminal_row)
      (record s { video_mem = scroll_down s.video_mem; terminal_row = sub16 s.terminal_row 1 }) s
      (λ full. (ground arith, h.col, λ p l. scroll_down-stays s.video_mem p (inl (omega arith))))
      (λ room. (ground arith, h.col, λ p l. refl))

put_and_step-Steps :
    (c colour : ℕ) (s : Terminal)
    → s.terminal_row ≤ 20
    → s.terminal_col ≤ 78
    → Steps 21 s (put_and_step c colour s)
unfolding put_and_step putchar
put_and_step-Steps c colour s r l =
    let s' = putchar s.terminal_col s.terminal_row c colour s in
    if_elim (Steps 21 s) (ltb s.terminal_col 78) (advances s' s.terminal_col) (wraps s')
      (λ more. (omega arith, ground arith, λ p q. write_other s.video_mem _ _ p (λ e. omega arith)))
      (λ end. (omega arith, omega arith, λ p q. write_other s.video_mem _ _ p (λ e. omega arith)))

trans-Steps : (s s' s'' : Terminal) (k l : ℕ) → Steps k s s' → Steps l s' s'' → Steps l s s''
trans-Steps s s' s'' k l (r, c, m) (r', c', m') = (r', c', λ p q. m' p q ∙ m p q)

writechar-Steps :
    (c colour : ℕ) (s : Terminal) → OnScreen s → c ≢ 8 → Steps 21 s (terminal_writechar c colour s)
unfolding terminal_writechar new_line
writechar-Steps c colour s h ne =
    let (r, l, m) = scroll_if_full-Steps s h in
    if_elim (Steps 21 s) ((c == 10) || (c == 0x0D)) (new_line (scroll_if_full s))
      (if c == 8
        then terminal_backspace (scroll_if_full s)
        else put_and_step c colour (scroll_if_full s))
      (λ newline. (omega arith, omega arith, m))
      (λ plain. rw (ne→== c 8 ne) (
        trans-Steps s (scroll_if_full s) _ 20 21 (r, l, m)
          (put_and_step-Steps c colour (scroll_if_full s) r l)))

-- No character is a backspace.
abbrev pub NoBackspace : List ℕ → Type 0
NoBackspace [] = Unit
NoBackspace (c ∷ text) = (c ≢ 8) × NoBackspace text

write_all-keeps :
    (text : List ℕ) (colour : ℕ) (s : Terminal)
    → OnScreen s
    → NoBackspace text
    → OnScreen (write_all text colour s)
      × SameOutside s.video_mem (write_all text colour s).video_mem
unfolding write_all
write_all-keeps [] colour s h cs = (h, λ p q. refl)
write_all-keeps (c ∷ text) colour s h (ne, cs) =
    let s' = terminal_writechar c colour s in
    let (r, l, m) = writechar-Steps c colour s h ne in
    let (h', m') = write_all-keeps text colour s' (record { row = r; col = l }) cs in
    (h', λ p q. m' p q ∙ m p q)

-- Writing a text without a backspace keeps the cursor in rows 0 to 21 and columns 0 to 78, and writes
-- no word of the memory at index 1680 or above, so none outside the 21 rows of the screen.
pub write_all-OnScreen :
    (text : List ℕ) (colour : ℕ) (s : Terminal) (p : ℕ)
    → OnScreen s
    → NoBackspace text
    → 1680 ≤ p
    → OnScreen (write_all text colour s) × ((write_all text colour s).video_mem p ≡ s.video_mem p)
write_all-OnScreen text colour s p h cs q =
    let (h', m) = write_all-keeps text colour s h cs in (h', m p q)
