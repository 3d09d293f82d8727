-- ===== src/Keyboard/Scan.antt =====
-- The PS/2 driver: which scan codes give which characters, and what an interrupt changes.
use peach_os.Prelude.{
  ℕ, ◌<◌, ◌≡◌, refl, Bool, false, not, ◌&&◌, Option, arith, ltb, if◌then◌else◌, get_or, length, ◌⊎◌,
}
use peach_os.CString.{is_ascii_char, tolower}
use peach_os.Keyboard.{KeyboardBuffer, Driver, scan_set_one, scancode_to_char, handle_interrupt}

-- The scan code one past the table is not refused: its character is whatever byte follows the
-- table in memory (in lower case while caps lock is off).
pub scancode_to_char-past_end :
    (keyboard : Driver) (memory : ℕ)
    → scancode_to_char (length scan_set_one) keyboard memory
      ≡ (if not keyboard.capslock_on && is_ascii_char memory then tolower memory else memory)
unfolding scancode_to_char
scancode_to_char-past_end keyboard memory = refl

-- While caps lock is off, no scan code gives an upper case letter.
pub scancode_to_char-lower :
    (scancode memory : ℕ) (keyboard : Driver)
    → keyboard.capslock_on ≡ false
    → (scancode_to_char scancode keyboard memory < 65)
      ⊎ (90 < scancode_to_char scancode keyboard memory)
unfolding scancode_to_char
scancode_to_char-lower scancode memory keyboard off =
    if_lower (ltb (length scan_set_one) scancode) (get_or scan_set_one scancode memory)
  where
    if_lower :
        (past : Bool) (c : ℕ)
        → let r =
            if past
            then 0
            else if not keyboard.capslock_on && is_ascii_char c
            then tolower c
            else c in
          (r < 65) ⊎ (90 < r)
    if_lower past c = ground arith

-- Two presses of the caps lock key leave the driver and the buffer as they were.
pub handle_interrupt-capslock_twice :
    (memory : ℕ) (keyboard : Driver) (process : Option KeyboardBuffer)
    → let (keyboard', process') = handle_interrupt 15 memory keyboard process in
      handle_interrupt 15 memory keyboard' process' ≡ (keyboard, process)
unfolding handle_interrupt
handle_interrupt-capslock_twice memory keyboard process = ground arith
