-- ===== src/Keyboard.antt =====
-- src/keyboard/keyboard.c and classic.c: the keyboard buffer of a process, the list of keyboards, and
-- the PS/2 driver. A process is here its `struct keyboard_buffer`: 1024 bytes, and two counters held
-- as 32-bit patterns, since the indexes are computed with `size_t` arithmetic.
pub mod Fifo
pub mod Scan
mod Tests
use peach_os.Prelude.{
  ℕ, zero, suc, ◌+◌, ◌-◌, ◌%◌, ◌^◌, Bool, true, false, not, ◌&&◌, Option, none, some, List, [], ◌∷◌,
  ◌++◌, ◌==◌, ltb, if◌then◌else◌, get_or, set, length, bit_and, add32, sub32, ℤ, pos, negsuc,
}
use peach_os.CString.{is_ascii_char, tolower}

abbrev pub buffer_size : ℕ
buffer_size = 1024

pub record KeyboardBuffer : Type 0 where
  pub cells : List ℕ
  pub tail : ℕ
  pub head : ℕ

unfoldable pub get_tail_index : KeyboardBuffer → ℕ
get_tail_index b = b.tail % buffer_size

unfoldable pub backspace : KeyboardBuffer → KeyboardBuffer
unfolding get_tail_index
backspace b =
    let b' = record b { tail = sub32 b.tail 1 } in
    record b' { cells = set b'.cells (get_tail_index b') 0x00 }

-- `keyboard_push` on the current process, and with none.
unfoldable pub push_to : ℕ → KeyboardBuffer → KeyboardBuffer
unfolding get_tail_index
push_to c b =
    if c == 0
    then b
    else record b { cells = set b.cells (get_tail_index b) c; tail = add32 b.tail 1 }

unfoldable pub push : ℕ → Option KeyboardBuffer → Option KeyboardBuffer
unfolding push_to
push c none = none
push c (some b) = some (push_to c b)

-- `keyboard_pop` for the process of the current task, and with none: the byte, 0 for none.
unfoldable pub pop_from : KeyboardBuffer → ℕ × KeyboardBuffer
pop_from b =
    let i = b.head % buffer_size in
    let c = get_or b.cells i 0 in
    if c == 0x00 then (0, b) else (c, record b { cells = set b.cells i 0; head = add32 b.head 1 })

unfoldable pub pop : Option KeyboardBuffer → ℕ × Option KeyboardBuffer
unfolding pop_from
pop none = (0, none)
pop (some b) = let (c, b') = pop_from b in (c, some b')

-- `struct keyboard`: what its `init` returns, if it has one, and the state of caps lock. The list runs
-- from `keyboard_list_head` to `keyboard_list_last`.
pub record Driver : Type 0 where
  pub init : Option ℤ
  pub capslock_on : Bool

-- The result and the list. `init` is called after the driver stands in the list.
unfoldable pub insert : Driver → List Driver → ℤ × List Driver
insert keyboard drivers = elim keyboard.init [
  | none ↦ (negsuc 1, drivers)
  | some res ↦ (res, drivers ++ keyboard ∷ [])
]

unfoldable pub set_capslock : Driver → Bool → Driver
set_capslock keyboard state = record keyboard { capslock_on = state }

unfoldable pub get_capslock : Driver → Bool
get_capslock keyboard = keyboard.capslock_on

-- `keyboard_scan_set_one`
abbrev pub scan_set_one : List ℕ
scan_set_one =
    0x00 ∷ 0x1B ∷ b'1' ∷ b'2' ∷ b'3' ∷ b'4' ∷ b'5' ∷ b'6' ∷ b'7' ∷ b'8' ∷ b'9' ∷ b'0' ∷ b'-' ∷ b'='
    ∷ 0x08 ∷ 0x09 ∷ b'Q' ∷ b'W' ∷ b'E' ∷ b'R' ∷ b'T' ∷ b'Y' ∷ b'U' ∷ b'I' ∷ b'O' ∷ b'P' ∷ b'['
    ∷ b']' ∷ 0x0D ∷ 0x00 ∷ b'A' ∷ b'S' ∷ b'D' ∷ b'F' ∷ b'G' ∷ b'H' ∷ b'J' ∷ b'K' ∷ b'L' ∷ b';' ∷ 39
    ∷ b'`' ∷ 0x00 ∷ 92 ∷ b'Z' ∷ b'X' ∷ b'C' ∷ b'V' ∷ b'B' ∷ b'N' ∷ b'M' ∷ b',' ∷ b'.' ∷ b'/' ∷ 0x00
    ∷ b'*' ∷ 0x00 ∷ 0x20 ∷ 0x00 ∷ 0x00 ∷ 0x00 ∷ 0x00 ∷ 0x00 ∷ 0x00 ∷ 0x00 ∷ 0x00 ∷ 0x00 ∷ 0x00
    ∷ 0x00 ∷ b'7' ∷ b'8' ∷ b'9' ∷ b'-' ∷ b'4' ∷ b'5' ∷ b'6' ∷ b'+' ∷ b'1' ∷ b'2' ∷ b'3' ∷ b'0'
    ∷ b'.' ∷ []

-- `memory` is what follows the array: the test is `>`, so the index may be its length.
unfoldable pub scancode_to_char : ℕ → Driver → (memory : ℕ) → ℕ
unfolding get_capslock is_ascii_char tolower
scancode_to_char scancode keyboard memory =
    if ltb (length scan_set_one) scancode
    then 0
    else let c = get_or scan_set_one scancode memory in
      if not (get_capslock keyboard) && is_ascii_char c then tolower c else c

-- The interrupt handler on the scan code that it reads, before it returns to the task's page.
unfoldable pub handle_interrupt :
    ℕ → (memory : ℕ) → Driver → Option KeyboardBuffer → Driver × Option KeyboardBuffer
unfolding set_capslock get_capslock scancode_to_char push
handle_interrupt scancode memory keyboard process =
    if not (bit_and scancode 0x80 == 0)
    then (keyboard, process)
    else if scancode == 15
    then (set_capslock keyboard (not (get_capslock keyboard)), process)
    else let c = scancode_to_char scancode keyboard memory in
      if not (c == 0) then (keyboard, push c process) else (keyboard, process)
