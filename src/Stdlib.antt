-- ===== src/Stdlib.antt =====
-- programs/stdlib/src/peachos.c: reading a line in a program. The keys are those that
-- `peachos_getkeyblock` answers, which are not 0; what is echoed is left out.
pub mod Readline
pub mod Strtok
pub mod Words
pub mod Command
pub mod Arguments
pub mod Shell
mod Tests
use peach_os.Prelude.{
  ℕ, zero, suc, ◌+◌, ◌-◌, ◌&&◌, Option, none, some, List, [], ◌∷◌, ◌==◌, leb, ltb, if◌then◌else◌,
  set, u8,
}

-- The loop at index `i`; `i -= 2` and the loop's `i++` are one step back. `none` waits for a key.
unfoldable pub readline_from : (keys : List ℕ) → (i max : ℕ) → (out : List ℕ) → Option (List ℕ)
readline_from [] i max out = if ltb i (max - 1) then none else some (set out i 0x00)
readline_from (key ∷ keys) i max out =
    let erased = readline_from keys (i - 1) max (set out (i - 1) 0x00) in
    let typed = readline_from keys (i + 1) max (set out i (u8 key)) in
    if ltb i (max - 1)
    then (if key == 13
        then some (set out i 0x00)
        else if (key == 0x08) && leb 1 i
        then erased
        else typed)
    else some (set out i 0x00)

unfoldable pub peachos_terminal_readline :
    (keys : List ℕ) → (max : ℕ) → (out : List ℕ) → Option (List ℕ)
unfolding readline_from
peachos_terminal_readline keys max out = readline_from keys 0 max out
