-- ===== src/Keyboard/Tests.antt =====
-- Keys through an empty buffer, and the theorems on the keyboard at it.
use peach_os.Prelude.{
  ℕ, ◌+◌, ◌%◌, ◌≡◌, refl, false, some, [], ◌∷◌, arith, replicate, get_or-replicate,
  length-replicate, pos,
}
use peach_os.Keyboard.{KeyboardBuffer, Driver, push_to, pop_from, scancode_to_char}
use peach_os.Keyboard.Fifo.{Holds, push_to-Holds, pop_from-cons}

abbrev empty : KeyboardBuffer
empty = record { cells = replicate 1024 0; tail = 0; head = 0 }

abbrev ps2 : Driver
ps2 = record { init = some (pos 0); capslock_on = false }

empty-Holds : Holds empty []
empty-Holds = record {
  size = length-replicate {A = ℕ} 1024 0;
  head_word = omega arith;
  count = refl;
  fits = omega arith;
  keys = tt;
  cells = λ i h. get_or-replicate {A = ℕ} 1024 ((0 + i) % 1024) 0;
}

key_a : scancode_to_char 0x1E ps2 0 ≡ b'a'
unfolding scancode_to_char
key_a = refl

push_to-Holds_example : Holds (push_to b'a' empty) (b'a' ∷ [])
push_to-Holds_example = push_to-Holds [] b'a' empty-Holds (omega arith) (λ e. cc)

pop_from-cons_example :
    ((pop_from (push_to b'a' empty)).0 ≡ b'a') × Holds (pop_from (push_to b'a' empty)).1 []
pop_from-cons_example =
    pop_from-cons b'a' [] (push_to-Holds [] b'a' empty-Holds (omega arith) (λ e. cc))
