-- ===== src/Boot/Tables.antt =====
-- The tables that are set up when the kernel starts.
use peach_os.Prelude.{
  ℕ, zero, suc, ◌+◌, ◌≤◌, ◌<◌, ◌≡◌, refl, ap, ◌∙◌, arith, false, ◌&&◌, leb, ltb, ◌==◌,
  if◌then◌else◌, Option, none, some, List, [], ◌∷◌, ◌++◌, map, get_or, get_elem?, length,
  length-set, length-replicate, get_or-set_self, get_or-set_ne, get_or-replicate, replicate, pos,
  eq→==, ne→==, ℕ_discrete, sym, inl, inr, Bool-cases, leb→le,
}
use peach_os.Gdt.{Gdt, structured_to_gdt}
use peach_os.Idt.{idt_register_interrupt_callback, find_command, max_commands}
use peach_os.Isr80h.Register.{SystemCommand, all_commands, isr80h_register_all_commands}
use peach_os.Machine.{
  Callback, exception, zero_division, clock, keyboard, register_exceptions, init_callbacks,
  keyboard_callbacks,
}
use peach_os.Boot.{gdt_structured}

registered-at :
    (n j : ℕ) (c : Callback) (cs : List (Option Callback))
    → n < 512
    → length cs ≡ 512
    → get_or (idt_register_interrupt_callback (pos n) c cs).1 j none
      ≡ (if n == j then some c else get_or cs j none)
unfolding idt_register_interrupt_callback
registered-at n j c cs h l =
    rw (let e : leb 512 n ≡ false = ground arith in e) (elim (ℕ_discrete n j) [
      | yes e ↦ rw (eq→== n j e, ← e) (get_or-set_self cs n (some c) none (omega (arith, l)))
      | no ne ↦ rw (ne→== n j ne) (get_or-set_ne cs n j (some c) none ne)
    ])

length-registered :
    (n : ℕ) (c : Callback) (cs : List (Option Callback))
    → n < 512
    → length (idt_register_interrupt_callback (pos n) c cs).1 ≡ length cs
unfolding idt_register_interrupt_callback
length-registered n c cs h =
    rw (let e : leb 512 n ≡ false = ground arith in e) (length-set cs n (some c))

register_exceptions-at :
    (k i j : ℕ) (cs : List (Option Callback))
    → i + k ≤ 512
    → length cs ≡ 512
    → (get_or (register_exceptions k i cs) j none
        ≡ (if leb i j && ltb j (i + k) then some exception else get_or cs j none))
      × (length (register_exceptions k i cs) ≡ 512)
unfolding register_exceptions
register_exceptions-at zero i j cs h l =
    (let e : (leb i j && ltb j (i + 0)) ≡ false = ground arith in rw e refl, l)
register_exceptions-at (suc k) i j cs h l =
    let cs' = (idt_register_interrupt_callback (pos i) exception cs).1 in
    let (at, len) =
      register_exceptions-at k (suc i) j cs' (omega arith)
        (length-registered i exception cs (omega arith) ∙ l) in
    (at ∙ ground (arith, registered-at i j exception cs (omega arith) l), len)

-- The callback of interrupt `n`.
abbrev pub callback : ℕ → Option Callback
callback n =
    if n == 0
    then some zero_division
    else if ltb n 0x20
    then some exception
    else if n == 0x20
    then some clock
    else if n == 0x21
    then some keyboard
    else none

callbacks-from :
    (n : ℕ) (cs : List (Option Callback))
    → length cs ≡ 512
    → get_or (keyboard_callbacks (init_callbacks cs)) n none ≡ (
        if 0x21 == n
        then some keyboard
        else if 0x20 == n
        then some clock
        else if 0 == n
        then some zero_division
        else if leb 0 n && ltb n (0 + 0x20)
        then some exception
        else get_or cs n none)
unfolding keyboard_callbacks init_callbacks
callbacks-from n cs l =
    let (at1, l1) = register_exceptions-at 0x20 0 n cs (omega arith) l in
    let cs1 = register_exceptions 0x20 0 cs in
    let cs2 = (idt_register_interrupt_callback (pos 0) zero_division cs1).1 in
    let l2 = length-registered 0 zero_division cs1 (omega arith) ∙ l1 in
    let cs3 = (idt_register_interrupt_callback (pos 0x20) clock cs2).1 in
    let l3 = length-registered 0x20 clock cs2 (omega arith) ∙ l2 in
    registered-at 0x21 n keyboard cs3 (omega arith) l3
    ∙ ap (λ (o : Option Callback). if 0x21 == n then some keyboard else o)
        (registered-at 0x20 n clock cs2 (omega arith) l2
          ∙ ap (λ (o : Option Callback). if 0x20 == n then some clock else o)
              (registered-at 0 n zero_division cs1 (omega arith) l1
                ∙ ap (λ (o : Option Callback). if 0 == n then some zero_division else o) at1))

abbrev nothing : Option Callback
nothing = none

pub callbacks-at :
    (n : ℕ) → get_or (keyboard_callbacks (init_callbacks (replicate 512 none))) n none ≡ callback n
callbacks-at n =
    callbacks-from n (replicate 512 nothing) (length-replicate 512 nothing)
    ∙ rw (get_or-replicate 512 n nothing) (ground arith)

commands-at :
    {A : Type 0} (cs : List A) (n i : ℕ)
    → get_or (map some cs ++ replicate n none) i none ≡ get_elem? cs i
commands-at [] n i = get_or-replicate n i none
commands-at (c ∷ cs) n zero = refl
commands-at (c ∷ cs) n (suc i) = commands-at cs n i

get_elem?-past : {A : Type 0} (xs : List A) (i : ℕ) → length xs ≤ i → get_elem? xs i ≡ none
get_elem?-past [] i h = refl
get_elem?-past (x ∷ xs) zero h = absurd (omega arith)
get_elem?-past (x ∷ xs) (suc i) h = get_elem?-past xs i (omega arith)

abbrev pub commands : List (Option SystemCommand)
commands = map some all_commands ++ replicate 1015 none

pub isr80h_register_all_commands-some :
    isr80h_register_all_commands (replicate max_commands none) ≡ some commands
unfolding isr80h_register_all_commands
isr80h_register_all_commands-some = refl

pub find_command-commands : (i : ℕ) → find_command (pos i) commands ≡ get_elem? all_commands i
unfolding find_command
find_command-commands i = elim (Bool-cases (leb 1024 i)) [
  | inl e ↦ rw e (sym (get_elem?-past all_commands i (omega (arith, leb→le 1024 i e))))
  | inr e ↦ rw e (commands-at all_commands 1015 i)
]

pub gdt-some :
    (tss_address : ℕ)
    → (gdt : List Gdt) × (structured_to_gdt (gdt_structured tss_address) ≡ some gdt)
unfolding structured_to_gdt
gdt-some tss_address = (_, refl)
