-- ===== src/Idt/Tests.antt =====
-- Runs of the interrupt tables of Idt, and the theorems at concrete inputs.
use peach_os.Prelude.{ℕ, ◌≡◌, refl, none, some, [], ◌∷◌, get_or, arith, pos}
use peach_os.Idt.{zero_desc, init_descriptors, idt_register_interrupt_callback}
use peach_os.Idt.Descriptors.{handler_of, init_descriptors-handler_of}

idt_register_interrupt_callback-run :
    idt_register_interrupt_callback {C = ℕ} (pos 1) 9 (none ∷ none ∷ none ∷ [])
    ≡ (pos 0, none ∷ some 9 ∷ none ∷ [])
unfolding idt_register_interrupt_callback
idt_register_interrupt_callback-run = refl

init_descriptors-handler_of_example :
    handler_of (get_or (init_descriptors (λ n. 7) 5000) 0x80 zero_desc) ≡ 5000
init_descriptors-handler_of_example =
    init_descriptors-handler_of (λ n. 7) 5000 0x80 (λ n. omega arith) (omega arith) (omega arith)
