-- ===== src/Idt/Descriptors.antt =====
-- The table of descriptors that `idt_init` makes, read as the processor reads it.
use peach_os.Prelude.{
  ℕ, zero, suc, ◌+◌, ◌*◌, ◌%◌, ◌^◌, ◌<◌, ◌≤◌, ◌≡◌, ◌≢◌, refl, sym, ap, ◌∙◌, List, arith, ◌==◌,
  if◌then◌else◌, get_or, length, replicate, bit_and, bit_and-low, eq→==, ne→==, get_or-set_self,
  get_or-set_ne, length-set, length-replicate, ℕ_discrete,
}
use mathlib.Core.Path.{subst}
use peach_os.Idt.{IdtDesc, zero_desc, idt_set, set_all, init_descriptors}

-- The address that a descriptor leads to.
abbrev pub handler_of : IdtDesc → ℕ
handler_of d = d.offset_1 + d.offset_2 * 65536

handler_of-set :
    (i a : ℕ) (ds : List IdtDesc)
    → a < 2 ^ 32
    → i < length ds
    → handler_of (get_or (idt_set i a ds) i zero_desc) ≡ a
unfolding idt_set
handler_of-set i a ds b h =
    ap handler_of (get_or-set_self ds i _ zero_desc h)
    ∙ omega (arith, (let low : bit_and a 0xFFFF ≡ a % 2 ^ 16 = bit_and-low 16 a in low))

length-idt_set : (i a : ℕ) (ds : List IdtDesc) → length (idt_set i a ds) ≡ length ds
unfolding idt_set
length-idt_set i a ds = length-set ds i _

length-set_all :
    (k i : ℕ) (pointers : ℕ → ℕ) (ds : List IdtDesc) → length (set_all k i pointers ds) ≡ length ds
unfolding set_all
length-set_all zero i pointers ds = refl
length-set_all (suc k) i pointers ds =
    length-set_all k (suc i) pointers (idt_set i (pointers i) ds) ∙ length-idt_set i (pointers i) ds

set_all-below :
    (k i j : ℕ) (pointers : ℕ → ℕ) (ds : List IdtDesc)
    → j < i
    → get_or (set_all k i pointers ds) j zero_desc ≡ get_or ds j zero_desc
unfolding set_all idt_set
set_all-below zero i j pointers ds h = refl
set_all-below (suc k) i j pointers ds h =
    set_all-below k (suc i) j pointers (idt_set i (pointers i) ds) (omega arith)
    ∙ get_or-set_ne ds i j _ zero_desc (λ e. omega arith)

set_all-get :
    (k i j : ℕ) (pointers : ℕ → ℕ) (ds : List IdtDesc)
    → ((n : ℕ) → pointers n < 2 ^ 32)
    → i ≤ j
    → j < i + k
    → i + k ≤ length ds
    → handler_of (get_or (set_all k i pointers ds) j zero_desc) ≡ pointers j
unfolding set_all
set_all-get zero i j pointers ds b l h n = absurd (omega arith)
set_all-get (suc k) i j pointers ds b l h n = elim (ℕ_discrete i j) [
  | yes e ↦
      ap (λ (d : IdtDesc). handler_of d) (set_all-below k (suc i) j pointers _ (omega arith))
      ∙ subst (λ (m : ℕ). handler_of (get_or (idt_set i (pointers i) ds) m zero_desc) ≡ pointers m)
          e (handler_of-set i (pointers i) ds (b i) (omega arith))
  | no ne ↦
      set_all-get k (suc i) j pointers (idt_set i (pointers i) ds) b (omega arith) (omega arith)
        (omega (arith, length-idt_set i (pointers i) ds))
]

idt_set-other :
    (i j a : ℕ) (ds : List IdtDesc)
    → i ≢ j
    → get_or (idt_set i a ds) j zero_desc ≡ get_or ds j zero_desc
unfolding idt_set
idt_set-other i j a ds ne = get_or-set_ne ds i j _ zero_desc ne

idt_set-handler_of :
    (k a i : ℕ) (ds : List IdtDesc)
    → a < 2 ^ 32
    → k < length ds
    → handler_of (get_or (idt_set k a ds) i zero_desc)
      ≡ (if i == k then a else handler_of (get_or ds i zero_desc))
idt_set-handler_of k a i ds b h = elim (ℕ_discrete i k) [
  | yes e ↦ rw (eq→== i k e) (
      subst (λ (m : ℕ). handler_of (get_or (idt_set k a ds) m zero_desc) ≡ a) (sym e)
        (handler_of-set k a ds b h))
  | no ne ↦ rw (ne→== i k ne) (ap handler_of (idt_set-other k i a ds (λ e. ne (sym e))))
]

-- With 32-bit addresses of the stubs and of the system call wrapper, every one of the 512 descriptors
-- of `idt_init` leads to its stub, but that of 0x80 to the wrapper.
pub init_descriptors-handler_of :
    (pointers : ℕ → ℕ) (isr80h_wrapper i : ℕ)
    → ((n : ℕ) → pointers n < 2 ^ 32)
    → isr80h_wrapper < 2 ^ 32
    → i < 512
    → handler_of (get_or (init_descriptors pointers isr80h_wrapper) i zero_desc)
      ≡ (if i == 0x80 then isr80h_wrapper else pointers i)
unfolding init_descriptors
init_descriptors-handler_of pointers w i b bw h =
    idt_set-handler_of 0x80 w i (set_all 512 0 pointers (replicate 512 zero_desc)) bw (
      omega (
        arith,
        length-set_all 512 0 pointers (replicate 512 zero_desc),
        length-replicate 512 zero_desc,
      ))
    ∙ ap (λ (a : ℕ). if i == 0x80 then w else a)
        (set_all-get 512 0 i pointers (replicate 512 zero_desc) b (omega arith) (omega arith)
          (omega (arith, length-replicate 512 zero_desc)))
