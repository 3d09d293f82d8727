-- ===== src/KernelHeap/Bytes.antt =====
-- Texts that are written to memory and read back.
use peach_os.Prelude.{
  ℕ, zero, suc, ◌+◌, ◌^◌, ◌<◌, ◌≡◌, refl, sym, ap, ap₂, ◌∙◌, arith, true, List, ◌∷◌, length, drop,
  get_or, drop-cons, drop-all, ltb, sub32, add32,
}
use peach_os.KernelHeap.{read_bytes, write_bytes}

pub length-read_bytes : (n p : ℕ) (mem : ℕ → ℕ) → length (read_bytes n p mem) ≡ n
length-read_bytes zero p mem = refl
length-read_bytes (suc n) p mem = ap suc (length-read_bytes n (add32 p 1) mem)

write_bytes-inside :
    (p k : ℕ) (text : List ℕ) (mem : ℕ → ℕ)
    → k < length text
    → p + k < 2 ^ 32
    → write_bytes p text mem (p + k) ≡ get_or text k 0
write_bytes-inside p k text mem l b =
    let here : sub32 (p + k) p ≡ k = omega arith in
    let inside : ltb k (length text) ≡ true = ground arith in rw (here, inside) refl

read_bytes-from :
    (n p k : ℕ) (text : List ℕ) (mem : ℕ → ℕ)
    → k + n ≡ length text
    → p + k + n < 2 ^ 32
    → read_bytes n (p + k) (write_bytes p text mem) ≡ drop k text
read_bytes-from zero p k text mem e b = sym (drop-all k text (omega arith))
read_bytes-from (suc n) p k text mem e b =
    ap₂ ◌∷◌ (write_bytes-inside p k text mem (omega arith) (omega arith)) (
      ap (λ (q : ℕ). read_bytes n q (write_bytes p text mem)) {x = add32 (p + k) 1} {y = p + suc k}
        (omega arith)
      ∙ read_bytes-from n p (suc k) text mem (omega arith) (omega arith))
    ∙ sym (drop-cons text k 0 (omega arith))

-- Reading a text back.
pub read_bytes-write_bytes :
    (p : ℕ) (text : List ℕ) (mem : ℕ → ℕ)
    → p + length text < 2 ^ 32
    → read_bytes (length text) p (write_bytes p text mem) ≡ text
read_bytes-write_bytes p text mem b =
    ap (λ (q : ℕ). read_bytes (length text) q (write_bytes p text mem)) {x = p} {y = p + 0}
      (omega arith)
    ∙ read_bytes-from (length text) p 0 text mem (omega arith) (omega arith)
