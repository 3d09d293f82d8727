-- ===== src/Memory/Laws.antt =====
-- What the memory routines write and compare, within their buffers.
use peach_os.Prelude.{
  ℕ, zero, suc, ◌+◌, ◌%◌, ◌^◌, ◌≤◌, ◌≡◌, refl, ◌↔◌, some, List, [], ◌∷◌, ◌++◌, arith, length, take,
  drop, replicate, ℕ_discrete, eq→==, ne→==, ltb, if◌then◌else◌, ◌≢◌, ℤ, pos, negsuc,
}
use peach_os.Memory.{memset, memcmp, memcpy}

-- `memset` writes `size` copies of the byte and keeps what is behind them.
pub memset_lem :
    (ptr : List ℕ) (c size : ℕ)
    → size ≤ length ptr
    → memset ptr c size ≡ some (replicate size (c % 2 ^ 8) ++ drop size ptr)
unfolding memset
memset_lem ptr c zero h = refl
memset_lem [] c (suc size) h = absurd (omega arith)
memset_lem (b ∷ ptr) c (suc size) h = rw (memset_lem ptr c size (omega arith))

-- `memcpy` copies the first `len` bytes and keeps what is behind them.
pub memcpy_lem :
    (dest src : List ℕ) (len : ℕ)
    → len ≤ length dest
    → len ≤ length src
    → memcpy dest src len ≡ some (take len src ++ drop len dest)
unfolding memcpy
memcpy_lem dest src zero h k = refl
memcpy_lem dest [] (suc len) h k = absurd (omega arith)
memcpy_lem [] (s ∷ src) (suc len) h k = absurd (omega arith)
memcpy_lem (d ∷ dest) (s ∷ src) (suc len) h k =
    rw (memcpy_lem dest src len (omega arith) (omega arith))

abbrev order : ℕ → ℕ → ℤ
order a b = if ltb ((a + 128) % 2 ^ 8) ((b + 128) % 2 ^ 8) then negsuc 0 else pos 1

order-ne-zero : (a b : ℕ) → order a b ≢ pos 0
order-ne-zero a b = ground arith

-- `memcmp` answers 0 exactly if the first `len` bytes agree.
pub memcmp_lem :
    (s t : List ℕ) (len : ℕ)
    → len ≤ length s
    → len ≤ length t
    → (z : ℤ) × (memcmp s t len ≡ some z) × ((z ≡ pos 0) ↔ (take len s ≡ take len t))
unfolding memcmp
memcmp_lem s t zero h k = (pos 0, refl, ((λ _. refl), (λ _. refl)))
memcmp_lem [] t (suc len) h k = absurd (omega arith)
memcmp_lem (a ∷ s) [] (suc len) h k = absurd (omega arith)
memcmp_lem (a ∷ s) (b ∷ t) (suc len) h k = elim (ℕ_discrete a b) [
  | no ne ↦
      (order a b, rw (ne→== a b ne), ((λ e. absurd (order-ne-zero a b e)), (λ e. absurd (ne (cc)))))
  | yes eq ↦
      let (z, found, iff) = memcmp_lem s t len (omega arith) (omega arith) in
      (z, rw (eq→== a b eq, found), ((λ e. cc (iff.0 e)), (λ e. iff.1 (cc))))
]
