-- ===== src/Elf/Segments.antt =====
-- The addresses that the loader finds for a file, against its loadable program headers.
use peach_os.Prelude.{
  ℕ, suc, ◌<◌, ◌≤◌, ◌≡◌, ◌≢◌, refl, sym, ◌∙◌, arith, ◌⊎◌, inl, inr, add32, ℕ_discrete,
}
use mathlib.Core.Path.{subst}
use peach_os.Elf.{Bytes, ElfFile, p_type, p_offset, p_vaddr, p_filesz, elf_program_header}

module _ (mem : Bytes) (memory : ℕ) where
  -- Program header `k` of the file at `memory`, whether it is loadable, and where its segment begins
  -- and ends, in the process and in memory.
  abbrev pub header_at : ℕ → ℕ
  header_at k = elf_program_header mem memory k

  abbrev pub IsLoad : ℕ → Type 0
  IsLoad k = p_type mem (header_at k) ≡ 1

  abbrev pub first_byte : ℕ → ℕ
  first_byte k = p_vaddr mem (header_at k)

  abbrev pub end_byte : ℕ → ℕ
  end_byte k = add32 (p_vaddr mem (header_at k)) (p_filesz mem (header_at k))

  abbrev pub physical : ℕ → ℕ
  physical k = add32 memory (p_offset mem (header_at k))

  abbrev pub physical_end : ℕ → ℕ
  physical_end k = add32 (physical k) (p_filesz mem (header_at k))

  -- `b` is where the first segment begins of the first `n` headers, and `p` its place in memory; both
  -- are 0 if none of them is loadable.
  pub data IsBase (n b p : ℕ) : Type 0 where
    no_segment : b ≡ 0 → p ≡ 0 → ((k : ℕ) → k < n → IsLoad k → ⊥) → IsBase n b p
    lowest :
        (k : ℕ)
        → k < n
        → IsLoad k
        → b ≡ first_byte k
        → p ≡ physical k
        → ((j : ℕ) → j < n → IsLoad j → b ≤ first_byte j)
        → IsBase n b p

  -- `e` is where the last segment ends, likewise.
  pub data IsEnd (n e p : ℕ) : Type 0 where
    no_segment_end : e ≡ 0 → p ≡ 0 → ((k : ℕ) → k < n → IsLoad k → ⊥) → IsEnd n e p
    highest :
        (k : ℕ)
        → k < n
        → IsLoad k
        → e ≡ end_byte k
        → p ≡ physical_end k
        → ((j : ℕ) → j < n → IsLoad j → end_byte j ≤ e)
        → IsEnd n e p

  -- What holds for the first `n` headers and for header `n` holds for the first `n + 1`.
  upto : (P : ℕ → Type 0) (n : ℕ) → ((j : ℕ) → j < n → P j) → P n → (j : ℕ) → j < suc n → P j
  upto P n h p j lt = elim (ℕ_discrete j n) [
    | yes e ↦ subst P (sym e) p
    | no ne ↦ h j (omega arith)
  ]

  pub IsBase-skip : (n b p : ℕ) → (IsLoad n → ⊥) → IsBase n b p → IsBase (suc n) b p
  IsBase-skip n b p h (no_segment b0 p0 none) = no_segment b0 p0 (upto (λ k. IsLoad k → ⊥) n none h)
  IsBase-skip n b p h (lowest k lt l eb ep all) =
      lowest k (omega arith) l eb ep
        (upto (λ j. IsLoad j → b ≤ first_byte j) n all (λ l'. absurd (h l')))

  pub IsBase-take :
      (n b p : ℕ)
      → IsLoad n
      → IsBase n b p
      → (b ≡ 0) ⊎ (first_byte n ≤ b)
      → ((k : ℕ) → k < n → IsLoad k → first_byte k ≢ 0)
      → IsBase (suc n) (first_byte n) (physical n)
  IsBase-take n b p l (no_segment b0 p0 none) below nz = lowest n (omega arith) l refl refl (
      upto (λ j. IsLoad j → first_byte n ≤ first_byte j) n (λ j lt l'. absurd (none j lt l'))
        (λ l'. omega arith))
  IsBase-take n b p l (lowest k lt lk eb ep all) below nz = lowest n (omega arith) l refl refl (
      upto (λ j. IsLoad j → first_byte n ≤ first_byte j) n
        (λ j lt' l'. elim below [
          | inl z ↦ absurd (nz k lt lk (sym eb ∙ z))
          | inr le ↦ omega (arith, all j lt' l')
        ])
        (λ l'. omega arith))

  pub IsBase-keep : (n b p : ℕ) → b ≤ first_byte n → b ≢ 0 → IsBase n b p → IsBase (suc n) b p
  IsBase-keep n b p le nz (no_segment b0 p0 none) = absurd (nz b0)
  IsBase-keep n b p le nz (lowest k lt l eb ep all) =
      lowest k (omega arith) l eb ep (upto (λ j. IsLoad j → b ≤ first_byte j) n all (λ l'. le))

  pub IsEnd-skip : (n e p : ℕ) → (IsLoad n → ⊥) → IsEnd n e p → IsEnd (suc n) e p
  IsEnd-skip n e p h (no_segment_end e0 p0 none) =
      no_segment_end e0 p0 (upto (λ k. IsLoad k → ⊥) n none h)
  IsEnd-skip n e p h (highest k lt l ee ep all) =
      highest k (omega arith) l ee ep
        (upto (λ j. IsLoad j → end_byte j ≤ e) n all (λ l'. absurd (h l')))

  pub IsEnd-take :
      (n e p : ℕ)
      → IsLoad n
      → IsEnd n e p
      → e ≤ end_byte n
      → IsEnd (suc n) (end_byte n) (physical_end n)
  IsEnd-take n e p l (no_segment_end e0 p0 none) le = highest n (omega arith) l refl refl (
      upto (λ j. IsLoad j → end_byte j ≤ end_byte n) n (λ j lt l'. absurd (none j lt l'))
        (λ l'. omega arith))
  IsEnd-take n e p l (highest k lt lk ee ep all) le = highest n (omega arith) l refl refl (
      upto (λ j. IsLoad j → end_byte j ≤ end_byte n) n (λ j lt' l'. omega (arith, all j lt' l', le))
        (λ l'. omega arith))

  pub IsEnd-keep : (n e p : ℕ) → end_byte n < e → IsEnd n e p → IsEnd (suc n) e p
  IsEnd-keep n e p lt (no_segment_end e0 p0 none) = absurd (omega arith)
  IsEnd-keep n e p lt' (highest k lt l ee ep all) =
      highest k (omega arith) l ee ep
        (upto (λ j. IsLoad j → end_byte j ≤ e) n all (λ l'. omega arith))

  -- The addresses of a file after its first `n` headers.
  pub record Spans (n : ℕ) (file : ElfFile) : Type 0 where
    pub at : file.elf_memory ≡ memory
    pub base : IsBase n file.virtual_base_address file.physical_base_address
    pub end : IsEnd n file.virtual_end_address file.physical_end_address
