-- ===== src/Elf/Load.antt =====
-- What the loader does with a file: the addresses over all its headers, and its result.
use peach_os.Prelude.{
  ℕ, zero, suc, ◌+◌, ◌<◌, ◌≡◌, ◌≢◌, refl, sym, ◌∙◌, arith, ◌||◌, inl, inr, ◌==◌, leb, add32,
  ℕ_discrete, eq→==, ne→==, Bool-cases, pos, negsuc,
}
use mathlib.Core.Path.{subst}
use peach_os.Elf.{
  Bytes, ElfFile, p_type, p_vaddr, p_filesz, e_phnum, elf_program_header, lower_base, raise_end,
  elf_process_pheader_pt_load, elf_process_pheader, process_from, elf_process_pheaders,
  elf_validate_loaded, elf_process_loaded,
}
use peach_os.Elf.Segments.{
  header_at, IsLoad, first_byte, end_byte, IsBase, no_segment, IsEnd, no_segment_end, Spans,
  IsBase-skip, IsBase-take, IsBase-keep, IsEnd-skip, IsEnd-take, IsEnd-keep,
}

module _ (mem : Bytes) (memory : ℕ) where
  -- Loadable segments do not begin at address 0, which stands for no address.
  abbrev pub NonZero : ℕ → Type 0
  NonZero n = (k : ℕ) → k < n → IsLoad mem memory k → first_byte mem memory k ≢ 0

  -- What the two halves of a step leave alone.
  lower_base-keeps :
      (file : ElfFile) (phdr : ℕ)
      → ((lower_base mem file phdr).elf_memory ≡ file.elf_memory)
        × ((lower_base mem file phdr).virtual_end_address ≡ file.virtual_end_address)
        × ((lower_base mem file phdr).physical_end_address ≡ file.physical_end_address)
  unfolding lower_base
  lower_base-keeps file phdr =
      elim (Bool-cases
        (leb (p_vaddr mem phdr) file.virtual_base_address || (file.virtual_base_address == 0))) [
          | inl lower ↦ rw (lower_base, lower) (refl, refl, refl)
          | inr keep ↦ rw (lower_base, keep) (refl, refl, refl)
        ]

  raise_end-keeps :
      (file : ElfFile) (phdr : ℕ)
      → ((raise_end mem file phdr).elf_memory ≡ file.elf_memory)
        × ((raise_end mem file phdr).virtual_base_address ≡ file.virtual_base_address)
        × ((raise_end mem file phdr).physical_base_address ≡ file.physical_base_address)
  unfolding raise_end
  raise_end-keeps file phdr =
      elim (Bool-cases (
        leb file.virtual_end_address (add32 (p_vaddr mem phdr) (p_filesz mem phdr))
        || (file.virtual_end_address == 0))) [
          | inl raise ↦ rw (raise_end, raise) (refl, refl, refl)
          | inr keep ↦ rw (raise_end, keep) (refl, refl, refl)
        ]

  lower_base-IsBase :
      (n : ℕ) (file : ElfFile)
      → file.elf_memory ≡ memory
      → IsLoad mem memory n
      → NonZero n
      → IsBase mem memory n file.virtual_base_address file.physical_base_address
      → IsBase mem memory
          (suc n)
          (lower_base mem file (header_at mem memory n)).virtual_base_address
          (lower_base mem file (header_at mem memory n)).physical_base_address
  unfolding lower_base
  lower_base-IsBase n file at l nz b =
      elim (Bool-cases (
        leb (first_byte mem memory n) file.virtual_base_address
        || (file.virtual_base_address == 0))) [
          | inl lower ↦
              rw (lower_base, lower, at) (IsBase-take mem memory n _ _ l b (ground arith) nz)
          | inr keep ↦
              rw (lower_base, keep) (IsBase-keep mem memory n _ _ (ground arith) (ground arith) b)
        ]

  raise_end-IsEnd :
      (n : ℕ) (file : ElfFile)
      → file.elf_memory ≡ memory
      → IsLoad mem memory n
      → IsEnd mem memory n file.virtual_end_address file.physical_end_address
      → IsEnd mem memory
          (suc n)
          (raise_end mem file (header_at mem memory n)).virtual_end_address
          (raise_end mem file (header_at mem memory n)).physical_end_address
  unfolding raise_end
  raise_end-IsEnd n file at l e =
      elim (Bool-cases
        (leb file.virtual_end_address (end_byte mem memory n) || (file.virtual_end_address == 0))) [
          | inl raise ↦ rw (raise_end, raise, at) (IsEnd-take mem memory n _ _ l e (ground arith))
          | inr keep ↦ rw (raise_end, keep) (IsEnd-keep mem memory n _ _ (ground arith) e)
        ]

  elf_process_pheader-Spans :
      (n : ℕ) (file : ElfFile)
      → NonZero n
      → Spans mem memory n file
      → Spans mem memory (suc n) (elf_process_pheader mem file (header_at mem memory n))
  unfolding elf_process_pheader elf_process_pheader_pt_load
  elf_process_pheader-Spans n file nz s =
      elim (ℕ_discrete (p_type mem (header_at mem memory n)) 1) [
        | no other ↦
            rw (elf_process_pheader, ne→== _ _ other)
              (record {
                at = s.at;
                base = IsBase-skip mem memory n _ _ other s.base;
                end = IsEnd-skip mem memory n _ _ other s.end;
              })
        | yes load ↦
            let low = lower_base mem file (header_at mem memory n) in
            let (at', e', pe') = lower_base-keeps file (header_at mem memory n) in
            let (at'', b'', pb'') = raise_end-keeps low (header_at mem memory n) in
            rw (elf_process_pheader, eq→== _ _ load, elf_process_pheader_pt_load)
              (record {
                at = at'' ∙ at' ∙ s.at;
                base = rw (b'', pb'') (lower_base-IsBase n file s.at load nz s.base);
                end = raise_end-IsEnd n low (at' ∙ s.at) load (rw (e', pe') s.end);
              })
      ]

  process_from-Spans :
      (n k i : ℕ) (file : ElfFile)
      → i + k ≡ n
      → NonZero n
      → Spans mem memory i file
      → Spans mem memory n (process_from mem k i file)
  unfolding process_from
  process_from-Spans n zero i file e nz s =
      subst (λ (m : ℕ). Spans mem memory m file) (let q : i ≡ n = omega arith in q) s
  process_from-Spans n (suc k) i file e nz s = process_from-Spans n k (suc i) _ (omega arith) nz (
      subst
        (λ (m : ℕ).
          Spans mem memory (suc i) (elf_process_pheader mem file (elf_program_header mem m i)))
        (sym s.at) (elf_process_pheader-Spans i file (λ k' lt. nz k' (omega arith)) s))

  -- For a file that is not processed yet, and whose loadable segments do not begin at address 0,
  -- `elf_process_pheaders` finds where the lowest segment begins and where the highest one ends, in
  -- the process and in memory; the addresses stay 0 if no segment is loadable.
  pub elf_process_pheaders-Spans :
      NonZero (e_phnum mem memory)
      → Spans mem memory (e_phnum mem memory) (
          elf_process_pheaders mem (record {
            elf_memory = memory;
            virtual_base_address = 0;
            virtual_end_address = 0;
            physical_base_address = 0;
            physical_end_address = 0;
          }))
  unfolding elf_process_pheaders
  elf_process_pheaders-Spans nz =
      process_from-Spans (e_phnum mem memory) (e_phnum mem memory) 0 _ (omega arith) nz (record {
        at = refl;
        base = no_segment refl refl (λ k lt l. omega arith);
        end = no_segment_end refl refl (λ k lt l. omega arith);
      })

-- Whatever stands in memory, `elf_process_loaded` answers 0; a file that is not valid it leaves as it
-- was.
elf_process_loaded-invalid :
    (mem : Bytes) (file : ElfFile)
    → elf_validate_loaded mem file.elf_memory ≡ negsuc 8
    → elf_process_loaded mem file ≡ (pos 0, file)
unfolding elf_process_loaded
elf_process_loaded-invalid mem file e = rw (elf_process_loaded, e) refl
