-- ===== src/File/Kept.antt =====
-- Opening and reading a file, for the table of open files: what stands in it, and that closing restores it.
use peach_os.Prelude.{
  ℕ, suc, ◌-◌, ◌<◌, ◌≡◌, ◌⊎◌, inl, inr, refl, ap, ap₂, ◌∙◌, get_or-set_self, arith, true,
  Bool-cases, ◌||◌, Option, none, some, ◌>>=◌, List, [], ◌∷◌, ◌==◌, get_or, set, set-set, ℤ, pos,
  negsuc, is_negative, eq_ℤ, if_elim, Ensures, Ensures-bind, Ensures-any, Option-cases,
}
use peach_os.PathParser.{parse}
use peach_os.Disk.{disk_get}
use peach_os.File.{
  Filesystem, FileDescriptor, Files, free_slot, file_get_mode_by_string, file_new_descriptor,
  file_get_descriptor, open_with, fopen_result, fopen, fread, fclose, store_private, mode_invalid,
}
use peach_os.File.Table.{
  free_slot-lem, set-set_free, new_descriptor-some, new_descriptor-none, get_descriptor-below,
}
use peach_os.File.Close.{fclose-closed}

module _ {P D : Type 0} (mounted : Option (Filesystem P D)) (files : Files P D) where
  abbrev pub entry : ℕ → Filesystem P D → P → FileDescriptor P D
  entry i fs p = record { index = suc i; filesystem = fs; private = p }

  -- The table with one more file, in its first free slot.
  abbrev pub Stands : ℕ → Files P D → Type 0
  Stands i gs =
      (free_slot files ≡ some i)
      × (fs : Filesystem P D) × (p : P) × (mounted ≡ some fs)
      × (gs ≡ set files i (some (entry i fs p)))

  abbrev pub Opened : ℤ × Files P D → Type 0
  Opened (fd, gs) = ((fd ≡ pos 0) × (gs ≡ files)) ⊎ ((i : ℕ) × (fd ≡ pos (suc i)) × Stands i gs)

  abbrev Result : ℤ × Files P D → Type 0
  Result (res, gs) =
      ((is_negative res ≡ true) × (gs ≡ files)) ⊎ ((i : ℕ) × (res ≡ pos (suc i)) × Stands i gs)

  new_descriptor-Result :
      (fs : Filesystem P D) (p : P) → mounted ≡ some fs → Result (file_new_descriptor fs p files)
  new_descriptor-Result fs p m = elim (Option-cases (free_slot files)) [
    | inl full ↦ rw (new_descriptor-none fs p files full) (inl (refl, refl))
    | inr (i, free) ↦
        rw (new_descriptor-some fs p files i free) (inr (i, refl, (free, fs, p, m, refl)))
  ]

  open_with-Result :
      (fs : Filesystem P D) (parts : List (List ℕ)) (mode : ℕ)
      → mounted ≡ some fs
      → Result (open_with fs parts mode files)
  unfolding open_with
  open_with-Result fs parts mode m =
      if_elim Result (mode == mode_invalid) _ _ (λ _. inl (refl, refl))
        (λ _. from (fs.open_file parts mode))
    where
      from :
          (o : ℕ ⊎ P)
          → Result (elim o [ inl n ↦ (negsuc n, files) | inr p ↦ file_new_descriptor fs p files ])
      from (inl n) = inl (refl, refl)
      from (inr p) = new_descriptor-Result fs p m

  abbrev with_parts :
      (mode_str : List ℕ) (drive : ℤ) (parts : List (List ℕ)) → Option (ℤ × Files P D)
  with_parts mode_str drive parts = elim parts [
    | [] ↦ some (negsuc 1, files)
    | part ∷ next_parts ↦ elim (disk_get drive) [
      | none ↦ some (negsuc 0, files)
      | some d ↦ elim mounted [
        | none ↦ some (negsuc 0, files)
        | some fs ↦ file_get_mode_by_string mode_str >>= λ mode.
            some (open_with fs (part ∷ next_parts) mode files)
      ]
    ]
  ]

  with_parts-Result :
      (mode_str : List ℕ) (drive : ℤ) (parts : List (List ℕ))
      → Ensures Result (with_parts mode_str drive parts)
  with_parts-Result mode_str drive [] = inl (refl, refl)
  with_parts-Result mode_str drive (part ∷ parts) = elim (Option-cases (disk_get drive)) [
    | inl no_disk ↦ rw (Ensures, no_disk) (inl (refl, refl))
    | inr (d, disk) ↦ elim (Option-cases mounted) [
      | inl no_fs ↦ rw (Ensures, disk, no_fs) (inl (refl, refl))
      | inr (fs, m) ↦
          rw (Ensures, disk, m)
            (Ensures-any Result (file_get_mode_by_string mode_str) _
              (λ mode. open_with-Result fs (part ∷ parts) mode m))
    ]
  ]

  fopen_result-Result :
      (filename mode_str : List ℕ) → Ensures Result (fopen_result mounted filename mode_str files)
  unfolding fopen_result
  fopen_result-Result filename mode_str = Ensures-any Result (parse filename) _ (λ root.
      elim root
        as (λ o. Ensures Result (elim o [
          | none ↦ some (negsuc 1, files)
          | some r ↦ with_parts mode_str r.drive_no r.parts
        ])) [ none ↦ inl (refl, refl) | some r ↦ with_parts-Result mode_str r.drive_no r.parts ])

  -- `fopen` answers 0 and leaves the table alone, or the number of the first free slot.
  pub fopen-Opened :
      (filename mode_str : List ℕ) → Ensures Opened (fopen mounted filename mode_str files)
  unfolding fopen
  fopen-Opened filename mode_str =
      Ensures-bind Result Opened (fopen_result mounted filename mode_str files) _
        (fopen_result-Result filename mode_str)
        (λ (res, gs) r. elim r [
          | inl (bad, same) ↦ rw bad (inl (refl, same))
          | inr (i, number, there) ↦ rw number (inr (i, refl, there))
        ])

  Stands-found :
      (i : ℕ) (gs : Files P D) (fs : Filesystem P D) (p : P)
      → i < 511
      → free_slot files ≡ some i
      → gs ≡ set files i (some (entry i fs p))
      → file_get_descriptor (pos (suc i)) gs ≡ some (entry i fs p)
  Stands-found i gs fs p l free e =
      get_descriptor-below i l gs
      ∙ ap (λ (t : Files P D). get_or t i none) e
      ∙ get_or-set_self files i _ none ((free_slot-lem files (some i) free).0)

  -- Reading leaves a file where it stands.
  pub fread-Stands :
      (size n i : ℕ) (gs : Files P D)
      → i < 511
      → Stands i gs
      → Stands i (fread size n (pos (suc i)) gs).1
  unfolding fread store_private
  fread-Stands size n i gs l (free, fs, p, m, e) =
      elim (Bool-cases
        ((size == 0) || (n == 0) || is_negative (pos (suc i)) || eq_ℤ (pos (suc i)) (pos 0))) [
          | inl bad ↦ rw (fread, bad) (free, fs, p, m, e)
          | inr ok ↦
              rw (fread, ok, Stands-found i gs fs p l free e)
                (
                  free,
                  fs,
                  (fs.read p size n).1,
                  m,
                  ap₂ (λ (t : Files P D) (k : ℕ). set t k (some (entry i fs (fs.read p size n).1)))
                        e (let q : suc i - 1 ≡ i = omega arith in q)
                      ∙ set-set files i _ _,
                )
        ]

  -- The filesystem closes every file.
  abbrev pub ClosesAll : Type 0
  ClosesAll = (fs : Filesystem P D) (p : P) → mounted ≡ some fs → fs.close p ≡ pos 0

  -- Closing a file that stands in the table restores it.
  pub fclose-Stands :
      (i : ℕ) (gs : Files P D)
      → ClosesAll
      → i < 511
      → Stands i gs
      → fclose (pos (suc i)) gs ≡ (pos 0, files)
  fclose-Stands i gs all l (free, fs, p, m, e) =
      fclose-closed (pos (suc i)) gs (entry i fs p) (Stands-found i gs fs p l free e) (all fs p m)
      ∙ ap (λ (t : Files P D). (pos 0, t))
          (ap₂ (λ (t : Files P D) (k : ℕ). set t k none) e
              (let q : suc i - 1 ≡ i = omega arith in q)
            ∙ set-set_free files i _ ((free_slot-lem files (some i) free).1))
