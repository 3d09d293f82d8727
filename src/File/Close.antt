-- ===== src/File/Close.antt =====
-- Closing files, and the tables that calls on files lead to.
use peach_os.Prelude.{
  ℕ, zero, suc, ◌-◌, ◌<◌, ◌≡◌, refl, sym, ap, ◌∙◌, arith, ◌||◌, Option, none, some, List, [], ◌∷◌,
  ◌==◌, ◌⊎◌, inl, inr, get_or, set, ℤ, pos, negsuc, eq_ℤ, is_negative, get_or-replicate,
  Option-cases, Bool-cases,
}
use peach_os.File.{
  Filesystem, FileDescriptor, Files, free_slot, fs_init, file_new_descriptor, file_get_descriptor,
  fclose, file_free_descriptor, fseek, fread, store_private,
}
use peach_os.File.Table.{
  free_slot-lem, set-set_free, get_descriptor-below, get_descriptor-some, new_descriptor-some,
  file_new_descriptor-get,
}

-- A pointer that is found after a write was written, or found before.
get_or-set-some :
    {A : Type 0} (xs : List (Option A)) (k i : ℕ) (v : Option A) (a : A)
    → get_or (set xs k v) i none ≡ some a
    → ((i ≡ k) × (v ≡ some a)) ⊎ (get_or xs i none ≡ some a)
get_or-set-some [] k i v a e = inr e
get_or-set-some (x ∷ xs) zero zero v a e = inl (refl, e)
get_or-set-some (x ∷ xs) zero (suc i) v a e = inr e
get_or-set-some (x ∷ xs) (suc k) zero v a e = inr e
get_or-set-some (x ∷ xs) (suc k) (suc i) v a e = elim (get_or-set-some xs k i v a e) [
  | inl (eq, found) ↦ inl (ap suc eq, found)
  | inr found ↦ inr found
]

get_or-set-none : {A : Type 0} (xs : List (Option A)) (i : ℕ) → get_or (set xs i none) i none ≡ none
get_or-set-none [] i = refl
get_or-set-none (x ∷ xs) zero = refl
get_or-set-none (x ∷ xs) (suc i) = get_or-set-none xs i

module _ {P D : Type 0} where
  -- Each descriptor holds the number that leads to its slot.
  abbrev pub IsIndexed : Files P D → Type 0
  IsIndexed files =
      (i : ℕ) (desc : FileDescriptor P D) → get_or files i none ≡ some desc → desc.index ≡ suc i

  -- The tables that calls on files lead to: `fopen` changes them by `file_new_descriptor` alone.
  pub data Reachable : Files P D → Type 0 where
    init : Reachable (fs_init P D)
    opens :
        {files : Files P D} (fs : Filesystem P D) (p : P)
        → Reachable files
        → Reachable (file_new_descriptor fs p files).1
    closes : {files : Files P D} (fd : ℤ) → Reachable files → Reachable (fclose fd files).1
    seeks :
        {files : Files P D} (fd : ℤ) (offset whence : ℕ)
        → Reachable files
        → Reachable (fseek fd offset whence files).1
    reads :
        {files : Files P D} (size n : ℕ) (fd : ℤ)
        → Reachable files
        → Reachable (fread size n fd files).1

  set-IsIndexed :
      (files : Files P D) (k : ℕ) (desc : FileDescriptor P D)
      → desc.index ≡ suc k
      → IsIndexed files
      → IsIndexed (set files k (some desc))
  set-IsIndexed files k desc e h i d f = elim (get_or-set-some files k i (some desc) d f) [
    | inl (eq, found) ↦ cc
    | inr found ↦ h i d found
  ]

  free-IsIndexed : (files : Files P D) (k : ℕ) → IsIndexed files → IsIndexed (set files k none)
  free-IsIndexed files k h i d f = elim (get_or-set-some files k i none d f) [
    | inl (eq, found) ↦ absurd (ground arith)
    | inr found ↦ h i d found
  ]

  init-IsIndexed : IsIndexed (fs_init P D)
  unfolding fs_init
  init-IsIndexed i desc e =
      let empty : none ≡ some desc = sym (get_or-replicate 512 i none) ∙ e in absurd (ground arith)

  new_descriptor-IsIndexed :
      (fs : Filesystem P D) (p : P) (files : Files P D)
      → IsIndexed files
      → IsIndexed (file_new_descriptor fs p files).1
  unfolding file_new_descriptor
  new_descriptor-IsIndexed fs p files h = elim (Option-cases (free_slot files)) [
    | inl full ↦ rw (file_new_descriptor, full) h
    | inr (k, free) ↦ rw (file_new_descriptor, free) (set-IsIndexed files k _ refl h)
  ]

  -- `fclose` on no file, on a file that its filesystem closes, and on one that it does not.
  pub fclose-missing :
      (fd : ℤ) (files : Files P D)
      → file_get_descriptor fd files ≡ none
      → fclose fd files ≡ (negsuc 1, files)
  unfolding fclose
  fclose-missing fd files e = rw (fclose, e) refl

  pub fclose-closed :
      (fd : ℤ) (files : Files P D) (desc : FileDescriptor P D)
      → file_get_descriptor fd files ≡ some desc
      → desc.filesystem.close desc.private ≡ pos 0
      → fclose fd files ≡ (pos 0, set files (desc.index - 1) none)
  unfolding fclose file_free_descriptor
  fclose-closed fd files desc e c = rw (fclose, e, c) refl

  fclose-IsIndexed : (fd : ℤ) (files : Files P D) → IsIndexed files → IsIndexed (fclose fd files).1
  unfolding fclose file_free_descriptor
  fclose-IsIndexed fd files h = elim (Option-cases (file_get_descriptor fd files)) [
    | inl missing ↦ rw (fclose, missing) h
    | inr (desc, found) ↦ elim (Bool-cases (eq_ℤ (desc.filesystem.close desc.private) (pos 0))) [
      | inl ok ↦ rw (fclose, found, ok) (free-IsIndexed files (desc.index - 1) h)
      | inr bad ↦ rw (fclose, found, bad) h
    ]
  ]

  store-IsIndexed :
      (fd : ℤ) (p : P) (files : Files P D) (desc : FileDescriptor P D)
      → file_get_descriptor fd files ≡ some desc
      → IsIndexed files
      → IsIndexed (store_private fd p desc files)
  unfolding store_private
  store-IsIndexed fd p files desc e h =
      let (i, is_i, below, found) = get_descriptor-some fd files desc e in
      rw (is_i, store_private, (let q : suc i - 1 ≡ i = omega arith in q))
        (set-IsIndexed files i (record desc { private = p }) (h i desc found) h)

  fseek-IsIndexed :
      (fd : ℤ) (offset whence : ℕ) (files : Files P D)
      → IsIndexed files
      → IsIndexed (fseek fd offset whence files).1
  unfolding fseek
  fseek-IsIndexed fd offset whence files h = elim (Option-cases (file_get_descriptor fd files)) [
    | inl missing ↦ rw (fseek, missing) h
    | inr (desc, found) ↦ rw (fseek, found) (store-IsIndexed fd _ files desc found h)
  ]

  fread-IsIndexed :
      (size n : ℕ) (fd : ℤ) (files : Files P D)
      → IsIndexed files
      → IsIndexed (fread size n fd files).1
  unfolding fread
  fread-IsIndexed size n fd files h =
      elim (Bool-cases ((size == 0) || (n == 0) || is_negative fd || eq_ℤ fd (pos 0))) [
        | inl bad ↦ rw (fread, bad) h
        | inr ok ↦ elim (Option-cases (file_get_descriptor fd files)) [
          | inl missing ↦ rw (fread, ok, missing) h
          | inr (desc, found) ↦ rw (fread, ok, found) (store-IsIndexed fd _ files desc found h)
        ]
      ]

  -- In every table that calls on files lead to, each descriptor holds the number that leads to its slot.
  pub Reachable-IsIndexed : (files : Files P D) → Reachable files → IsIndexed files
  Reachable-IsIndexed _ init = init-IsIndexed
  Reachable-IsIndexed _ (opens fs p r) = new_descriptor-IsIndexed fs p _ (Reachable-IsIndexed _ r)
  Reachable-IsIndexed _ (closes fd r) = fclose-IsIndexed fd _ (Reachable-IsIndexed _ r)
  Reachable-IsIndexed _ (seeks fd offset whence r) =
      fseek-IsIndexed fd offset whence _ (Reachable-IsIndexed _ r)
  Reachable-IsIndexed _ (reads size n fd r) = fread-IsIndexed size n fd _ (Reachable-IsIndexed _ r)

  -- Closing an open file of a reachable table, which its filesystem closes, answers 0, and closing it a
  -- second time answers -EINVARG and changes nothing.
  pub fclose-fclose :
      (files : Files P D) (fd : ℤ) (desc : FileDescriptor P D)
      → Reachable files
      → file_get_descriptor fd files ≡ some desc
      → desc.filesystem.close desc.private ≡ pos 0
      → ((fclose fd files).0 ≡ pos 0)
        × (fclose fd (fclose fd files).1 ≡ (negsuc 1, (fclose fd files).1))
  fclose-fclose files fd desc r e c =
      let (i, is_i, below, found) = get_descriptor-some fd files desc e in
      rw (fclose-closed fd files desc e c, Reachable-IsIndexed files r i desc found)
        (
          refl,
          fclose-missing fd _ (
              rw (is_i, (let q : suc i - 1 ≡ i = omega arith in q))
                (get_descriptor-below i below _ ∙ get_or-set-none files i)),
        )

  -- Where the first free slot is one of the first 511, and the filesystem answers 0 to closing the file:
  -- closing it right after it is opened answers 0 and restores the table.
  pub fclose-file_new_descriptor :
      (fs : Filesystem P D) (p : P) (files : Files P D) (i : ℕ)
      → free_slot files ≡ some i
      → i < 511
      → fs.close p ≡ pos 0
      → fclose (file_new_descriptor fs p files).0 (file_new_descriptor fs p files).1
        ≡ (pos 0, files)
  fclose-file_new_descriptor fs p files i free h c =
      let (number, found) = file_new_descriptor-get fs p files i free h in
      rw number (
        fclose-closed (pos (suc i)) _ _ found c
        ∙ rw (new_descriptor-some fs p files i free, (let q : suc i - 1 ≡ i = omega arith in q))
            (ap (λ (t : Files P D). (pos 0, t))
              (set-set_free files i _ ((free_slot-lem files (some i) free).1))))
