-- ===== src/File/Table.antt =====
-- The slot that `fopen` takes, and what `file_get_descriptor` finds behind it.
use peach_os.Prelude.{
  ℕ, zero, suc, ◌<◌, ◌≤◌, ◌≡◌, ◌≢◌, refl, sym, ap, ◌∙◌, arith, true, false, ◌||◌, Option, none,
  some, List, [], ◌∷◌, ◌==◌, leb, ◌>>=◌, inl, inr, get_or, set, length, ℤ, pos, negsuc, dec_lt,
  Bool, if◌then◌else◌, eq_ℤ, get_or-set_self, get_or-set_ne, Option-cases,
}
use mathlib.Core.Path.{subst}
use peach_os.File.{
  Filesystem, FileDescriptor, Files, free_slot, file_new_descriptor, file_get_descriptor, fclose,
  fread, fseek, fstat,
}

module _ {A : Type 0} where
  -- The first null pointer of an array, or that it has none.
  abbrev pub IsFirstFree : List (Option A) → Option ℕ → Type 0
  IsFirstFree xs none = (j : ℕ) → j < length xs → get_or xs j none ≢ none
  IsFirstFree xs (some i) =
      (i < length xs) × (get_or xs i none ≡ none) × ((j : ℕ) → j < i → get_or xs j none ≢ none)

  taken-cons :
      (a : A) (xs : List (Option A)) (n : ℕ)
      → ((j : ℕ) → j < n → get_or xs j none ≢ none)
      → (j : ℕ) → j < suc n
      → get_or (some a ∷ xs) j none ≢ none
  taken-cons a xs n h zero k e = absurd (ground arith)
  taken-cons a xs n h (suc j) k e = h j (omega arith) e

  IsFirstFree-cons :
      (a : A) (xs : List (Option A)) (o : Option ℕ)
      → IsFirstFree xs o
      → IsFirstFree (some a ∷ xs) (o >>= λ i. some (suc i))
  IsFirstFree-cons a xs none h = taken-cons a xs (length xs) h
  IsFirstFree-cons a xs (some i) (lt, free, taken) = (omega arith, free, taken-cons a xs i taken)

  pub free_slot-IsFirstFree : (xs : List (Option A)) → IsFirstFree xs (free_slot xs)
  unfolding free_slot
  free_slot-IsFirstFree [] = λ j h. absurd (omega arith)
  free_slot-IsFirstFree (none ∷ xs) = (omega arith, refl, λ j h. absurd (omega arith))
  free_slot-IsFirstFree (some a ∷ xs) =
      IsFirstFree-cons a xs (free_slot xs) (free_slot-IsFirstFree xs)

  pub free_slot-lem : (xs : List (Option A)) (o : Option ℕ) → free_slot xs ≡ o → IsFirstFree xs o
  free_slot-lem xs o e = subst (IsFirstFree xs) e (free_slot-IsFirstFree xs)

  -- Writing a pointer over a null pointer and removing it again.
  pub set-set_free :
      (xs : List (Option A)) (i : ℕ) (a : A)
      → get_or xs i none ≡ none
      → set (set xs i (some a)) i none ≡ xs
  set-set_free [] i a e = refl
  set-set_free (x ∷ xs) zero a e = ap (λ t. t ∷ xs) (sym e)
  set-set_free (x ∷ xs) (suc i) a e = ap (λ t. x ∷ t) (set-set_free xs i a e)

if_same : {B : Type 0} (b : Bool) (x : B) → (if b then x else x) ≡ x
if_same true x = refl
if_same false x = refl

module _ {P D : Type 0} where
  pub get_descriptor-below :
      (i : ℕ) → i < 511 → (gs : Files P D) → file_get_descriptor (pos (suc i)) gs ≡ get_or gs i none
  unfolding file_get_descriptor
  get_descriptor-below i h gs = rw (let e : leb 512 (suc i) ≡ false = ground arith in e) (
      rw (let e : (suc i == 0) ≡ false = ground arith in e)
        (ap (λ (j : ℕ). get_or gs j none) (omega arith)))

  get_descriptor-above :
      (i : ℕ) → 511 ≤ i → (gs : Files P D) → file_get_descriptor (pos (suc i)) gs ≡ none
  unfolding file_get_descriptor
  get_descriptor-above i h gs =
      rw (let e : ((suc i == 0) || leb 512 (suc i)) ≡ true = ground arith in e) refl

  -- What an answer of `file_get_descriptor` says.
  pub get_descriptor-some :
      (fd : ℤ) (gs : Files P D) (desc : FileDescriptor P D)
      → file_get_descriptor fd gs ≡ some desc
      → (i : ℕ) × (fd ≡ pos (suc i)) × (i < 511) × (get_or gs i none ≡ some desc)
  unfolding file_get_descriptor
  get_descriptor-some (negsuc n) gs desc e = absurd (ground arith)
  get_descriptor-some (pos zero) gs desc e = absurd (ground arith)
  get_descriptor-some (pos (suc i)) gs desc e = elim (dec_lt i 511) [
    | yes h ↦ (i, refl, h, sym (get_descriptor-below i h gs) ∙ e)
    | no h ↦ absurd (
        let e' : none ≡ some desc = sym (get_descriptor-above i (omega arith) gs) ∙ e in
        ground arith)
  ]

module _ {P D : Type 0} (fs : Filesystem P D) (p : P) (files : Files P D) where
  pub new_descriptor-some :
      (i : ℕ)
      → free_slot files ≡ some i
      → file_new_descriptor fs p files
        ≡ (pos (suc i), set files i (some (record { index = suc i; filesystem = fs; private = p })))
  unfolding file_new_descriptor
  new_descriptor-some i e = rw (file_new_descriptor, e) refl

  pub new_descriptor-none :
      free_slot files ≡ none → file_new_descriptor fs p files ≡ (negsuc 2, files)
  unfolding file_new_descriptor
  new_descriptor-none e = rw (file_new_descriptor, e) refl

  -- If the first free slot is one of the first 511, the file is opened under the number after the
  -- slot's index, and that number leads to it.
  pub file_new_descriptor-get :
      (i : ℕ)
      → free_slot files ≡ some i
      → i < 511
      → ((file_new_descriptor fs p files).0 ≡ pos (suc i))
        × (file_get_descriptor (pos (suc i)) (file_new_descriptor fs p files).1
            ≡ some (record { index = suc i; filesystem = fs; private = p }))
  file_new_descriptor-get i e h = rw (new_descriptor-some i e) (
    refl,
    get_descriptor-below i h _
        ∙ get_or-set_self files i _ none ((free_slot-lem files (some i) e).0),
  )

  -- A file that is open stays what it is when another one is opened.
  pub file_new_descriptor-keeps :
      (fd : ℤ) (desc : FileDescriptor P D)
      → file_get_descriptor fd files ≡ some desc
      → file_get_descriptor fd (file_new_descriptor fs p files).1 ≡ some desc
  file_new_descriptor-keeps fd desc e =
      let (i, is_i, below, found) = get_descriptor-some fd files desc e in
      elim (Option-cases (free_slot files)) [
        | inl full ↦ rw (new_descriptor-none full) e
        | inr (k, free) ↦
            rw (is_i, new_descriptor-some k free)
              (get_descriptor-below i below _
                ∙ get_or-set_ne files k i _ none (λ eq.
                  let free' : get_or files i none ≡ none =
                    ap (λ (j : ℕ). get_or files j none) (sym eq)
                    ∙ (free_slot-lem files (some k) free).1 in
                  let clash : none ≡ some desc = sym free' ∙ found in ground arith)
                ∙ found)
      ]

  -- Where slot 511 is the first free one, the last of 512, a file is opened under the number 512, which
  -- leads to no descriptor: reading from it, seeking in it, its status and closing it all answer an
  -- error, and the table stays as it is.
  pub file_new_descriptor-last :
      free_slot files ≡ some 511
      → ((file_new_descriptor fs p files).0 ≡ pos 512)
        × (file_get_descriptor (pos 512) (file_new_descriptor fs p files).1 ≡ none)
        × ((size n : ℕ)
            → fread size n (pos 512) (file_new_descriptor fs p files).1
              ≡ ((negsuc 1, []), (file_new_descriptor fs p files).1))
        × ((offset whence : ℕ)
            → fseek (pos 512) offset whence (file_new_descriptor fs p files).1
              ≡ (negsuc 0, (file_new_descriptor fs p files).1))
        × (fstat (pos 512) (file_new_descriptor fs p files).1 ≡ (negsuc 0, none))
        × (fclose (pos 512) (file_new_descriptor fs p files).1
            ≡ (negsuc 1, (file_new_descriptor fs p files).1))
  unfolding fclose fread fseek fstat file_get_descriptor
  file_new_descriptor-last e = rw (new_descriptor-some 511 e) (
    refl,
    refl,
    λ size n. if_same ((size == 0) || (n == 0) || false || eq_ℤ (pos 512) (pos 0)) _,
    λ offset whence. refl,
    refl,
    refl,
  )
