-- ===== src/Fat16/Search.antt =====
-- A search of a directory as a walk along its items.
use peach_os.Prelude.{
  ℕ, zero, suc, ◌+◌, ◌≤◌, ◌<◌, ◌≡◌, refl, ap, ap₂, ◌∙◌, arith, Option, none, some, ◌>>=◌, List, [],
  ◌∷◌, if◌then◌else◌, Bool, get_elem?, take, drop, length, pos, eq_ℤ, ℤ,
}
use peach_os.CString.{strncmp_insensitive}
use peach_os.PathParser.{max_path}
use peach_os.Fat16.{DirectoryItem, FatDirectory, FatItem, FatPrivate, get_full_relative_filename}
use peach_os.Fat16.Directory.{new_fat_item_for_directory_item, find_from, find_item_in_directory}

-- Whether an item has a name, without regard to case; `none` is a read past the end of a text.
abbrev pub is_named : DirectoryItem → (name : List ℕ) → Option Bool
is_named item name = get_full_relative_filename item max_path >>= λ tmp_filename.
    strncmp_insensitive tmp_filename name max_path >>= λ r. some (eq_ℤ r (pos 0))

bind_cong {ℓ κ} :
    {A : Type ℓ} {B : Type κ} (o : Option A) (f g : A → Option B)
    → ((a : A) → f a ≡ g a)
    → (o >>= f) ≡ (o >>= g)
bind_cong none f g h = refl
bind_cong (some a) f g h = h a

bind_if {ℓ} :
    {A : Type ℓ} (text : Option (List ℕ)) (name : List ℕ) (x y : Option A)
    → (text >>= λ t. strncmp_insensitive t name max_path >>= λ r. if eq_ℤ r (pos 0) then x else y)
      ≡ ((text >>= λ t. strncmp_insensitive t name max_path >>= λ r. some (eq_ℤ r (pos 0)))
          >>= λ same. if same then x else y)
bind_if none name x y = refl
bind_if (some t) name x y =
    elim (strncmp_insensitive t name max_path)
      as (λ (o : Option ℤ).
        (o >>= λ r. if eq_ℤ r (pos 0) then x else y)
        ≡ ((o >>= λ r. some (eq_ℤ r (pos 0))) >>= λ same. if same then x else y)) [
          | none ↦ refl
          | some r ↦ refl
        ]

at_index {ℓ} :
    {A : Type ℓ} (items : List A) (i : ℕ)
    → i < length items
    → (item : A) × (get_elem? items i ≡ some item) × (drop i items ≡ item ∷ drop (suc i) items)
at_index [] i l = absurd (omega arith)
at_index (item ∷ items) zero l = (item, refl, refl)
at_index (item ∷ items) (suc i) l = at_index items i (omega arith)

module _ (sector : ℕ → List ℕ) (private : FatPrivate) where
  -- The last of the items with a name, loaded, or `found` if there is none.
  unfoldable pub last_named :
      List DirectoryItem → (name : List ℕ) → (found : Option FatItem) → Option (Option FatItem)
  last_named [] name found = some found
  last_named (item ∷ items) name found = is_named item name >>= λ same.
      if same
      then (new_fat_item_for_directory_item sector private item >>= λ f_item.
          last_named items name (some f_item))
      else last_named items name found

  find_from-last_named :
      (k i : ℕ) (items : List DirectoryItem) (name : List ℕ) (found : Option FatItem)
      → i + k ≤ length items
      → find_from sector private k i items name found
        ≡ last_named (take k (drop i items)) name found
  unfolding find_from last_named
  find_from-last_named zero i items name found l = refl
  find_from-last_named (suc k) i items name found l =
      let (item, here, at) = at_index items i (omega arith) in
      let split : drop i items ≡ item ∷ drop (i + 1) items =
        at ∙ ap (λ (n : ℕ). item ∷ drop n items) {x = suc i} {y = i + 1} (omega arith) in
      let later = λ (f_item : Option FatItem).
        find_from-last_named k (i + 1) items name f_item (omega arith) in
      rw (here, split)
        (bind_if (get_full_relative_filename item max_path) name
            (new_fat_item_for_directory_item sector private item >>= λ f_item.
              find_from sector private k (i + 1) items name (some f_item))
            (find_from sector private k (i + 1) items name found)
          ∙ ap₂
              (λ (x y : Option (Option FatItem)).
                is_named item name >>= λ same. if same then x else y)
              (bind_cong (new_fat_item_for_directory_item sector private item) _ _
                (λ f_item. later (some f_item)))
              (later found))

  -- A search of a directory in memory, whose items are no fewer than its total, answers the last of the
  -- first `total` items that has the name; items behind these are never answered.
  pub find_item_in_directory-last_named :
      (d : FatDirectory) (name : List ℕ)
      → d.total ≤ length d.items
      → find_item_in_directory sector private d name ≡ last_named (take d.total d.items) name none
  unfolding find_item_in_directory
  find_item_in_directory-last_named d name l =
      find_from-last_named d.total 0 d.items name none (omega arith)
