-- ===== src/Fat16/Names.antt =====
-- The names of directory items: fields that are padded with spaces.
use peach_os.Prelude.{
  ℕ, zero, suc, ◌-◌, ◌≤◌, ◌≡◌, ◌≢◌, refl, arith, some, List, [], ◌∷◌, ◌++◌, length, replicate,
  ne→==,
}
use peach_os.Fat16.{DirectoryItem, copy_name, to_proper_string, get_full_relative_filename}

-- The bytes that stand in a name: neither the terminator nor a space.
abbrev pub IsName : List ℕ → Type 0
IsName [] = Unit
IsName (c ∷ s) = (c ≢ 0) × (c ≢ 0x20) × IsName s

-- A field of `n` bytes that holds a name.
abbrev pub pad : (n : ℕ) → List ℕ → List ℕ
pad zero s = []
pad (suc n) [] = 0x20 ∷ pad n []
pad (suc n) (c ∷ s) = c ∷ pad n s

-- A name with its extension, if it has one.
abbrev pub full_name : (name ext : List ℕ) → List ℕ
full_name name [] = name
full_name name (c ∷ ext) = name ++ b'.' ∷ c ∷ ext

copy_name-pad :
    (last : ℕ) (s : List ℕ)
    → IsName s
    → length s ≤ suc last
    → copy_name (pad (suc last) s) last ≡ some s
unfolding copy_name
copy_name-pad zero [] h l = refl
copy_name-pad (suc last) [] h l = refl
copy_name-pad zero (c ∷ []) (c0, c20, h) l = rw (ne→== c 0 c0, ne→== c 0x20 c20) refl
copy_name-pad zero (c ∷ d ∷ s) h l = absurd (omega arith)
copy_name-pad (suc last) (c ∷ s) (c0, c20, h) l =
    rw (ne→== c 0 c0, ne→== c 0x20 c20, copy_name-pad last s h (omega arith)) refl

to_proper_string-pad8 :
    (s : List ℕ) → IsName s → length s ≤ 8 → to_proper_string (pad 8 s) 8 ≡ some s
unfolding to_proper_string
to_proper_string-pad8 s h l = copy_name-pad 7 s h l

to_proper_string-pad3 :
    (s : List ℕ) → IsName s → length s ≤ 3 → to_proper_string (pad 3 s) 3 ≡ some s
unfolding to_proper_string
to_proper_string-pad3 s h l = copy_name-pad 2 s h l

-- For an item whose fields hold a name of at most 8 bytes and an extension of at most 3, padded with
-- spaces, without spaces and terminators of their own, the buffer holds the name, a dot and the extension, without the dot if there is no
-- extension, and zeros behind.
pub get_full_relative_filename-pad :
    (name ext : List ℕ) (item : DirectoryItem) (max_len : ℕ)
    → IsName name
    → length name ≤ 8
    → IsName ext
    → length ext ≤ 3
    → item.filename ≡ pad 8 name
    → item.ext ≡ pad 3 ext
    → get_full_relative_filename item max_len
      ≡ some (full_name name ext ++ replicate (max_len - length (full_name name ext)) 0)
unfolding get_full_relative_filename
get_full_relative_filename-pad name [] item max_len hn ln he le fn fe =
    rw (get_full_relative_filename, fn, fe, to_proper_string-pad8 name hn ln) refl
get_full_relative_filename-pad name (c ∷ ext) item max_len hn ln he le fn fe =
    rw
      (
        get_full_relative_filename,
        fn,
        fe,
        to_proper_string-pad8 name hn ln,
        to_proper_string-pad3 (c ∷ ext) he le,
        ne→== c 0 he.0,
        ne→== c 0x20 he.1,
      )
      refl
