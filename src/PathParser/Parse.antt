-- ===== src/PathParser/Parse.antt =====
-- `pathparser_parse`: the round trip, the paths that it refuses, and the parts that it returns.
use peach_os.Prelude.{
  ℕ, ◌+◌, ◌<◌, ◌≤◌, ◌≡◌, refl, ◌≢◌, ◌⊎◌, inl, inr, true, false, Option, none, some, List, [], ◌∷◌,
  ◌++◌, arith, min, ◌>>=◌, leb, ltb, lt→ltb, le→leb, length, length-append, Bool-cases, Ensures,
  Ensures-bind, Ensures-eq, Ensures-any, ℤ, pos, is_negative,
}
use peach_os.CString.{IsText, ended, strlen, is_digit, to_numeric_digit}
use peach_os.CString.Length.{strlen-ended, strnlen-ended}
use peach_os.Memory.{memcmp}
use peach_os.PathParser.{PathRoot, path_valid_format, get_drive_by_path, parse_parts, parse}
use peach_os.PathParser.Read.{PartBytes, AllParts, join, parse_parts-join, parse_parts-AllParts}

-- The text of a path: the drive's digit, ":/" and the parts.
abbrev pub path_text : ℕ → List (List ℕ) → List ℕ
path_text d ps = (48 + d) ∷ b':' ∷ b'/' ∷ join ps

PartBytes-IsText : (s : List ℕ) → PartBytes s → IsText s
PartBytes-IsText [] h = tt
PartBytes-IsText (c ∷ s) h = (h.1, PartBytes-IsText s h.2)

IsText-append : (s t : List ℕ) → IsText s → IsText t → IsText (s ++ t)
IsText-append [] t h k = k
IsText-append (c ∷ s) t h k = (h.0, IsText-append s t h.1 k)

join-IsText : (ps : List (List ℕ)) → AllParts ps → IsText (join ps)
join-IsText [] a = tt
join-IsText (p ∷ []) a = PartBytes-IsText p a.0.1
join-IsText (p ∷ q ∷ ps) a =
    IsText-append p _ (PartBytes-IsText p a.0.1) ((λ e. omega arith), join-IsText (q ∷ ps) a.1)

length-le-join : (ps : List (List ℕ)) → AllParts ps → length ps ≤ length (join ps)
length-le-join [] a = omega arith
length-le-join (p ∷ []) a = nonempty p a.0.0
  where
    nonempty : (p : List ℕ) → p ≢ [] → 1 ≤ length p
    nonempty [] ne = absurd (ne refl)
    nonempty (c ∷ s) ne = omega arith
length-le-join (p ∷ q ∷ ps) a =
    omega (arith, length-append p (b'/' ∷ join (q ∷ ps)), length-le-join (q ∷ ps) a.1)

module _ (d : ℕ) (ps : List (List ℕ)) (rest : List ℕ) (digit : d ≤ 9) (parts : AllParts ps) where
  path_text-IsText : IsText (path_text d ps)
  path_text-IsText =
      ((λ e. omega arith), ((λ e. omega arith), ((λ e. omega arith), join-IsText ps parts)))

  path_text-valid : path_valid_format (ended (path_text d ps) rest) ≡ some true
  unfolding path_valid_format memcmp is_digit
  path_text-valid = rw (
    strnlen-ended (path_text d ps) rest 108 path_text-IsText,
    le→leb 3 (min 108 (length (path_text d ps))) (omega arith),
    le→leb 48 (48 + d) (omega arith),
    le→leb (48 + d) 57 (omega arith),
  )

  path_text-drive :
      get_drive_by_path (ended (path_text d ps) rest) ≡ some (pos d, ended (join ps) rest)
  unfolding get_drive_by_path to_numeric_digit
  path_text-drive = rw path_text-valid (ground arith)

not_longer : (n : ℕ) → n ≤ 108 → ltb 108 n ≡ false
not_longer n h = ground arith

-- The text of a drive from 0 to 9 and of parts, each of at least one byte, without slash and
-- terminator, is read back if it has at most 108 bytes: the root holds that drive and those parts.
pub parse-path_text :
    (d : ℕ) (ps : List (List ℕ)) (rest : List ℕ)
    → d ≤ 9
    → AllParts ps
    → length (path_text d ps) ≤ 108
    → parse (ended (path_text d ps) rest) ≡ some (some (record { drive_no = pos d; parts = ps }))
unfolding parse
parse-path_text d ps rest digit parts short = rw (
  strlen-ended (path_text d ps) rest (path_text-IsText d ps rest digit parts),
  not_longer (length (path_text d ps)) short,
  path_text-drive d ps rest digit parts,
  parse_parts-join (length (ended (path_text d ps) rest)) ps rest enough parts,
)
  where
    enough : length ps < length (ended (path_text d ps) rest)
    enough = omega (arith, length-append (join ps) (0 ∷ rest), length-le-join ps parts)

-- A text that is longer than 108 bytes or shorter than 3 is refused with a null root.
pub parse-length :
    (s rest : List ℕ)
    → IsText s
    → (108 < length s) ⊎ (length s < 3)
    → parse (ended s rest) ≡ some none
unfolding parse
parse-length s rest h (inl long) = rw (strlen-ended s rest h, lt→ltb 108 (length s) long)
parse-length s rest h (inr short) = rw (
  strlen-ended s rest h,
  not_longer (length s) (omega arith),
  strnlen-ended s rest 108 h,
  three (min 108 (length s)) (omega arith),
)
  where
    three : (n : ℕ) → n < 3 → leb 3 n ≡ false
    three n h = ground arith

-- Every root that is returned has parts that are not empty and hold no slash and no terminator.
pub parse-AllParts :
    (path : List ℕ) {root : PathRoot} → parse path ≡ some (some root) → AllParts root.parts
unfolding parse
parse-AllParts path {root} e =
    Ensures-eq (Ensures (λ (r : PathRoot). AllParts r.parts)) (parse path) ensured e
  where
    RootParts : Option PathRoot → Type 0
    RootParts = Ensures (λ r. AllParts r.parts)

    read :
        (drive : ℤ) (left : List ℕ)
        → Ensures RootParts (
            parse_parts (length path) left >>= λ parts.
            some (some (record { drive_no = drive; parts = parts })))
    read drive left =
        Ensures-bind AllParts RootParts (parse_parts (length path) left) _
          (parse_parts-AllParts (length path) left) (λ parts a. a)

    ensured : Ensures RootParts (parse path)
    ensured = Ensures-any RootParts (strlen path) _ λ len. elim (Bool-cases (ltb 108 len)) [
      | inl long ↦ rw long tt
      | inr short ↦ rw short (
          Ensures-any RootParts (get_drive_by_path path) _ λ (drive, left).
            elim (Bool-cases (is_negative drive)) [
              | inl bad ↦ rw bad tt
              | inr good ↦ rw good (read drive left)
            ])
    ]
