-- ===== src/PathParser/Read.antt =====
-- Reading one part, and all parts, of a path.
use peach_os.Prelude.{
  ℕ, zero, suc, ◌<◌, ◌≡◌, refl, ◌≢◌, inl, inr, ◌||◌, true, some, List, [], ◌∷◌, ◌++◌, arith, ◌>>=◌,
  ◌==◌, ne→==, length, Bool-cases, Ensures, Ensures-bind,
}
use mathlib.Core.List.{append_assoc}
use peach_os.PathParser.{copy_part, get_path_part, parse_parts}

-- The bytes of a part: neither a slash nor the terminator.
abbrev pub PartBytes : List ℕ → Type 0
PartBytes [] = Unit
PartBytes (c ∷ s) = (c ≢ b'/') × (c ≢ 0) × PartBytes s

abbrev pub IsPart : List ℕ → Type 0
IsPart s = (s ≢ []) × PartBytes s

abbrev pub AllParts : List (List ℕ) → Type 0
AllParts [] = Unit
AllParts (p ∷ ps) = IsPart p × AllParts ps

-- The parts with a slash between each two.
abbrev pub join : List (List ℕ) → List ℕ
join [] = []
join (p ∷ []) = p
join (p ∷ q ∷ ps) = p ++ b'/' ∷ join (q ∷ ps)

copy_part-append :
    (s : List ℕ) (c : ℕ) (rest : List ℕ)
    → PartBytes s
    → ((c == b'/') || (c == 0)) ≡ true
    → copy_part (s ++ c ∷ rest) ≡ some (s, c ∷ rest)
unfolding copy_part
copy_part-append [] c rest h e = rw e
copy_part-append (d ∷ s) c rest h e =
    rw (ne→== d b'/' h.0, ne→== d 0 h.1, copy_part-append s c rest h.2 e)

get_path_part-slash :
    (s rest : List ℕ) → PartBytes s → get_path_part (s ++ b'/' ∷ rest) ≡ some (s, rest)
unfolding get_path_part
get_path_part-slash s rest h = rw (copy_part-append s b'/' rest h refl)

get_path_part-end :
    (s rest : List ℕ) → PartBytes s → get_path_part (s ++ 0 ∷ rest) ≡ some (s, 0 ∷ rest)
unfolding get_path_part
get_path_part-end s rest h = rw (copy_part-append s 0 rest h refl)

parse_parts-cons :
    (fuel : ℕ) (path : List ℕ) (p left : List ℕ) {ps : List (List ℕ)}
    → get_path_part path ≡ some (p, left)
    → p ≢ []
    → parse_parts fuel left ≡ some ps
    → parse_parts (suc fuel) path ≡ some (p ∷ ps)
unfolding parse_parts
parse_parts-cons fuel path [] left e ne f = absurd (ne refl)
parse_parts-cons fuel path (c ∷ s) left e ne f = rw (e, f)

-- Every list of parts is read back from its joined text, with fuel for one more call than parts.
pub parse_parts-join :
    (fuel : ℕ) (ps : List (List ℕ)) (rest : List ℕ)
    → length ps < fuel
    → AllParts ps
    → parse_parts fuel (join ps ++ 0 ∷ rest) ≡ some ps
parse_parts-join zero ps rest h a = absurd (omega arith)
parse_parts-join (suc fuel) [] rest h a = unfold parse_parts in refl
parse_parts-join (suc fuel) (p ∷ []) rest h a =
    parse_parts-cons fuel _ p (0 ∷ rest) (get_path_part-end p rest a.0.1) a.0.0
      (parse_parts-join fuel [] rest (omega arith) tt)
parse_parts-join (suc fuel) (p ∷ q ∷ ps) rest h a = rw append_assoc (
    parse_parts-cons fuel _ p (join (q ∷ ps) ++ 0 ∷ rest)
      (get_path_part-slash p (join (q ∷ ps) ++ 0 ∷ rest) a.0.1) a.0.0
      (parse_parts-join fuel (q ∷ ps) rest (omega arith) a.1))

copy_part-PartBytes : (path : List ℕ) → Ensures (λ r. PartBytes r.0) (copy_part path)
unfolding copy_part
copy_part-PartBytes [] = tt
copy_part-PartBytes (c ∷ path) = elim (Bool-cases (c == b'/')) [
  | inl s ↦ rw s tt
  | inr ns ↦ elim (Bool-cases (c == 0)) [
    | inl z ↦ rw (ns, z) tt
    | inr nz ↦
        rw (ns, nz)
          (Ensures-bind (λ r. PartBytes r.0) (λ r. PartBytes r.0) (copy_part path) _
            (copy_part-PartBytes path) (λ (part, left) h. (ground arith, ground arith, h)))
  ]
]

get_path_part-PartBytes : (path : List ℕ) → Ensures (λ r. PartBytes r.0) (get_path_part path)
unfolding get_path_part
get_path_part-PartBytes path =
    Ensures-bind (λ r. PartBytes r.0) (λ r. PartBytes r.0) (copy_part path) _
      (copy_part-PartBytes path) (λ (part, left) h. h)

-- All parts that are read are parts.
pub parse_parts-AllParts : (fuel : ℕ) (path : List ℕ) → Ensures AllParts (parse_parts fuel path)
unfolding parse_parts
parse_parts-AllParts zero path = tt
parse_parts-AllParts (suc fuel) path =
    Ensures-bind (λ r. PartBytes r.0) AllParts (get_path_part path) _ (get_path_part-PartBytes path)
      λ (part, left) h. read part left h (parse_parts-AllParts fuel left)
  where
    read :
        (part left : List ℕ)
        → PartBytes part
        → Ensures AllParts (parse_parts fuel left)
        → Ensures AllParts (elim part [
          | [] ↦ some []
          | c ∷ s ↦ parse_parts fuel left >>= λ parts. some ((c ∷ s) ∷ parts)
        ])
    read [] left h k = tt
    read (c ∷ s) left h k =
        Ensures-bind AllParts AllParts (parse_parts fuel left) _ k λ parts a. (((λ e. cc), h), a)
