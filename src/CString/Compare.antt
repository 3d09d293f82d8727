-- ===== src/CString/Compare.antt =====
-- `strncmp` and `strncmp_insensitive` against equality of the compared prefixes.
use peach_os.Prelude.{
  ℕ, zero, suc, ◌≡◌, refl, ◌↔◌, Bool, true, false, ◌&&◌, some, List, [], ◌∷◌, arith, take, map,
  ne→==, eq→==, ℤ, pos, sub_ℕ, ℕ_discrete, ap,
}
use peach_os.CString.{IsText, ended, tolower, strncmp, strncmp_insensitive}

sub_ℕ-zero : (a b : ℕ) → sub_ℕ a b ≡ pos 0 → a ≡ b
sub_ℕ-zero a b e = ground arith

and-false : (b : Bool) → (b && false) ≡ false
and-false true = refl
and-false false = refl

-- For two terminated texts `strncmp` answers, and its answer is 0 exactly if the first `max` bytes
-- of the texts agree.
pub strncmp-ended :
    (s t r q : List ℕ) (max : ℕ)
    → IsText s
    → IsText t
    → (z : ℤ) × (strncmp (ended s r) (ended t q) max ≡ some z)
      × ((z ≡ pos 0) ↔ (take max s ≡ take max t))
unfolding strncmp
strncmp-ended s t r q zero hs ht = (pos 0, refl, ((λ _. refl), (λ _. refl)))
strncmp-ended [] [] r q (suc max) hs ht = (pos 0, refl, ((λ _. refl), (λ _. refl)))
strncmp-ended [] (d ∷ t) r q (suc max) hs ht =
    (sub_ℕ 0 d, ground arith, ((λ e. ground arith), (λ e. cc)))
strncmp-ended (c ∷ s) [] r q (suc max) hs ht =
    (sub_ℕ c 0, ground arith, ((λ e. ground arith), (λ e. cc)))
strncmp-ended (c ∷ s) (d ∷ t) r q (suc max) hs ht = elim (ℕ_discrete c d) [
  | no ne ↦
      (sub_ℕ c d, rw (ne→== c d ne), ((λ e. absurd (ne (ground arith))), (λ e. absurd (ne (cc)))))
  | yes eq ↦
      let (z, found, iff) = strncmp-ended s t r q max hs.1 ht.1 in
      (z, rw (eq→== c d eq, ne→== c 0 hs.0, found), ((λ e. cc (iff.0 e)), (λ e. iff.1 (cc))))
]

-- For two terminated texts `strncmp_insensitive` answers, and its answer is 0 exactly if the first
-- `max` bytes of the texts agree in lower case.
pub strncmp_insensitive-ended :
    (s t r q : List ℕ) (max : ℕ)
    → IsText s
    → IsText t
    → (z : ℤ) × (strncmp_insensitive (ended s r) (ended t q) max ≡ some z)
      × ((z ≡ pos 0) ↔ (take max (map tolower s) ≡ take max (map tolower t)))
unfolding strncmp_insensitive
strncmp_insensitive-ended s t r q zero hs ht = (pos 0, refl, ((λ _. refl), (λ _. refl)))
strncmp_insensitive-ended [] [] r q (suc max) hs ht = (pos 0, refl, ((λ _. refl), (λ _. refl)))
strncmp_insensitive-ended [] (d ∷ t) r q (suc max) hs ht =
    (sub_ℕ 0 d, ground arith, ((λ e. ground arith), (λ e. cc)))
strncmp_insensitive-ended (c ∷ s) [] r q (suc max) hs ht =
    (sub_ℕ c 0, ground arith, ((λ e. ground arith), (λ e. cc)))
strncmp_insensitive-ended (c ∷ s) (d ∷ t) r q (suc max) hs ht =
    elim (ℕ_discrete (tolower c) (tolower d)) [
      | no ne ↦ (
        sub_ℕ c d,
        rw (ne→== c d (λ e. ne (ap tolower e)), ne→== (tolower c) (tolower d) ne),
        ((λ e. absurd (ne (ap tolower (sub_ℕ-zero c d e)))), (λ e. absurd (ne (cc)))),
      )
      | yes eq ↦
          let (z, found, iff) = strncmp_insensitive-ended s t r q max hs.1 ht.1 in
          (
            z,
            rw (eq→== (tolower c) (tolower d) eq, and-false, ne→== c 0 hs.0, found),
            ((λ e. cc (iff.0 e)), (λ e. iff.1 (cc))),
          )
    ]
