-- ===== src/Terminal/Cells.antt =====
-- What scrolling does to each cell.
use peach_os.Prelude.{
  ℕ, zero, suc, ◌+◌, ◌*◌, ◌/◌, ◌%◌, ◌<◌, ◌≤◌, ◌≡◌, ◌≢◌, refl, ap, ◌∙◌, arith, ◌⊎◌, inl, inr, true,
  false, ◌==◌, ltb, if◌then◌else◌, ℕ_discrete, dec_lt, eq→==, ne→==,
}
use peach_os.Terminal.{write, scroll_row, scroll_rows, clear_last, scroll_down}

pub write_self : (mem : ℕ → ℕ) (p v q : ℕ) → q ≡ p → write mem p v q ≡ v
write_self mem p v q e = rw (eq→== q p e) refl

pub write_other : (mem : ℕ → ℕ) (p v q : ℕ) → q ≢ p → write mem p v q ≡ mem q
write_other mem p v q ne = rw (ne→== q p ne) refl

scroll_row-out :
    (k x y : ℕ) (mem : ℕ → ℕ) (p : ℕ)
    → x + k ≤ 80
    → (p / 80 ≢ y) ⊎ (p % 80 < x) ⊎ (x + k ≤ p % 80)
    → scroll_row k x y mem p ≡ mem p
unfolding scroll_row
scroll_row-out zero x y mem p b h = refl
scroll_row-out (suc k) x y mem p b h =
    scroll_row-out k (suc x) y _ p (omega arith) (ground arith)
    ∙ write_other mem (y * 80 + x) _ p (λ e. ground arith)

scroll_row-in :
    (k x y : ℕ) (mem : ℕ → ℕ) (p : ℕ)
    → x + k ≤ 80
    → p / 80 ≡ y
    → x ≤ p % 80
    → p % 80 < x + k
    → scroll_row k x y mem p ≡ mem (p + 80)
unfolding scroll_row
scroll_row-in zero x y mem p b e l h = absurd (omega arith)
scroll_row-in (suc k) x y mem p b e l h = elim (ℕ_discrete (p % 80) x) [
  | yes at ↦
      scroll_row-out k (suc x) y _ p (omega arith) (inr (inl (omega arith)))
      ∙ write_self mem (y * 80 + x) _ p (omega arith)
      ∙ ap mem (omega arith)
  | no off ↦
      scroll_row-in k (suc x) y _ p (omega arith) e (omega arith) (omega arith)
      ∙ write_other mem (y * 80 + x) _ (p + 80) (λ q. omega arith)
]

scroll_rows-out :
    (k y : ℕ) (mem : ℕ → ℕ) (p : ℕ)
    → (p / 80 < y) ⊎ (y + k ≤ p / 80) ⊎ (78 ≤ p % 80)
    → scroll_rows k y mem p ≡ mem p
unfolding scroll_rows
scroll_rows-out zero y mem p h = refl
scroll_rows-out (suc k) y mem p h =
    scroll_rows-out k (suc y) _ p (ground arith)
    ∙ scroll_row-out 78 0 y mem p (omega arith) (ground arith)

scroll_rows-in :
    (k y : ℕ) (mem : ℕ → ℕ) (p : ℕ)
    → y ≤ p / 80
    → p / 80 < y + k
    → p % 80 < 78
    → scroll_rows k y mem p ≡ mem (p + 80)
unfolding scroll_rows
scroll_rows-in zero y mem p l h c = absurd (omega arith)
scroll_rows-in (suc k) y mem p l h c = elim (ℕ_discrete (p / 80) y) [
  | yes at ↦
      scroll_rows-out k (suc y) _ p (inl (omega arith))
      ∙ scroll_row-in 78 0 y mem p (omega arith) at (omega arith) c
  | no off ↦
      scroll_rows-in k (suc y) _ p (omega arith) (omega arith) c
      ∙ scroll_row-out 78 0 y mem (p + 80) (omega arith) (inl (λ e. omega arith))
]

clear_last-out :
    (k x : ℕ) (mem : ℕ → ℕ) (p : ℕ)
    → x + k ≤ 80
    → (p / 80 ≢ 20) ⊎ (p % 80 < x) ⊎ (x + k ≤ p % 80)
    → clear_last k x mem p ≡ mem p
unfolding clear_last
clear_last-out zero x mem p b h = refl
clear_last-out (suc k) x mem p b h =
    clear_last-out k (suc x) _ p (omega arith) (ground arith)
    ∙ write_other mem (20 * 80 + x) 0 p (λ e. ground arith)

clear_last-in :
    (k x : ℕ) (mem : ℕ → ℕ) (p : ℕ)
    → x + k ≤ 80
    → p / 80 ≡ 20
    → x ≤ p % 80
    → p % 80 < x + k
    → clear_last k x mem p ≡ 0
unfolding clear_last
clear_last-in zero x mem p b e l h = absurd (omega arith)
clear_last-in (suc k) x mem p b e l h = elim (ℕ_discrete (p % 80) x) [
  | yes at ↦
      clear_last-out k (suc x) _ p (omega arith) (inr (inl (omega arith)))
      ∙ write_self mem (20 * 80 + x) 0 p (omega arith)
  | no off ↦ clear_last-in k (suc x) _ p (omega arith) e (omega arith) (omega arith)
]

pub scroll_down-stays :
    (mem : ℕ → ℕ) (p : ℕ) → (20 < p / 80) ⊎ (78 ≤ p % 80) → scroll_down mem p ≡ mem p
unfolding scroll_down
scroll_down-stays mem p h =
    clear_last-out 78 0 (scroll_rows 20 0 mem) p (omega arith) (ground arith)
    ∙ scroll_rows-out 20 0 mem p (ground arith)

scroll_down-moves :
    (mem : ℕ → ℕ) (p : ℕ) → p / 80 < 20 → p % 80 < 78 → scroll_down mem p ≡ mem (p + 80)
unfolding scroll_down
scroll_down-moves mem p h text =
    clear_last-out 78 0 (scroll_rows 20 0 mem) p (omega arith) (inl (λ e. omega arith))
    ∙ scroll_rows-in 20 0 mem p (omega arith) h text

scroll_down-clears : (mem : ℕ → ℕ) (p : ℕ) → p / 80 ≡ 20 → p % 80 < 78 → scroll_down mem p ≡ 0
unfolding scroll_down
scroll_down-clears mem p h text =
    clear_last-in 78 0 (scroll_rows 20 0 mem) p (omega arith) h (omega arith) text

-- Scrolling moves the cells of columns 0 to 77 up by one row, from row 20 on, and clears them in
-- row 20. The cells of columns 78 and 79 stay, and so do those below row 20.
pub scroll_down_lem :
    (mem : ℕ → ℕ) (p : ℕ)
    → scroll_down mem p ≡ (
        if ltb (p % 80) 78
        then (if ltb (p / 80) 20 then mem (p + 80) else if p / 80 == 20 then 0 else mem p)
        else mem p)
scroll_down_lem mem p = elim (dec_lt (p % 80) 78) [
  | no margin ↦
      scroll_down-stays mem p (inr (omega arith))
      ∙ rw (let e : ltb (p % 80) 78 ≡ false = ground arith in e) refl
  | yes text ↦ rw (let e : ltb (p % 80) 78 ≡ true = ground arith in e) (elim (dec_lt (p / 80) 20) [
    | yes moved ↦
        scroll_down-moves mem p moved text
        ∙ rw (let e : ltb (p / 80) 20 ≡ true = ground arith in e) refl
    | no low ↦
        rw (let e : ltb (p / 80) 20 ≡ false = ground arith in e) (elim (ℕ_discrete (p / 80) 20) [
          | yes last ↦ scroll_down-clears mem p last text ∙ rw (eq→== _ _ last) refl
          | no below ↦ scroll_down-stays mem p (inl (omega arith)) ∙ rw (ne→== _ _ below) refl
        ])
  ])
]
