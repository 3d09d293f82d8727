-- ===== src/Process/Slots.antt =====
-- The slots of a process's allocations.
use peach_os.Prelude.{
  ℕ, zero, suc, ◌<◌, get_or, length, ℕ_discrete, Option, none, ◌>>=◌, ◌≡◌, ◌≢◌, refl, arith, Bool,
  true, false, ◌||◌, some, List, [], ◌∷◌, ◌==◌, set, eq→==, ne→==,
}
use mathlib.Core.Path.{subst}
use peach_os.Process.{
  Allocation, no_allocation, find_free_allocation_index, process_ptr_belongs_to_process,
  allocation_unjoin, get_allocation_by_addr, process_get_free_slot,
}

-- The first slot without an allocation, and it is cleared.
pub data FirstFree : List Allocation → ℕ → Type 0 where
  here : (as' : List Allocation) → FirstFree (no_allocation ∷ as') 0
  there :
      (a : Allocation) (as' : List Allocation) (i : ℕ)
      → a.ptr ≢ 0
      → FirstFree as' i
      → FirstFree (a ∷ as') (suc i)

-- The first slot of the table that is null; `none` is that no slot is.
abbrev pub IsFirstNull : List ℕ → Option ℕ → Type 0
IsFirstNull processes none = (j : ℕ) → j < length processes → get_or processes j 0 ≢ 0
IsFirstNull processes (some i) =
    (i < length processes)
    × (get_or processes i 0 ≡ 0)
    × ((j : ℕ) → j < i → get_or processes j 0 ≢ 0)

used-cons :
    (p : ℕ) (ps : List ℕ) (n : ℕ)
    → p ≢ 0
    → ((j : ℕ) → j < n → get_or ps j 0 ≢ 0)
    → (j : ℕ) → j < suc n
    → get_or (p ∷ ps) j 0 ≢ 0
used-cons p ps n ne h zero l = ne
used-cons p ps n ne h (suc j) l = h j (omega arith)

IsFirstNull-cons :
    (p : ℕ) (ps : List ℕ) (o : Option ℕ)
    → p ≢ 0
    → IsFirstNull ps o
    → IsFirstNull (p ∷ ps) (o >>= λ i. some (suc i))
IsFirstNull-cons p ps none ne h = used-cons p ps (length ps) ne h
IsFirstNull-cons p ps (some i) ne (l, null, used) = (omega arith, null, used-cons p ps i ne used)

process_get_free_slot-IsFirstNull :
    (processes : List ℕ) → IsFirstNull processes (process_get_free_slot processes)
unfolding process_get_free_slot
process_get_free_slot-IsFirstNull [] = λ j h. absurd (omega arith)
process_get_free_slot-IsFirstNull (p ∷ ps) = elim (ℕ_discrete p 0) [
  | yes z ↦ rw (process_get_free_slot, eq→== p 0 z) (omega arith, z, λ j h. absurd (omega arith))
  | no ne ↦
      rw (process_get_free_slot, ne→== p 0 ne)
        (IsFirstNull-cons p ps (process_get_free_slot ps) ne (process_get_free_slot-IsFirstNull ps))
]

pub process_get_free_slot-lem :
    (processes : List ℕ) (o : Option ℕ)
    → process_get_free_slot processes ≡ o
    → IsFirstNull processes o
process_get_free_slot-lem processes o e =
    subst (IsFirstNull processes) e (process_get_free_slot-IsFirstNull processes)

or_false : (x y : Bool) → (x || y) ≡ false → (x ≡ false) × (y ≡ false)
or_false false y e = (refl, e)
or_false true y e = (e, ground arith)

pub find_free-FirstFree :
    (as' : List Allocation) (i : ℕ) → FirstFree as' i → find_free_allocation_index as' ≡ some i
unfolding find_free_allocation_index
find_free-FirstFree _ _ (here as') = refl
find_free-FirstFree _ _ (there a as' i ne f) =
    rw (ne→== a.ptr 0 ne, find_free-FirstFree as' i f) refl

allocation_unjoin-fresh :
    (as' : List Allocation) (ptr : ℕ)
    → process_ptr_belongs_to_process as' ptr ≡ false
    → allocation_unjoin as' ptr ≡ as'
unfolding allocation_unjoin process_ptr_belongs_to_process
allocation_unjoin-fresh [] ptr h = refl
allocation_unjoin-fresh (a ∷ as') ptr h =
    let (other, rest) = or_false (a.ptr == ptr) (process_ptr_belongs_to_process as' ptr) h in
    rw (other, allocation_unjoin-fresh as' ptr rest) refl

pub allocation_unjoin-set :
    (as' : List Allocation) (i size ptr : ℕ)
    → FirstFree as' i
    → process_ptr_belongs_to_process as' ptr ≡ false
    → allocation_unjoin (set as' i (record { size = size; ptr = ptr })) ptr ≡ as'
unfolding allocation_unjoin process_ptr_belongs_to_process
allocation_unjoin-set _ _ size ptr (here as') h =
    let (other, rest) = or_false (0 == ptr) (process_ptr_belongs_to_process as' ptr) h in
    rw (eq→== ptr ptr refl, allocation_unjoin-fresh as' ptr rest) refl
allocation_unjoin-set _ _ size ptr (there a as' i ne f) h =
    let (other, rest) = or_false (a.ptr == ptr) (process_ptr_belongs_to_process as' ptr) h in
    rw (other, allocation_unjoin-set as' i size ptr f rest) refl

pub get_allocation_by_addr-set :
    (as' : List Allocation) (i size ptr : ℕ)
    → FirstFree as' i
    → process_ptr_belongs_to_process as' ptr ≡ false
    → get_allocation_by_addr (set as' i (record { size = size; ptr = ptr })) ptr
      ≡ some (record { size = size; ptr = ptr })
unfolding get_allocation_by_addr process_ptr_belongs_to_process
get_allocation_by_addr-set _ _ size ptr (here as') h = rw (eq→== ptr ptr refl) refl
get_allocation_by_addr-set _ _ size ptr (there a as' i ne f) h =
    let (other, rest) = or_false (a.ptr == ptr) (process_ptr_belongs_to_process as' ptr) h in
    rw (other) (get_allocation_by_addr-set as' i size ptr f rest)

pub process_ptr_belongs_to_process-set :
    (as' : List Allocation) (i size ptr : ℕ)
    → FirstFree as' i
    → process_ptr_belongs_to_process (set as' i (record { size = size; ptr = ptr })) ptr ≡ true
unfolding process_ptr_belongs_to_process
process_ptr_belongs_to_process-set _ _ size ptr (here as') = rw (eq→== ptr ptr refl) refl
process_ptr_belongs_to_process-set _ _ size ptr (there a as' i ne f) =
    rw (process_ptr_belongs_to_process-set as' i size ptr f) (or_true (a.ptr == ptr))
  where
    or_true : (b : Bool) → (b || true) ≡ true
    or_true true = refl
    or_true false = refl
