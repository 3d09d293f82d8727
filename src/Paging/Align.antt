-- ===== src/Paging/Align.antt =====
-- Rounding addresses to pages, and splitting them into indexes.
use peach_os.Prelude.{ℕ, ◌+◌, ◌-◌, ◌*◌, ◌/◌, ◌%◌, ◌^◌, ◌≤◌, ◌<◌, ◌≡◌, ◌≢◌, none, some, arith}
use peach_os.Paging.{align_address, align_to_lower_page, get_indexes}

-- Rounding up gives the least multiple of the page size that is not below the address, for
-- addresses up to the last page's first byte.
pub align_address_lem :
    (ptr : ℕ)
    → ptr ≤ 2 ^ 32 - 4096
    → (align_address ptr % 4096 ≡ 0) × (ptr ≤ align_address ptr) × (align_address ptr < ptr + 4096)
unfolding align_address
align_address_lem ptr h = ground arith

-- In the last page, behind its first byte, rounding up gives 0.
pub align_address-wraps : (ptr : ℕ) → 2 ^ 32 - 4096 < ptr → ptr < 2 ^ 32 → align_address ptr ≡ 0
unfolding align_address
align_address-wraps ptr lo hi = ground arith

-- Rounding down gives the greatest multiple of the page size that is not above the address.
pub align_to_lower_page_lem :
    (ptr : ℕ)
    → (align_to_lower_page ptr % 4096 ≡ 0)
      × (align_to_lower_page ptr ≤ ptr)
      × (ptr < align_to_lower_page ptr + 4096)
unfolding align_to_lower_page
align_to_lower_page_lem ptr = omega arith

-- The indexes of an aligned address are below 1024 and determine the address.
pub get_indexes_lem :
    (va : ℕ)
    → va % 4096 ≡ 0
    → va < 2 ^ 32
    → (i : ℕ) × (j : ℕ) × (get_indexes va ≡ some (i, j))
      × (i < 1024)
      × (j < 1024)
      × (va ≡ i * 4194304 + j * 4096)
unfolding get_indexes
get_indexes_lem va h small =
    (va / 4194304, va % 4194304 / 4096, ground arith, omega arith, omega arith, omega arith)

-- An address that is not aligned has none.
pub get_indexes-none : (va : ℕ) → va % 4096 ≢ 0 → get_indexes va ≡ none
unfolding get_indexes
get_indexes-none va h = ground arith
