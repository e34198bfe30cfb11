-- ===== src/Arithmetics.antt =====
-- src/arithmetics.rs: 64-bit generation numbers and their circular order, and the two helpers of
-- src/area.rs on the suspended bit. `& !MSB` is `% 2 ^ 63`; `| MSB` sets the top bit.
pub mod Circular
pub mod Window
use market_square.Base.{ℕ, ◌+◌, ◌-◌, ◌/◌, ◌%◌, ◌^◌, Bool, not, ◌&&◌, leb, ◌==◌}

-- `NumericType` is u64: a number below `2 ^ 64`.
abbrev pub modulus : ℕ
modulus = 2 ^ 64

abbrev pub max_value : ℕ
max_value = 2 ^ 64 - 1

abbrev pub msb : ℕ
msb = max_value - max_value / 2

abbrev pub wrapping_add : ℕ → ℕ → ℕ
wrapping_add a b = (a + b) % modulus

abbrev pub wrapping_sub : ℕ → ℕ → ℕ
wrapping_sub a b = (a + modulus - b) % modulus

-- `x & !MSB`
abbrev pub clear_msb : ℕ → ℕ
clear_msb x = x % msb

-- `x | MSB`
abbrev pub set_msb : ℕ → ℕ
set_msb x = x % msb + msb

-- `x & MSB != 0`
abbrev pub has_msb : ℕ → Bool
has_msb x = leb msb x

unfoldable pub gen_dist_msb_masked : ℕ → ℕ → ℕ
gen_dist_msb_masked a b = clear_msb (wrapping_sub a b)

unfoldable pub gen_gte_msb_masked : ℕ → ℕ → Bool
gen_gte_msb_masked a b = leb (clear_msb (wrapping_sub a b)) (max_value / 4)

unfoldable pub gen_add_msb_masked : ℕ → ℕ → ℕ
gen_add_msb_masked a b = clear_msb (wrapping_add a b)

unfoldable pub gen_lte_msb_masked : ℕ → ℕ → Bool
unfolding gen_gte_msb_masked
gen_lte_msb_masked a b = gen_gte_msb_masked b a

unfoldable pub gen_gt_msb_masked : ℕ → ℕ → Bool
unfolding gen_gte_msb_masked
gen_gt_msb_masked a b = not (a == b) && gen_gte_msb_masked a b

unfoldable pub gen_lt_msb_masked : ℕ → ℕ → Bool
unfolding gen_gt_msb_masked
gen_lt_msb_masked a b = gen_gt_msb_masked b a

-- src/area.rs
unfoldable pub gen_without_suspended_bit : ℕ → ℕ
gen_without_suspended_bit generation = clear_msb generation

unfoldable pub is_suspended : ℕ → Bool
is_suspended generation = has_msb generation
