-- ===== src/Arithmetics/Window.antt =====
-- Masked generations against the unbounded count of messages that they stand for.
use market_square.Base.{ℕ, ◌+◌, ◌-◌, ◌%◌, ◌^◌, ◌<◌, ◌≤◌, ◌≡◌, arith, leb, ltb}
use market_square.Arithmetics.{
  gen_dist_msb_masked, gen_gte_msb_masked, gen_add_msb_masked, gen_lte_msb_masked,
  gen_gt_msb_masked, gen_lt_msb_masked,
}

-- The generation number of the `n`-th message.
abbrev pub generation_of : ℕ → ℕ
generation_of n = n % 2 ^ 63

pub dist-generation_of :
    (x y : ℕ)
    → y ≤ x
    → x < y + 2 ^ 63
    → gen_dist_msb_masked (generation_of x) (generation_of y) ≡ x - y
unfolding gen_dist_msb_masked
dist-generation_of x y h k = omega arith

pub add-generation_of : (x n : ℕ) → gen_add_msb_masked (generation_of x) n ≡ generation_of (x + n)
unfolding gen_add_msb_masked
add-generation_of x n = omega arith

pub gte-generation_of :
    (x y : ℕ)
    → x < y + 2 ^ 62
    → y < x + 2 ^ 62
    → gen_gte_msb_masked (generation_of x) (generation_of y) ≡ leb y x
unfolding gen_gte_msb_masked
gte-generation_of x y h k = ground arith

-- While two message counts are less than a quarter of the number range apart, the masked
-- comparisons of their generations are those of the counts.
pub comparisons-generation_of :
    (x y : ℕ)
    → x < y + 2 ^ 62
    → y < x + 2 ^ 62
    → (gen_gte_msb_masked (generation_of x) (generation_of y) ≡ leb y x)
      × (gen_lte_msb_masked (generation_of x) (generation_of y) ≡ leb x y)
      × (gen_gt_msb_masked (generation_of x) (generation_of y) ≡ ltb y x)
      × (gen_lt_msb_masked (generation_of x) (generation_of y) ≡ ltb x y)
unfolding gen_gt_msb_masked gen_lt_msb_masked gen_lte_msb_masked
comparisons-generation_of x y h k = (ground arith, ground arith, ground arith, ground arith)
