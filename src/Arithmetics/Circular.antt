-- ===== src/Arithmetics/Circular.antt =====
-- The circular order on masked generations (those below `2 ^ 63`).
use market_square.Base.{ℕ, ◌^◌, ◌<◌, ◌≡◌, false, not, ◌&&◌, ◌==◌, arith}
use market_square.Arithmetics.{
  gen_dist_msb_masked, gen_gte_msb_masked, gen_add_msb_masked, gen_lte_msb_masked,
  gen_gt_msb_masked,
}

-- Adding a distance and measuring it are inverse to one another, across a wrap too.
pub dist-add :
    (a b n : ℕ)
    → a < 2 ^ 63
    → b < 2 ^ 63
    → n < 2 ^ 63
    → (gen_dist_msb_masked (gen_add_msb_masked b n) b ≡ n)
      × (gen_add_msb_masked b (gen_dist_msb_masked a b) ≡ a)
unfolding gen_dist_msb_masked gen_add_msb_masked
dist-add a b n ha hb hn = (omega arith, omega arith)

-- On masked generations "ahead or equal" is antisymmetric, "strictly ahead" excludes "behind or
-- equal", and neither of two generations is ahead of the other exactly when they are half a turn
-- apart.
pub circular_order :
    (a b : ℕ)
    → a < 2 ^ 63
    → b < 2 ^ 63
    → ((gen_gte_msb_masked a b && gen_lte_msb_masked a b) ≡ (a == b))
      × ((gen_gt_msb_masked a b && gen_lte_msb_masked a b) ≡ false)
      × ((not (gen_gte_msb_masked a b) && not (gen_gte_msb_masked b a))
          ≡ (gen_dist_msb_masked a b == 2 ^ 62))
unfolding gen_dist_msb_masked gen_gt_msb_masked gen_lte_msb_masked
circular_order a b ha hb = (ground arith, ground arith, ground arith)
