-- ===== src/Reservation/Split.antt =====
-- src/area.rs: `Reservation::split_at_mut` against the messages that the guard stands for.
use market_square.Base.{
  ℕ, ◌+◌, ◌-◌, ◌^◌, ◌≤◌, ◌<◌, ◌≡◌, refl, ap, ap₂, ◌∙◌, inl, inr, leb, Bool-cases, arith,
}
use market_square.Arithmetics.{gen_dist_msb_masked, gen_add_msb_masked}
use market_square.Arithmetics.Window.{generation_of, dist-generation_of, add-generation_of}
use market_square.State.{Outcome, returned, panicked, spinning}
use market_square.Reservation.{Reservation, len, split_at_mut}

-- The guard stands for the `n` messages from `x` on.
pub record Guards (x n : ℕ) (r : Reservation) : Type 0 where
  pub starts : r.start_gen ≡ generation_of x
  pub ends : r.end_gen ≡ generation_of (x + n)
  pub counted : len r ≡ n

abbrev pub Splits : Reservation → ℕ → ℕ → ℕ → Outcome (Reservation × Reservation) → Type 0
Splits r x n i (returned (a, b)) =
    (i ≤ n) × Guards x i a × Guards (x + i) (n - i) b × (a.armed ≡ r.armed) × (b.armed ≡ r.armed)
Splits r x n i panicked = n < i
Splits r x n i spinning = ⊥

-- A guard of `n` messages splits into the first `i` and the other `n - i`, both as armed as it was,
-- and panics exactly when `i` is greater than `n`.
pub split_at_mut-Splits :
    (r : Reservation) (x n i : ℕ) → Guards x n r → n < 2 ^ 63 → Splits r x n i (split_at_mut r i)
unfolding split_at_mut len
split_at_mut-Splits r x n i g h = elim (Bool-cases (leb i (len r))) [
  | inr far ↦ rw (far, split_at_mut) (ground (arith, far, g.counted))
  | inl near ↦
      let i_le_n : i ≤ n = ground (arith, near, g.counted) in
      let cut = ap (λ s. gen_add_msb_masked s i) g.starts ∙ add-generation_of x i in
      rw (near, split_at_mut)
        (
          i_le_n,
          record {
            starts = g.starts;
            ends = cut;
            counted =
                ap₂ gen_dist_msb_masked cut g.starts
                ∙ (dist-generation_of (x + i) x (omega arith) (omega arith) ∙ omega arith);
          },
          record {
            starts = cut;
            ends = g.ends ∙ ap generation_of (omega arith);
            counted =
                ap₂ gen_dist_msb_masked g.ends cut
                ∙ (dist-generation_of (x + n) (x + i) (omega arith) (omega arith) ∙ omega arith);
          },
          refl,
          refl,
        )
]
