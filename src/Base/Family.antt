-- ===== src/Base/Family.antt =====
-- Families indexed by number: a change at one index, and sums of weights over the first indices.
use Prim.Native.Nat.{ℕ, zero, suc, ◌+◌, ◌≤◌, ◌<◌}
use mathlib.Core.Path.{◌≡◌, refl}
use mathlib.Core.Logic.{inl, inr}
use native.Mathlib.Omega.{arith}
use market_square.Base.Tests.{◌==◌, if◌then◌else◌, Bool-cases}

abbrev pub change {ℓ} : {A : Type ℓ} → (ℕ → A) → ℕ → A → ℕ → A
change f i a j = if j == i then a else f j

module _ {ℓ} {A : Type ℓ} (weight : A → ℕ) where
  -- The sum of the weights at the indices below `n`.
  unfoldable pub sum : ℕ → (ℕ → A) → ℕ
  sum zero f = 0
  sum (suc n) f = sum n f + weight (f n)

  sum-change_beyond : (n : ℕ) (f : ℕ → A) (i : ℕ) (a : A) → n ≤ i → sum n (change f i a) ≡ sum n f
  unfolding sum
  sum-change_beyond zero f i a h = refl
  sum-change_beyond (suc n) f i a h = ground (arith, sum-change_beyond n f i a)

  pub sum-change :
      (n : ℕ) (f : ℕ → A) (i : ℕ) (a : A)
      → i < n
      → sum n (change f i a) + weight (f i) ≡ sum n f + weight a
  unfolding sum
  sum-change zero f i a h = absurd (omega arith)
  sum-change (suc n) f i a h = elim (Bool-cases (n == i)) [
    | inl last ↦ ground (arith, last, sum-change_beyond n f i a)
    | inr before ↦ ground (arith, before, sum-change n f i a)
  ]

  pub weight-le-sum : (n : ℕ) (f : ℕ → A) (i : ℕ) → i < n → weight (f i) ≤ sum n f
  unfolding sum
  weight-le-sum zero f i h = absurd (omega arith)
  weight-le-sum (suc n) f i h = elim (Bool-cases (n == i)) [
    | inl last ↦ ground (arith, last)
    | inr before ↦ ground (arith, before, weight-le-sum n f i)
  ]

  -- Two indices of a family both count.
  pub two-le-sum :
      (n : ℕ) (f : ℕ → A) (i j : ℕ) → i < j → j < n → weight (f i) + weight (f j) ≤ sum n f
  unfolding sum
  two-le-sum zero f i j h k = absurd (omega arith)
  two-le-sum (suc n) f i j h k = elim (Bool-cases (n == j)) [
    | inl last ↦ ground (arith, last, weight-le-sum n f i)
    | inr before ↦ ground (arith, before, two-le-sum n f i j)
  ]

  -- A positive sum has a positive weight.
  pub positive_index : (n : ℕ) (f : ℕ → A) → 0 < sum n f → (i : ℕ) × (i < n) × (0 < weight (f i))
  unfolding sum
  positive_index zero f h = absurd (omega arith)
  positive_index (suc n) f h = elim (Bool-cases (weight (f n) == 0)) [
    | inl none_here ↦
        let (i, k, p) = positive_index n f (ground (arith, none_here)) in (i, omega (arith, k), p)
    | inr here ↦ (n, omega arith, ground (arith, here))
  ]

module _ {ℓ} {A : Type ℓ} (v w : A → ℕ) where
  pub sum-le : ((a : A) → v a ≤ w a) → (n : ℕ) (f : ℕ → A) → sum v n f ≤ sum w n f
  unfolding sum
  sum-le h zero f = omega arith
  sum-le h (suc n) f = omega (arith, h (f n), sum-le h n f)

module _ {ℓ} {A : Type ℓ} (w : A → ℕ) where
  pub sum-eq-zero : (n : ℕ) (f : ℕ → A) → ((i : ℕ) → i < n → w (f i) ≡ 0) → sum w n f ≡ 0
  unfolding sum
  sum-eq-zero zero f h = refl
  sum-eq-zero (suc n) f h =
      omega (arith, h n (omega arith), sum-eq-zero n f (λ i k. h i (omega (arith, k))))

  pub sum-le-count : ((a : A) → w a ≤ 1) → (n : ℕ) (f : ℕ → A) → sum w n f ≤ n
  unfolding sum
  sum-le-count h zero f = omega arith
  sum-le-count h (suc n) f = omega (arith, h (f n), sum-le-count h n f)
