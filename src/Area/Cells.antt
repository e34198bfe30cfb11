-- ===== src/Area/Cells.antt =====
-- src/area.rs: which messages share a cell of the ring buffer.
use Prim.Native.Nat.{◌∣◌}
use native.Mathlib.Nat.{
  mod-mod_of_dvd, mod-lt, mod-eq_of_lt, div-add-mod, mul-mod_right, mod-add-mod, dvd_of_mod-eq-zero,
  mod-eq-sub-mod, zero-mod,
}
use market_square.Base.{
  ℕ, ◌+◌, ◌-◌, ◌/◌, ◌%◌, ◌^◌, ◌≤◌, ◌<◌, ◌≡◌, ◌≢◌, ◌↔◌, sym, ap, ◌∙◌, inl, inr, ◌==◌, ltb,
  Bool-cases, ==_iff, arith,
}
use market_square.State.{AreaInner}
use market_square.Area.{slot_index}
use market_square.Arithmetics.Window.{generation_of}

-- Two remainders differ whose numbers are less than `n` apart.
remainder-apart : (n r d : ℕ) → r < n → 0 < d → d < n → (r + d) % n ≢ r
remainder-apart n r d hr hd hn e = elim (Bool-cases (ltb (r + d) n)) [
  | inl small ↦ omega (arith, mod-eq_of_lt {n = r + d} {m = n} (ground (arith, small)), e)
  | inr large ↦
      let turn : n ≤ r + d = ground (arith, large) in
      omega (arith, mod-eq-sub-mod turn, mod-eq_of_lt {n = r + d - n} {m = n} (omega arith), e)
]

pub mod-apart : (n x y : ℕ) → x < y → y < x + n → x % n ≢ y % n
mod-apart n x y h k e =
    remainder-apart n (x % n) (y - x) (mod-lt x (omega arith)) (omega arith) (omega arith)
      (mod-add-mod x n (y - x) ∙ (ap (λ z. z % n) (omega arith) ∙ sym e))

-- Rounding down gives a multiple.
sub-mod : (n m : ℕ) → (m - m % n) % n ≡ 0
sub-mod n m = ap (λ z. z % n) (omega (arith, div-add-mod m n)) ∙ mul-mod_right n (m / n)

-- Any two messages that can be in the buffer together have different cells.
abbrev pub AllApart : {T : Type 0} → AreaInner T → Type 0
AllApart a =
    (x y : ℕ)
    → x < y
    → y < x + a.buffer_capacity
    → slot_index a (generation_of x) ≢ slot_index a (generation_of y)

module _ {T : Type 0} (a : AreaInner T) (p : 0 < a.buffer_capacity) where
  -- Message `2 ^ 63` wraps to generation 0 and shares the cell of the last multiple before it.
  divides : a.buffer_capacity < 2 ^ 63 → AllApart a → a.buffer_capacity ∣ 2 ^ 63
  unfolding slot_index
  divides h apart =
      let n = a.buffer_capacity in
      let r = 2 ^ 63 % n in
      let low : r < n = mod-lt (2 ^ 63) p in
      elim (Bool-cases (r == 0)) [
        | inl e ↦ dvd_of_mod-eq-zero n ((==_iff r 0).0 e)
        | inr e ↦
            let some_left : 0 < r = ground (arith, e) in
            absurd (
              apart (2 ^ 63 - r) (2 ^ 63) (omega arith) (omega arith) (
                ap (λ z. z % n) (mod-eq_of_lt {n = 2 ^ 63 - r} {m = 2 ^ 63} (omega arith))
                ∙ (sub-mod n (2 ^ 63) ∙ sym (zero-mod n))))
      ]

  apart : a.buffer_capacity ∣ 2 ^ 63 → AllApart a
  unfolding slot_index
  apart d x y h k e =
      let n = a.buffer_capacity in
      mod-apart n x y h k (sym (mod-mod_of_dvd n x d) ∙ (e ∙ mod-mod_of_dvd n y d))

-- For a buffer of one cell or more, and fewer than `2 ^ 63`, messages that can be in it together
-- all have cells of their own exactly when its capacity divides `2 ^ 63`, which is to say that it
-- is a power of two: with any other capacity the masked generation's wrap lands on a cell in use.
pub slot_index-AllApart :
    {T : Type 0} (a : AreaInner T)
    → 0 < a.buffer_capacity
    → a.buffer_capacity < 2 ^ 63
    → AllApart a ↔ (a.buffer_capacity ∣ 2 ^ 63)
slot_index-AllApart a p h = (divides a p h, apart a p)
