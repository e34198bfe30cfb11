-- ===== src/Map/Home.antt =====
-- Every key of the reader map stands in its home slot, so that a key names one slot.
use Prim.Native.Nat.{◌∣◌}
use native.Mathlib.Nat.{mod-mod_of_dvd, mod_self, zero-mod}
use market_square.Base.{
  ℕ, ◌+◌, ◌%◌, ◌^◌, ◌<◌, ◌≡◌, ◌≢◌, ◌||◌, inl, inr, sym, ap, ◌∙◌, true, ◌==◌, Bool-cases, arith,
}
use market_square.Arithmetics.{msb, wrapping_add}
use market_square.State.{SimpleLpHashMap}
use market_square.Map.{capacity, in_progress, key_bits, new_key_for}

-- The capacity of a map divides 2 ^ 63, as a smaller power of two does.
pub record IsSized (cap : ℕ) : Type 0 where
  pub divides : cap ∣ 2 ^ 63
  pub small : cap < 2 ^ 63

module _ {cap : ℕ} (s : IsSized cap) where
  masked-mod : (x : ℕ) → x % 2 ^ 63 % cap ≡ x % cap
  masked-mod x = mod-mod_of_dvd cap x s.divides

  pub word-mod : (x : ℕ) → x % 2 ^ 64 % cap ≡ x % cap
  word-mod x = sym (masked-mod (x % 2 ^ 64)) ∙ (ap (λ y. y % cap) (omega arith) ∙ masked-mod x)

-- The key that a folding insertion stores at probe distance `i` is at home where it is stored.
pub new_key_for-home :
    (m : SimpleLpHashMap) (key placement_offset i : ℕ)
    → IsSized (capacity m)
    → let k = key_bits (new_key_for m true key placement_offset i) in
      (k % capacity m ≡ (wrapping_add key placement_offset + i) % capacity m) × (k ≢ 0)
unfolding new_key_for key_bits
new_key_for-home m key placement_offset i s =
    let cap = capacity m in
    let base = wrapping_add key placement_offset in
    let logical = wrapping_add base i in
    elim (Bool-cases ((logical == 0) || (logical == in_progress))) [
      | inl special ↦
          let folded : logical % 2 ^ 63 ≡ 0 = ground (arith, special) in
          let whole : (wrapping_add logical cap % msb + msb) % msb ≡ cap =
            omega (arith, folded, s.small) in
          let at_base : (base + i) % cap ≡ 0 =
            sym (word-mod s (base + i))
            ∙ (sym (masked-mod s logical) ∙ (ap (λ y. y % cap) folded ∙ zero-mod cap)) in
          rw special (
            ap (λ y. y % cap) whole ∙ (mod_self cap ∙ sym at_base),
            λ e. absurd (omega (arith, whole, e)),
          )
      | inr regular ↦
          let same : (logical % msb + msb) % msb ≡ logical % 2 ^ 63 = omega arith in
          rw regular (
            ap (λ y. y % cap) same ∙ (masked-mod s logical ∙ word-mod s (base + i)),
            λ e. ground (arith, regular, e),
          )
    ]
