-- ===== src/Handle/Sizes.antt =====
-- src/area.rs: the sizes that `AreaInner::new` accepts, and those that it panics on.
use Prim.Native.Nat.{◌∣◌}
use native.Mathlib.Nat.{dvd_refl, dvd_trans, dvd-mul_right, pow-suc}
use mathlib.Core.Path.{subst}
use market_square.Base.{
  ℕ, zero, suc, ◌+◌, ◌*◌, ◌^◌, ◌≤◌, ◌<◌, ◌≡◌, ◌≢◌, ◌⊎◌, ◌↔◌, inl, inr, refl, sym, ap, ◌∙◌, Bool,
  not, if◌then◌else◌, none, replicate, true, false, ◌==◌, Bool-cases, ==_iff, arith,
}
use market_square.State.{Outcome, returned, panicked, spinning}
use market_square.Map.{with_capacity_and_init}
use market_square.Area
use market_square.Map.{is_power_of_two}
use market_square.Area.{suspended_bit, fresh, ElementSizes, is_allocatable}

pub pow-dvd : (k d : ℕ) → 2 ^ k ∣ 2 ^ (d + k)
pow-dvd k zero = subst (λ n. 2 ^ k ∣ 2 ^ n) (omega arith) (dvd_refl (2 ^ k))
pow-dvd k (suc d) =
    let place : suc (d + k) ≡ suc d + k = omega arith in
    subst (λ n. 2 ^ k ∣ 2 ^ n) place
      (subst (λ n. 2 ^ k ∣ n) (sym (pow-suc 2 (d + k)))
        (dvd_trans (2 ^ k) (pow-dvd k d) (dvd-mul_right (2 ^ (d + k)) 2)))

-- No power of two with an exponent below `n`.
abbrev pub IsNoPower : ℕ → ℕ → Type 0
IsNoPower n x = (k : ℕ) → k < n → 2 ^ k ≢ x

is_power_of_two-no : (n x : ℕ) → is_power_of_two n x ≡ false → IsNoPower n x
unfolding is_power_of_two
is_power_of_two-no zero x e k h = absurd (omega (arith, h))
is_power_of_two-no (suc n) x e k h = elim (Bool-cases (2 ^ n == x)) [
  | inl here ↦ absurd (ground (arith, here, e))
  | inr not_here ↦ elim (Bool-cases (k == n)) [
    | inl last ↦ λ p. ground (arith, not_here, ap (λ j. 2 ^ j) (sym ((==_iff k n).0 last)) ∙ p)
    | inr earlier ↦
        is_power_of_two-no n x (ground (arith, not_here, e)) k (ground (arith, h, earlier))
  ]
]

no-is_power_of_two : (n x : ℕ) → IsNoPower n x → is_power_of_two n x ≡ false
unfolding is_power_of_two
no-is_power_of_two zero x h = refl
no-is_power_of_two (suc n) x h =
    let not_here : (2 ^ n == x) ≡ false = ground (arith, h n (omega arith)) in
    rw not_here (no-is_power_of_two n x (λ k l. h k (omega (arith, l))))

abbrev IsReturned : {A : Type 0} → Outcome A → Type 0
IsReturned (returned a) = Unit {0}
IsReturned panicked = ⊥
IsReturned spinning = ⊥

-- The guards of `AreaInner::new`, each of which panics.
abbrev pub guards : {A : Type 0} → Bool → Bool → Bool → Bool → A → Outcome A
guards b p x y a =
    if b
    then panicked
    else if not p
    then panicked
    else if not x
    then panicked
    else if not y
    then panicked
    else returned a

guarded :
    {A : Type 0} (b p x y : Bool) (a : A)
    → (guards b p x y a ≡ panicked) ↔ ((b ≡ true) ⊎ (p ≡ false) ⊎ (x ≡ false) ⊎ (y ≡ false))
guarded true p x y a = (λ e. inl refl, λ e. refl)
guarded false false x y a = (λ e. inr (inl refl), λ e. refl)
guarded false true false y a = (λ e. inr (inr (inl refl)), λ e. refl)
guarded false true true false a = (λ e. inr (inr (inr refl)), λ e. refl)
guarded false true true true a =
    (λ e. absurd (subst IsReturned e tt), λ e. absurd (ground (arith, e)))

accepted :
    {A : Type 0} (b p x y : Bool) (a : A)
    → b ≡ false
    → p ≡ true
    → x ≡ true
    → y ≡ true
    → guards b p x y a ≡ returned a
accepted b p x y a e h f g = rw (e, h, f, g) refl

-- Both vectors are within the largest allocation.
abbrev pub IsAllocatable : ElementSizes → ℕ → ℕ → Type 0
IsAllocatable sizes buffer_capacity reader_capacity =
    (sizes.cell * buffer_capacity < 2 ^ 63) × (sizes.slot * reader_capacity < 2 ^ 63)

is_allocatable_iff : (size n : ℕ) → (is_allocatable size n ≡ false) ↔ (2 ^ 63 ≤ size * n)
unfolding is_allocatable
is_allocatable_iff size n = (λ e. ground (arith, e), λ h. ground (arith, h))

pub allocatable : (size n : ℕ) → size * n < 2 ^ 63 → is_allocatable size n ≡ true
unfolding is_allocatable
allocatable size n h = ground (arith, h)

pub new-returned :
    {T : Type 0} (sizes : ElementSizes) (buffer_capacity k : ℕ)
    → 0 < buffer_capacity
    → k < 64
    → IsAllocatable sizes buffer_capacity (2 ^ k)
    → Area.new {T = T} sizes buffer_capacity (2 ^ k)
      ≡ returned
          (fresh (with_capacity_and_init (2 ^ k) suspended_bit) (replicate buffer_capacity none))
unfolding Area.new
new-returned sizes buffer_capacity k some_cells small fits =
    let power : is_power_of_two 64 (2 ^ k) ≡ true = elim (Bool-cases (is_power_of_two 64 (2 ^ k))) [
      | inl e ↦ e
      | inr e ↦ absurd (is_power_of_two-no 64 (2 ^ k) e k small refl)
    ] in
    accepted (buffer_capacity == 0) (is_power_of_two 64 (2 ^ k))
      (is_allocatable sizes.cell buffer_capacity) (is_allocatable sizes.slot (2 ^ k)) _
      (ground (arith, some_cells)) power (allocatable sizes.cell buffer_capacity fits.0)
      (allocatable sizes.slot (2 ^ k) fits.1)

-- Creating the area's memory panics exactly when the buffer has no cells, the capacity of the
-- reader map is no power of two below `2 ^ 64`, or one of the two vectors has more than
-- `2 ^ 63 - 1` bytes.
pub new-panicked :
    {T : Type 0} (sizes : ElementSizes) (buffer_capacity reader_capacity : ℕ)
    → (Area.new {T = T} sizes buffer_capacity reader_capacity ≡ panicked) ↔ (
        (buffer_capacity ≡ 0)
        ⊎ IsNoPower 64 reader_capacity
        ⊎ (2 ^ 63 ≤ sizes.cell * buffer_capacity)
        ⊎ (2 ^ 63 ≤ sizes.slot * reader_capacity))
unfolding Area.new
new-panicked {T} sizes buffer_capacity reader_capacity =
    let b = buffer_capacity == 0 in
    let p = is_power_of_two 64 reader_capacity in
    let in_buffer = is_allocatable_iff sizes.cell buffer_capacity in
    let in_map = is_allocatable_iff sizes.slot reader_capacity in
    let x = is_allocatable sizes.cell buffer_capacity in
    let y = is_allocatable sizes.slot reader_capacity in
    let g = guarded b p x y (
      fresh {T = T} (with_capacity_and_init reader_capacity suspended_bit)
        (replicate buffer_capacity none)) in
    (
      λ e. elim (g.0 e) [
        | inl empty ↦ inl ((==_iff _ _).0 empty)
        | inr (inl odd) ↦ inr (inl (is_power_of_two-no 64 reader_capacity odd))
        | inr (inr (inl large)) ↦ inr (inr (inl (in_buffer.0 large)))
        | inr (inr (inr large)) ↦ inr (inr (inr (in_map.0 large)))
      ],
      λ h. elim h [
        | inl empty ↦ g.1 (inl ((==_iff _ _).1 empty))
        | inr (inl odd) ↦ g.1 (inr (inl (no-is_power_of_two 64 reader_capacity odd)))
        | inr (inr (inl large)) ↦ g.1 (inr (inr (inl (in_buffer.1 large))))
        | inr (inr (inr large)) ↦ g.1 (inr (inr (inr (in_map.1 large))))
      ],
    )
