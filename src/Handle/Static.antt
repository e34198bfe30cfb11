-- ===== src/Handle/Static.antt =====
-- examples/no-alloc-static.rs: an area in static memory, which no allocator provides.
use native.Mathlib.Nat.{pow-le-pow_right}
use market_square.Base.{
  ℕ, zero, suc, List, ◌-◌, ◌^◌, ◌<◌, ◌≡◌, refl, ap, ◌∙◌, Bool, true, false, not, ◌&&◌, none, Option,
  ◌==◌, ltb, if◌then◌else◌, replicate, length-replicate, arith,
}
use market_square.State.{SimpleLpHashMap, AreaInner, World, Outcome, returned, panicked, spinning}
use market_square.Map.{new_slot, is_power_of_two, from_storage, with_capacity_and_init}
use market_square.Area
use market_square.Area.{suspended_bit, fresh, init, ElementSizes, is_allocatable}
use market_square.Handle.Sizes.{guards, IsAllocatable, allocatable}
use market_square.Handle.{finish_init, area}

module _ {T : Type 0} where
  -- `init_area`. The file's constants `BUFFER_CAPACITY` and `READER_CAPACITY` are arguments, and
  -- `others` is what other threads do to the static memory later.
  unfoldable pub init_area : ℕ → ℕ → (ℕ → AreaInner T → AreaInner T) → ℕ → Outcome (ℕ × World T)
  unfolding from_storage init finish_init
  init_area buffer_capacity reader_capacity others fuel =
      let buffer = replicate buffer_capacity none in
      elim (from_storage (replicate reader_capacity (new_slot suspended_bit))) [
        | returned reader_gens_map ↦
            finish_init fuel (record { mem = init reader_gens_map buffer 2 0 0; others = others })
        | panicked ↦ panicked
        | spinning ↦ spinning
      ]

no_power_zero : (n : ℕ) → is_power_of_two n 0 ≡ false
unfolding is_power_of_two
no_power_zero zero = refl
no_power_zero (suc n) =
    let positive : (2 ^ n == 0) ≡ false =
      ground (arith, pow-le-pow_right {n = 2} (omega arith) {i = 0} {j = n} (omega arith)) in
    rw positive (no_power_zero n)

-- The second check of a reader capacity adds nothing to the first.
checks : (n : ℕ) → (is_power_of_two 64 n && ltb 0 n) ≡ is_power_of_two 64 n
checks zero = rw (no_power_zero 64) refl
checks (suc n) = and-true (is_power_of_two 64 (suc n)) (ltb 0 (suc n)) (ground arith)
  where
    and-true : (p q : Bool) → q ≡ true → (p && q) ≡ p
    and-true true q e = e
    and-true false q e = refl

guard : {A : Type 0} → Bool → A → Outcome A
guard p a = if not p then panicked else returned a

from_storage-replicate :
    (n : ℕ)
    → from_storage (replicate n (new_slot suspended_bit))
      ≡ guard (is_power_of_two 64 n) (with_capacity_and_init n suspended_bit)
unfolding from_storage with_capacity_and_init guard
from_storage-replicate n =
    let slots = replicate n (new_slot suspended_bit) in
    ap (λ k. guard (is_power_of_two 64 k && ltb 0 k) (record { mask = k - 1; slots = slots }))
      (length-replicate n (new_slot suspended_bit))
    ∙ ap (λ p. guard p (record { mask = n - 1; slots = slots })) (checks n)

module _ {T : Type 0} (m : SimpleLpHashMap) (buffer : List (Option T))
    (others : ℕ → AreaInner T → AreaInner T) (fuel : ℕ) where
  -- What follows the check, in static memory and in memory that is allocated.
  started : Outcome SimpleLpHashMap → Outcome (ℕ × World T)
  started o = elim o [
    | returned g ↦ finish_init fuel (record { mem = init g buffer 2 0 0; others = others })
    | panicked ↦ panicked
    | spinning ↦ spinning
  ]

  allocated : Outcome (AreaInner T) → Outcome (ℕ × World T)
  allocated o = elim o [
    | returned inner ↦ finish_init fuel (record { mem = inner; others = others })
    | panicked ↦ panicked
    | spinning ↦ spinning
  ]

  same_start :
      (p b x y : Bool)
      → b ≡ false
      → x ≡ true
      → y ≡ true
      → started (guard p m) ≡ allocated (guards b p x y (fresh m buffer))
  unfolding started allocated guard init
  same_start true b x y e f g = rw (e, f, g) refl
  same_start false b x y e f g = rw e refl

-- With the same capacities, at least one cell, less than `2 ^ 63` bytes in the buffer and in the
-- reader map, and whatever other threads do: an area in static memory starts exactly like one that
-- is allocated, and panics exactly when that does.
pub init_area-area :
    {T : Type 0} (sizes : ElementSizes) (buffer_capacity reader_capacity : ℕ)
    (others : ℕ → AreaInner T → AreaInner T) (fuel : ℕ)
    → 0 < buffer_capacity
    → IsAllocatable sizes buffer_capacity reader_capacity
    → init_area buffer_capacity reader_capacity others fuel
      ≡ area sizes buffer_capacity reader_capacity others fuel
unfolding init_area area Area.new started allocated
init_area-area {T} sizes buffer_capacity reader_capacity others fuel some_cells fits =
    let m = with_capacity_and_init reader_capacity suspended_bit in
    let buffer = replicate buffer_capacity none in
    ap (started m buffer others fuel) (from_storage-replicate reader_capacity)
    ∙ same_start m buffer others fuel (is_power_of_two 64 reader_capacity) (buffer_capacity == 0)
        (is_allocatable sizes.cell buffer_capacity) (is_allocatable sizes.slot reader_capacity)
        (ground (arith, some_cells)) (allocatable sizes.cell buffer_capacity fits.0)
        (allocatable sizes.slot reader_capacity fits.1)
