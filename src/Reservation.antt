-- ===== src/Reservation.antt =====
-- src/area.rs: `Reservation`, the guard over a range of reserved slots, and the writer's `reserve`.
pub mod Split
pub mod Spin
pub mod Cells
use market_square.Base.{
  ℕ, zero, suc, Bool, true, false, Option, none, some, not, ◌&&◌, leb, if◌then◌else◌,
}
use market_square.Arithmetics.{gen_dist_msb_masked, gen_gte_msb_masked, gen_add_msb_masked}
use market_square.State.{
  AreaInner, World, Result, ok, err, Outcome, returned, panicked, spinning, Mode, shared,
}
use market_square.Area.{slot_index}
use market_square.Area.Writer.{
  ReserveError, PublishError, cas_failed, out_of_order_publish_attempt, try_reserve_slots,
  try_reserve_slots_best_effort, publish_slots,
}

pub record Reservation : Type 0 where
  pub start_gen : ℕ
  pub end_gen : ℕ
  pub published : Bool
  pub armed : Bool

abbrev pub new_reservation : ℕ → ℕ → Bool → Reservation
new_reservation start_gen end_gen armed = record {
  start_gen = start_gen;
  end_gen = end_gen;
  published = false;
  armed = armed;
}

unfoldable pub len : Reservation → ℕ
len r = gen_dist_msb_masked r.end_gen r.start_gen

unfoldable pub is_empty : Reservation → Bool
is_empty r = gen_gte_msb_masked r.start_gen r.end_gen

abbrev pub disarm : Reservation → Reservation
disarm r = record r { armed = false }

abbrev pub arm : Reservation → Reservation
arm r = record r { armed = true }

-- The guard's `Drop`: it panics if its slots would stay blocked.
unfoldable pub drop : Reservation → Outcome (Unit {0})
drop r = if not r.published && r.armed then panicked else returned tt

-- The halves before and from `index`; the guard itself counts as published.
unfoldable pub split_at_mut : Reservation → ℕ → Outcome (Reservation × Reservation)
unfolding len
split_at_mut r index =
    let split_gen = gen_add_msb_masked r.start_gen index in
    if not (leb index (len r))
    then panicked
    else returned
        (new_reservation r.start_gen split_gen r.armed, new_reservation split_gen r.end_gen r.armed)

module _ {T : Type 0} where
  unfoldable pub reserve : Mode → ℕ → World T → Result ReserveError Reservation × World T
  reserve mode n w =
      let (range, w') = try_reserve_slots mode n w in
      (elim range [ ok (s, e) ↦ ok (new_reservation s e true) | err x ↦ err x ], w')

  unfoldable pub reserve_best_effort :
      Mode → ℕ → World T → Result ReserveError Reservation × World T
  reserve_best_effort mode n w =
      let (range, w') = try_reserve_slots_best_effort mode n w in
      (elim range [ ok (s, e, _) ↦ ok (new_reservation s e true) | err x ↦ err x ], w')

  -- The cell that `get_mut` points to.
  unfoldable pub get_mut : Reservation → ℕ → AreaInner T → Option ℕ
  unfolding len slot_index
  get_mut r index a =
      if leb (len r) index then none else some (slot_index a (gen_add_msb_masked r.start_gen index))

  -- On success the guard is consumed, marked published.
  unfoldable pub publish :
      Mode → Reservation → World T → Result (Reservation × PublishError) Reservation × World T
  publish mode r w =
      let (result, w') = publish_slots mode r.start_gen r.end_gen w in
      (
        elim result [
          | ok _ ↦ ok (record r { published = true })
          | err e ↦ err (record r { published = false }, e)
        ],
        w',
      )

  -- Retries by compare-exchange, `fuel` times at most.
  unfoldable pub publish_spin : ℕ → Reservation → World T → Outcome (World T)
  unfolding publish
  publish_spin zero r w = spinning
  publish_spin (suc fuel) r w =
      let (result, w') = publish shared r w in
      elim result [
        | ok _ ↦ returned w'
        | err (r', e) ↦ elim e [
          | cas_failed ↦ publish_spin fuel r' w'
          | out_of_order_publish_attempt ↦ panicked
        ]
      ]
