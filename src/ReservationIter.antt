-- ===== src/ReservationIter.antt =====
-- src/iter.rs: `ReservationIter`, which publishes only after every yielded slot was written.
pub mod Fill
pub mod Whole
pub mod Spin
use market_square.Base.{
  ℕ, zero, suc, ◌+◌, ◌%◌, ◌^◌, Bool, true, false, Option, none, some, not, ◌==◌, if◌then◌else◌,
}
use market_square.Arithmetics.{gen_dist_msb_masked, gen_gte_msb_masked, gen_add_msb_masked}
use market_square.State.{
  World, Result, ok, err, Outcome, returned, panicked, spinning, Mode, shared,
}
use market_square.Area.{write_slot}
use market_square.Area.Writer.{
  PublishError, cas_failed, out_of_order_publish_attempt, publish_slots,
}
use market_square.Reservation
use market_square.Reservation.{Reservation}

pub record ReservationSlot : Type 0 where
  pub generation : ℕ
  pub written : Bool

pub record ReservationIter : Type 0 where
  pub start_gen : ℕ
  pub end_gen : ℕ
  pub cursor : ℕ
  pub written_count : ℕ
  pub total : ℕ
  pub published : Bool

-- The reservation is marked published, so that only the iterator guards its slots.
unfoldable pub into_iter : Reservation → ReservationIter
unfolding Reservation.len
into_iter r = record {
  start_gen = r.start_gen;
  end_gen = r.end_gen;
  cursor = r.start_gen;
  written_count = 0;
  total = Reservation.len r;
  published = false;
}

abbrev pub len : ReservationIter → ℕ
len it = it.total

abbrev pub is_empty : ReservationIter → Bool
is_empty it = it.total == 0

abbrev pub all_written : ReservationIter → Bool
all_written it = it.written_count == it.total

unfoldable pub remaining : ReservationIter → ℕ
remaining it = gen_dist_msb_masked it.end_gen it.cursor

unfoldable pub size_hint : ReservationIter → ℕ × Option ℕ
unfolding remaining
size_hint it = (remaining it, some (remaining it))

-- The slot yielded, if any, and the iterator after it.
unfoldable pub next : ReservationIter → Option ReservationSlot × ReservationIter
next it = if gen_gte_msb_masked it.cursor it.end_gen then (none, it) else (
  some (record { generation = it.cursor; written = false }),
  record it { cursor = gen_add_msb_masked it.cursor 1 },
)

-- The slot's `Drop`.
unfoldable pub drop_slot : ReservationSlot → Outcome (Unit {0})
drop_slot slot = if not slot.written then panicked else returned tt

-- The iterator's `Drop`.
unfoldable pub drop : ReservationIter → Outcome (Unit {0})
drop it = if not it.published then panicked else returned tt

module _ {T : Type 0} where
  -- `written_count` is borrowed from the iterator, which is returned with its new count.
  unfoldable pub write :
      ReservationSlot
      → ReservationIter
      → T
      → World T
      → Outcome (ReservationSlot × ReservationIter × World T)
  write slot it val w =
      if slot.written
      then panicked
      else returned (
        record slot { written = true },
        record it { written_count = (it.written_count + 1) % 2 ^ 64 },
        write_slot slot.generation (some val) w,
      )

  unfoldable pub publish :
      Mode
      → ReservationIter
      → World T
      → Outcome (Result (ReservationIter × PublishError) ReservationIter × World T)
  publish mode it w =
      let (result, w') = publish_slots mode it.start_gen it.end_gen w in
      if not (all_written it)
      then panicked
      else returned (
        elim result [
          | ok _ ↦ ok (record it { published = true })
          | err e ↦ err (record it { published = false }, e)
        ],
        w',
      )

  -- Retries by compare-exchange, `fuel` times at most.
  unfoldable pub publish_spin : ℕ → ReservationIter → World T → Outcome (World T)
  unfolding publish
  publish_spin zero it w = spinning
  publish_spin (suc fuel) it w = elim (publish shared it w) [
    | returned (result, w') ↦ elim result [
      | ok _ ↦ returned w'
      | err (it', e) ↦ elim e [
        | cas_failed ↦ publish_spin fuel it' w'
        | out_of_order_publish_attempt ↦ panicked
      ]
    ]
    | panicked ↦ panicked
    | spinning ↦ spinning
  ]
