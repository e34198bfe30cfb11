-- ===== src/Examples/Loops.antt =====
-- The theorems on the loops of readers and writers, at concrete areas.
use market_square.Base.{
  ℕ, zero, suc, ◌+◌, ◌-◌, ◌^◌, ◌≤◌, ◌≡◌, refl, inl, inr, true, false, ◌&&◌, ◌==◌, if◌then◌else◌,
  Bool-cases, arith,
}
use market_square.Arithmetics.{gen_dist_msb_masked}
use market_square.State.{AreaInner, World, returned, shared}
use market_square.Map.{index_for}
use market_square.Area.Invariant.{Counts, Explains, Later, Later-refl, Moment, Ensures}
use market_square.Area.Reader.Moves.{home, Kept}
use market_square.Reservation.{Reservation, len, new_reservation, publish_spin}
use market_square.Reservation.Split.{Guards}
use market_square.Reservation.Spin.{Spun, LeavesRange, with_read, ticks, publish_spin-returns}
use market_square.ReservationIter
use market_square.ReservationIter.{ReservationIter, all_written}
use market_square.ReservationIter.Spin.{IsFilled, publish_spins-Spun}
use market_square.ReadSlice.Dropped.{Stands}
use market_square.ReadSlice.Listen.{listen}
use market_square.ReadSlice.Stays.{StaysIn, try_cleanup_old_slots-StaysIn}
use market_square.Area.Cleanup.{try_cleanup_old_slots}
use market_square.ReadSlice.Rounds.{HearsAll, listen-Heard}
use market_square.Examples.{wrapping, counts, limit, quiet, quiet-Moment}
use market_square.Examples.Alone.{quiet-Stands}

-- A writer that publishes the reserved message as soon as it comes next.
abbrev publishes_next : AreaInner ℕ → AreaInner ℕ
publishes_next a = record a {
  read_gen = if (a.write_gen == 1) && (a.read_gen == 0) then 1 else a.read_gen;
}

abbrev busy : World ℕ
busy = record { mem = wrapping; others = λ k a. publishes_next a }

publishes_next-Later :
    (c : Counts) (a : AreaInner ℕ)
    → Explains c a
    → c.write ≤ limit
    → (c' : Counts) × Explains c' (publishes_next a)
      × Later c a c' (publishes_next a)
      × (c'.write ≤ limit)
publishes_next-Later c a e b = elim (Bool-cases ((a.write_gen == 1) && (a.read_gen == 0))) [
  | inr waits ↦ rw waits (c, e, Later-refl, b)
  | inl next ↦
      let last : a.write_gen ≡ 1 = ground (arith, next) in
      rw next (
        record c { read = c.write },
        (ground (arith, e.0, last), λ j h. ground (arith, e.1 j h, e.0)),
        (omega (arith, e.0), λ j. omega arith),
        b,
      )
]

busy-Moment : Moment limit counts busy
busy-Moment = record {
  counters = quiet-Moment.counters;
  readers = quiet-Moment.readers;
  fits = quiet-Moment.fits;
  disciplined = λ k c a e b. publishes_next-Later c a e b;
}

busy-Stands : Stands (home busy 2) 2 (2 ^ 63 - 1) busy
busy-Stands = record {
  named = record { names = quiet-Stands.named.names; keeps = λ k a e. refl };
  value = quiet-Stands.value;
  active = quiet-Stands.active;
  own = λ k a e. refl;
}

listen-Heard_example :
    Ensures
      (Kept limit counts busy (HearsAll counts (2 ^ 63 - 1) (home busy 2)))
      (listen 3 true 5 2 0 busy)
unfolding index_for
listen-Heard_example = listen-Heard 3 true 4 2 (2 ^ 63 - 1) busy busy-Moment busy-Stands refl

try_cleanup_old_slots-StaysIn_example :
    Ensures (StaysIn (home busy 2) 2 (2 ^ 63 - 1)) (try_cleanup_old_slots shared true 3 busy)
try_cleanup_old_slots-StaysIn_example = try_cleanup_old_slots-StaysIn true 3 busy busy-Stands

-- The message that is reserved and next to be published.
abbrev next_slot : Reservation
next_slot = new_reservation 0 1 true

next_slot-Guards : Guards (2 ^ 63) 1 next_slot
unfolding len gen_dist_msb_masked
next_slot-Guards = record { starts = refl; ends = refl; counted = refl }

quiet-LeavesRange : LeavesRange limit (2 ^ 63) quiet
quiet-LeavesRange k c c' a f f' e e' l h = omega (arith, f, f', e.0, e'.0, l.0, h)

-- An iterator that wrote the reserved message.
abbrev wrote_slot : ReservationIter
wrote_slot = record {
  start_gen = 0;
  end_gen = 1;
  cursor = 1;
  written_count = 1;
  total = 1;
  published = false;
}

wrote_slot-IsFilled : IsFilled wrote_slot next_slot
unfolding all_written
wrote_slot-IsFilled = record { starts = refl; ends = refl; whole = refl }

publish_spins-Spun_example :
    Ensures
      (λ w'. Kept limit counts quiet (Spun limit counts quiet (2 ^ 63) (2 ^ 63 + 1)) (tt, w'))
      (publish_spin 2 next_slot quiet)
    × (ReservationIter.publish_spin 2 wrote_slot quiet ≡ publish_spin 2 next_slot quiet)
publish_spins-Spun_example =
    publish_spins-Spun 2 (2 ^ 63) 1 next_slot wrote_slot quiet quiet-Moment quiet-LeavesRange
      next_slot-Guards wrote_slot-IsFilled (omega arith) (omega arith) (omega arith)

-- Another writer publishes the message before only at the second access.
abbrev delays : ℕ → AreaInner ℕ → AreaInner ℕ
delays (suc zero) a = record a { read_gen = 0 }
delays k a = a

abbrev behind : World ℕ
behind = record { mem = record wrapping { read_gen = 2 ^ 63 - 1 }; others = delays }

publish_spin-returns_example :
    (j : ℕ) × (j ≤ 1)
    × (publish_spin 3 next_slot behind ≡ returned (with_read (2 ^ 63 + 1) (ticks j behind)))
publish_spin-returns_example =
    publish_spin-returns 3 1 (2 ^ 63) 1 next_slot behind next_slot-Guards (omega arith)
      (omega arith) (omega arith) refl
