-- ===== src/Examples/Rings.antt =====
-- The theorems on the cells of the ring, at concrete areas.
use native.Mathlib.Nat.{dvd_of_mod-eq-zero}
use market_square.Base.{ℕ, ◌+◌, ◌-◌, ◌^◌, ◌<◌, ◌≢◌, refl, true, arith}
use market_square.State.{AreaInner, alone, shared}
use market_square.Map.{capacity, index_for, key_bits}
use market_square.Arithmetics.{is_suspended}
use market_square.Area.Invariant.{Counts, Moment, Later-refl}
use market_square.Area.Cleanup.{try_cleanup_old_slots}
use market_square.Area.Cleanup.Alone.{needed}
use market_square.Area.Cleanup.Drops.{Drops, try_cleanup_old_slots-Drops}
use market_square.Area.Reader.Moves.{home}
use market_square.Reservation.{get_mut}
use market_square.Reservation.Cells.{InCells, get_mut-InCells}
use market_square.ReadSlice.Dropped.{Stands}
use market_square.Delivery.{deliver}
use market_square.Delivery.Steps.{Delivers}
use market_square.Delivery.Order.{deliver-Delivers}
use market_square.Examples.{two_readers, wrapping, counts, limit, quiet, quiet-Moment}
use market_square.Examples.Alone.{
  numbered, three_cells, three_cells-Spans, three_slots, three_slots-Guards, three_values,
}

try_cleanup_old_slots-Drops_example :
    Drops true
      (2 ^ 63 - 2)
      (needed counts two_readers (2 ^ 63) (capacity two_readers) 0)
      wrapping
      (try_cleanup_old_slots shared true 1 quiet)
try_cleanup_old_slots-Drops_example =
    try_cleanup_old_slots-Drops shared true 0 (quiet-Moment.counters, quiet-Moment.readers) refl
      (omega arith) (dvd_of_mod-eq-zero 8 refl) refl

get_mut-InCells_example :
    ((i : ℕ) → InCells numbered (2 ^ 63 - 1) 3 three_slots three_cells i)
    × ((i j : ℕ) → i < j → j < 3 → get_mut three_slots i numbered ≢ get_mut three_slots j numbered)
get_mut-InCells_example =
    get_mut-InCells three_slots three_cells three_slots-Guards three_cells-Spans

-- The area after its reserved message was published.
abbrev published : AreaInner ℕ
published = record numbered { read_gen = 1 }

abbrev published_counts : Counts
published_counts = record counts { read = 2 ^ 63 + 1 }

published-Moment : Moment limit published_counts (alone published)
published-Moment = record {
  counters = record {
    write = refl;
    read = refl;
    last_valid = refl;
    free = refl;
    freed = omega arith;
    valid = omega arith;
    readable = omega arith;
    room = omega arith;
    small = omega arith;
    shape = refl;
  };
  readers = λ j h.
      let q = quiet-Moment.readers j h in
      record { value = q.value; word = q.word; kept = q.kept; seen = omega (arith, q.seen) };
  fits = omega arith;
  disciplined = λ k c a e b. (c, e, Later-refl, b);
}

published-Stands : Stands (home (alone published) 2) 2 (2 ^ 63 - 1) (alone published)
unfolding index_for key_bits is_suspended
published-Stands = record {
  named = record { names = refl; keeps = λ k a e. refl };
  value = refl;
  active = refl;
  own = λ k a e. refl;
}

deliver-Delivers_example :
    Delivers three_values 2
      (2 ^ 63 - 1)
      (2 ^ 63 + 1)
      published_counts
      published
      (deliver three_values 2 1 (alone published))
unfolding index_for
deliver-Delivers_example =
    deliver-Delivers three_values 2 (2 ^ 63 - 1) 0 published published-Moment refl published-Stands
      (omega arith) (dvd_of_mod-eq-zero 8 refl) refl (omega arith)
