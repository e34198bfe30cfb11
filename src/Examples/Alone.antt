-- ===== src/Examples/Alone.antt =====
-- The theorems on calls that no other thread disturbs, at concrete areas.
use native.Mathlib.Nat.{dvd_of_mod-eq-zero}
use market_square.Base.{ℕ, ◌*◌, ◌-◌, ◌^◌, ◌≤◌, ◌≡◌, refl, true, some, [], List, ◌∷◌, ◌++◌, arith}
use market_square.State.{AreaInner, alone, shared, exclusive}
use market_square.Map.{capacity}
use market_square.Area.Cleanup.{try_cleanup_old_slots}
use market_square.Area.Cleanup.Alone.{needed}
use market_square.Area.Cleanup.Total.{CleanedAlone, try_cleanup_old_slots-CleanedAlone}
use market_square.Base.{◌↔◌, ◌⊎◌, length, ◌==◌}
use market_square.Area
use market_square.Area.{ElementSizes}
use market_square.Area.Reader.{register_reader_with_seed, unregister_reader}
use market_square.Area.Reader.Moves.{home, Kept}
use market_square.Area.Reader.Leave.{Unregistered, unregister_reader-Unregistered}
use market_square.Area.Reader.Vacancy.{RegisteredAlone, register_reader_with_seed-RegisteredAlone}
use market_square.Handle.{area}
use market_square.Handle.Sizes.{IsNoPower, new-panicked}
use market_square.Handle.Open.{IsOpened, area-IsOpened}
use market_square.Reservation.{Reservation, len, new_reservation}
use market_square.Reservation.Split.{Guards}
use market_square.ReservationIter.{into_iter}
use market_square.ReservationIter.Fill.{fill, RoundTrip, fill-RoundTrip}
use market_square.ReservationIter.Whole.{PublishesAll, publish-PublishesAll}
use market_square.Area.Invariant.{Ensures}
use market_square.Arithmetics.{is_suspended, gen_dist_msb_masked}
use market_square.Map.{index_for, key_bits}
use market_square.State.{panicked}
use market_square.ReadSlice.Dropped.{Stands, Stopped, drop_slice-Kept}
use market_square.ReadSlice.Checked.{Checked, read_with_check-Checked}
use market_square.ReadSlice.{
  read_with_check, drop_slice, ReadSlice, new_disarmed, iter_size_hint, as_slices,
}
use market_square.ReadSlice.Slices.{Spans, iterate, iterate-as_slices}
use market_square.Examples.{two_readers, wrapping, counts, limit, quiet, quiet-Moment}

try_cleanup_old_slots-CleanedAlone_example :
    CleanedAlone
      (2 ^ 63 - 2)
      (needed counts two_readers (2 ^ 63) (capacity two_readers) 0)
      counts
      wrapping
      (try_cleanup_old_slots exclusive true 1 quiet)
try_cleanup_old_slots-CleanedAlone_example =
    try_cleanup_old_slots-CleanedAlone exclusive true 0
      (quiet-Moment.counters, quiet-Moment.readers) refl

-- Eight cells that can be told apart, and a slice of the last cell and the first two.
abbrev pub numbered : AreaInner ℕ
numbered = record wrapping {
  buffer = some 10 ∷ some 11 ∷ some 12 ∷ some 13 ∷ some 14 ∷ some 15 ∷ some 16 ∷ some 17 ∷ [];
}

abbrev pub three_cells : ReadSlice
three_cells = new_disarmed 2 (2 ^ 63 - 1) 2

pub three_cells-Spans : Spans numbered (2 ^ 63 - 1) 3 three_cells
three_cells-Spans = record {
  starts = refl;
  ends = refl;
  inside = omega arith;
  some_cells = omega arith;
  small = omega arith;
  divides = dvd_of_mod-eq-zero 8 refl;
  whole = refl;
}

iterate-as_slices_example :
    (iterate 4 three_cells 0 numbered
      ≡ (as_slices three_cells numbered).0 ++ (as_slices three_cells numbered).1)
    × ((i : ℕ)
        → i ≤ 3
        → iter_size_hint three_cells i ≡ (
          length (iterate 4 three_cells i numbered),
          some (length (iterate 4 three_cells i numbered)),
        ))
iterate-as_slices_example =
    iterate-as_slices {x = 2 ^ 63 - 1} {n = 3} 4 three_cells-Spans (omega arith)

abbrev pub three_values : List ℕ
three_values = 1 ∷ 2 ∷ 3 ∷ []

abbrev two_values : List ℕ
two_values = 1 ∷ 2 ∷ []

-- A reservation of the same three cells.
abbrev pub three_slots : Reservation
three_slots = new_reservation (2 ^ 63 - 1) 2 true

pub three_slots-Guards : Guards (2 ^ 63 - 1) 3 three_slots
unfolding len gen_dist_msb_masked
three_slots-Guards = record { starts = refl; ends = refl; counted = refl }

fill-RoundTrip_example :
    RoundTrip three_values three_cells numbered
      (fill three_values (into_iter three_slots) (alone numbered))
fill-RoundTrip_example =
    fill-RoundTrip (2 ^ 63 - 1) three_values three_slots three_cells numbered three_slots-Guards
      three_cells-Spans

publish-PublishesAll_example :
    PublishesAll shared three_slots
      (length two_values == 3)
      (fill two_values (into_iter three_slots) (alone numbered))
publish-PublishesAll_example =
    publish-PublishesAll shared (2 ^ 63 - 1) 3 two_values three_slots numbered three_slots-Guards
      (omega arith) (omega arith)

register_reader_with_seed-RegisteredAlone_example :
    RegisteredAlone wrapping (register_reader_with_seed 1 5 quiet)
register_reader_with_seed-RegisteredAlone_example =
    register_reader_with_seed-RegisteredAlone 0 5 wrapping refl

unregister_reader-Unregistered_example :
    Kept limit counts quiet (Unregistered (home quiet 2)) (unregister_reader 2 quiet)
unfolding index_for key_bits
unregister_reader-Unregistered_example =
    unregister_reader-Unregistered 2 quiet quiet-Moment (λ k a e. refl) (λ k a e. refl)
      (λ k a e s. s) refl

abbrev cells : ℕ
cells = 2 ^ 60

-- Cells of a word, and slots of two padded ones.
abbrev pub words : ElementSizes
words = record { cell = 8; slot = 256 }

new-panicked_example :
    (Area.new {T = ℕ} words cells 4 ≡ panicked)
    ↔ ((cells ≡ 0) ⊎ IsNoPower 64 4 ⊎ (2 ^ 63 ≤ 8 * cells) ⊎ (2 ^ 63 ≤ 256 * 4))
new-panicked_example = new-panicked words cells 4

area-IsOpened_example : IsOpened (area {T = ℕ} words 8 (2 ^ 2) (λ i a. a) 1)
area-IsOpened_example =
    area-IsOpened ℕ words 8 2 0 (omega arith) (omega arith) (omega arith) (omega arith, omega arith)

-- The message that reader 2 stands at.
abbrev one_message : ReadSlice
one_message = record { reader_id = 2; start_gen = 2 ^ 63 - 1; end_gen = 0; armed = true }

pub quiet-Stands : Stands (home quiet 2) 2 (2 ^ 63 - 1) quiet
unfolding index_for key_bits is_suspended
quiet-Stands = record {
  named = record { names = refl; keeps = λ k a e. refl };
  value = refl;
  active = refl;
  own = λ k a e. refl;
}

drop_slice-Kept_example :
    Ensures
      (λ w'. Kept limit counts quiet (Stopped (home quiet 2) (2 ^ 63)) (tt, w'))
      (drop_slice one_message quiet)
drop_slice-Kept_example =
    drop_slice-Kept (2 ^ 63 - 1) 1 one_message quiet quiet-Moment quiet-Stands refl refl refl
      (omega arith) (omega arith) (omega arith) (omega arith)

read_with_check-Checked_example :
    Ensures
      (Kept limit counts quiet (Checked limit counts quiet (home quiet 2)))
      (read_with_check 2 quiet)
read_with_check-Checked_example =
    read_with_check-Checked 2 (2 ^ 63 - 1) quiet quiet-Moment quiet-Stands
