-- ===== src/Delivery.antt =====
-- How the parts of src/area.rs and src/iter.rs work together: from a reservation over the iterator
-- and its publication to a reader.
pub mod Steps
pub mod Order
use market_square.Base.{ℕ, List, length}
use market_square.State.{World, Result, ok, err, Outcome, returned, panicked, spinning, shared}
use market_square.Area.Writer.{ReserveError}
use market_square.Reservation.{reserve}
use market_square.ReservationIter.{into_iter, publish_spin}
use market_square.ReservationIter.Fill.{fill}
use market_square.ReadSlice.{ReadSlice, read}

module _ {T : Type 0} where
  -- A writer reserves a slot for each value, writes them in turn and publishes; then a reader reads.
  unfoldable pub deliver :
      List T → ℕ → ℕ → World T → Outcome (Result ReserveError ReadSlice × World T)
  unfolding reserve into_iter publish_spin read
  deliver vs reader_id fuel w =
      let (result, w1) = reserve shared (length vs) w in
      elim result [
        | err e ↦ returned (err e, w1)
        | ok r ↦ elim (fill vs (into_iter r) w1) [
          | panicked ↦ panicked
          | spinning ↦ spinning
          | returned (it, w2) ↦ elim (publish_spin fuel it w2) [
            | panicked ↦ panicked
            | spinning ↦ spinning
            | returned w3 ↦ elim (read reader_id w3) [
              | panicked ↦ panicked
              | spinning ↦ spinning
              | returned (s, w4) ↦ returned (ok s, w4)
            ]
          ]
        ]
      ]
