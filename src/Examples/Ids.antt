-- ===== src/Examples/Ids.antt =====
-- The theorems on the ids of readers and on areas in static memory, at concrete maps.
use native.Mathlib.Nat.{dvd_of_mod-eq-zero}
use market_square.Base.{ℕ, zero, suc, ◌<◌, ◌≡◌, ◌↔◌, refl, inl, inr, some, arith}
use market_square.Map.{slot_at, key_bits}
use market_square.Map.Home.{IsSized}
use market_square.Map.Keys.{IsHome, Homes}
use market_square.Area.Invariant.{Ensures}
use market_square.Area.Reader.{
  register_reader_with_seed, unregister_reader, get_reader_ptr_boilerplate,
}
use market_square.Area.Reader.Ids.{EndsHoused, registrations-Housed}
use market_square.Area.Reader.Registry.{
  IsSlotOf, lookup-IsSlotOf, Registers, register_reader_with_seed-Registers,
}
use market_square.Handle.{area}
use market_square.Handle.Static.{init_area, init_area-area}
use market_square.Examples.Alone.{words}
use market_square.Examples.{two_readers, wrapping, quiet}

four-IsSized : IsSized 4
four-IsSized = record { divides = dvd_of_mod-eq-zero 4 refl; small = omega arith }

two_readers-IsHome : (j : ℕ) → j < 4 → IsHome 4 j (slot_at two_readers j).key
unfolding key_bits
two_readers-IsHome zero h = inl refl
two_readers-IsHome (suc zero) h = inr (λ e. absurd (omega (arith, e)), refl)
two_readers-IsHome (suc (suc zero)) h = inr (λ e. absurd (omega (arith, e)), refl)
two_readers-IsHome (suc (suc (suc zero))) h = inl refl
two_readers-IsHome (suc (suc (suc (suc j)))) h = absurd (omega (arith, h))

two_readers-Homes : Homes 4 two_readers
two_readers-Homes = record { size = refl; shape = refl; keys = two_readers-IsHome }

registrations-Housed_example :
    Ensures (EndsHoused 4) (register_reader_with_seed 2 5 quiet)
    × EndsHoused 4 (unregister_reader 2 quiet)
    × EndsHoused 4 (get_reader_ptr_boilerplate 2 quiet)
registrations-Housed_example =
    registrations-Housed 2 5 2 quiet four-IsSized
      (record { homes = two_readers-Homes; keeps = λ k a h. h })

lookup-IsSlotOf_example : ((get_reader_ptr_boilerplate 2 quiet).0 ≡ some 2) ↔ IsSlotOf wrapping 2 2
lookup-IsSlotOf_example =
    lookup-IsSlotOf wrapping 2 2 four-IsSized two_readers-Homes (λ e. absurd (omega (arith, e)))

register_reader_with_seed-Registers_example :
    Registers wrapping (register_reader_with_seed 1 5 quiet)
register_reader_with_seed-Registers_example =
    register_reader_with_seed-Registers 0 5 wrapping four-IsSized two_readers-Homes

init_area-area_example : init_area {T = ℕ} 16 4 (λ i a. a) 1 ≡ area words 16 4 (λ i a. a) 1
init_area-area_example =
    init_area-area words 16 4 (λ i a. a) 1 (omega arith) (omega arith, omega arith)
