-- ===== src/Examples.antt =====
-- The theorems at concrete areas: a ring of eight cells whose generations are just wrapping, with an
-- active and a suspended reader.
mod Drops
mod Alone
mod Ahead
mod Heaps
mod Loops
mod Ids
mod Rings
use Prim.Native.Nat.{◌∣◌}
use native.Mathlib.Nat.{dvd_of_mod-eq-zero}
use market_square.Base.{
  ℕ, zero, suc, ◌+◌, ◌-◌, ◌^◌, ◌<◌, ◌≡◌, ◌↔◌, refl, true, false, some, [], ◌∷◌, not, ◌&&◌, ◌==◌,
  leb, ltb, replicate, arith,
}
use market_square.Arithmetics.{
  gen_dist_msb_masked, gen_gte_msb_masked, gen_add_msb_masked, gen_lte_msb_masked,
  gen_gt_msb_masked, gen_lt_msb_masked, is_suspended,
}
use market_square.Arithmetics.Circular.{dist-add, circular_order}
use market_square.Arithmetics.Window.{generation_of, comparisons-generation_of}
use market_square.State.{SimpleLpHashMap, AreaInner, World, alone, shared, exclusive}
use market_square.Map.{capacity, index_for, key_bits}
use market_square.Area.{fresh}
use market_square.Area.Cells.{AllApart, slot_index-AllApart}
use market_square.Area.Invariant.{Counts, Holding, Explains, Later, Later-refl, Moment, Ensures}
use market_square.Area.Writer.{try_reserve_slots, try_reserve_slots_best_effort, publish_slots}
use market_square.Area.Writer.Grab.{Reserved}
use market_square.Area.Writer.Reserve.{try_reserve_slots-Reserved}
use market_square.Area.Writer.BestEffort.{ReservedSome, try_reserve_slots_best_effort-ReservedSome}
use market_square.Area.Writer.Publish.{Published, publish_slots-Published}
use market_square.Area.Reader.{register_reader_with_seed, set_reader_gen, suspend_reader}
use market_square.Area.Reader.Moves.{home, Kept}
use market_square.Area.Reader.Own.{
  Advanced, Suspended, set_reader_gen-Advanced, suspend_reader-Suspended,
}
use market_square.Area.Reader.Register.{Registered, register_reader_with_seed-Registered}
use market_square.Reservation.{Reservation, len, new_reservation, split_at_mut}
use market_square.Reservation.Split.{Splits, split_at_mut-Splits}
use market_square.ReadSlice.{read_at_most}
use market_square.ReadSlice.Window.{Views, read_at_most-Views}
use market_square.Area.Cleanup.{try_cleanup_old_slots}
use market_square.Area.Cleanup.Advance.{Cleaned}
use market_square.Area.Cleanup.Safety.{try_cleanup_old_slots-Cleaned}

-- The active reader's next message is 2 ^ 63 - 1, and the other is suspended at 2 ^ 63 - 2.
abbrev pub two_readers : SimpleLpHashMap
two_readers = record {
  mask = 3;
  slots =
      record { key = 0; value = 2 ^ 64 - 2 }
      ∷ record { key = 1; value = 2 ^ 64 - 2 }
      ∷ record { key = 2; value = 2 ^ 63 - 1 }
      ∷ record { key = 0; value = 2 ^ 64 - 2 }
      ∷ [];
}

-- The last message written has wrapped to generation 0, and one more is reserved.
abbrev pub wrapping : AreaInner ℕ
wrapping = record (fresh two_readers (replicate 8 (some 7))) {
  write_gen = 1;
  read_gen = 0;
  last_valid_gen = 2 ^ 63 - 2;
  free_gen = 2 ^ 63 - 2;
}

abbrev held_by : ℕ → ℕ
held_by (suc (suc zero)) = 2 ^ 63 - 1
held_by j = 2 ^ 63 - 2

abbrev pub counts : Counts
counts = record {
  write = 2 ^ 63 + 1;
  read = 2 ^ 63;
  last_valid = 2 ^ 63 - 2;
  free = 2 ^ 63 - 2;
  held = held_by;
}

abbrev pub limit : ℕ
limit = 2 ^ 63 + 100

abbrev pub quiet : World ℕ
quiet = alone wrapping

quiet-Holding : (j : ℕ) → j < capacity two_readers → Holding counts two_readers j
quiet-Holding zero h = record {
  value = refl;
  word = omega arith;
  kept = omega arith;
  seen = omega arith;
}
quiet-Holding (suc zero) h = record {
  value = refl;
  word = omega arith;
  kept = omega arith;
  seen = omega arith;
}
quiet-Holding (suc (suc zero)) h = record {
  value = refl;
  word = omega arith;
  kept = omega arith;
  seen = omega arith;
}
quiet-Holding (suc (suc (suc zero))) h = record {
  value = refl;
  word = omega arith;
  kept = omega arith;
  seen = omega arith;
}
quiet-Holding (suc (suc (suc (suc j)))) h = absurd (omega (arith, h))

pub quiet-Moment : Moment limit counts quiet
quiet-Moment = record {
  counters = record {
    write = refl;
    read = refl;
    last_valid = refl;
    free = refl;
    freed = omega arith;
    valid = omega arith;
    readable = omega arith;
    room = omega arith;
    small = omega arith;
    shape = refl;
  };
  readers = quiet-Holding;
  fits = omega arith;
  disciplined = λ k c a e b. (c, e, Later-refl, b);
}

dist-add_example :
    (gen_dist_msb_masked (gen_add_msb_masked (2 ^ 63 - 1) 5) (2 ^ 63 - 1) ≡ 5)
    × (gen_add_msb_masked (2 ^ 63 - 1) (gen_dist_msb_masked 4 (2 ^ 63 - 1)) ≡ 4)
dist-add_example = dist-add 4 (2 ^ 63 - 1) 5 (omega arith) (omega arith) (omega arith)

circular_order_example :
    ((gen_gte_msb_masked 1 (2 ^ 63 - 1) && gen_lte_msb_masked 1 (2 ^ 63 - 1)) ≡ (1 == 2 ^ 63 - 1))
    × ((gen_gt_msb_masked 1 (2 ^ 63 - 1) && gen_lte_msb_masked 1 (2 ^ 63 - 1)) ≡ false)
    × ((not (gen_gte_msb_masked 1 (2 ^ 63 - 1)) && not (gen_gte_msb_masked (2 ^ 63 - 1) 1))
        ≡ (gen_dist_msb_masked 1 (2 ^ 63 - 1) == 2 ^ 62))
circular_order_example = circular_order 1 (2 ^ 63 - 1) (omega arith) (omega arith)

comparisons-generation_of_example :
    let x = 2 ^ 63 + 1 in
    let y = 2 ^ 63 - 2 in
    (gen_gte_msb_masked (generation_of x) (generation_of y) ≡ leb y x)
    × (gen_lte_msb_masked (generation_of x) (generation_of y) ≡ leb x y)
    × (gen_gt_msb_masked (generation_of x) (generation_of y) ≡ ltb y x)
    × (gen_lt_msb_masked (generation_of x) (generation_of y) ≡ ltb x y)
comparisons-generation_of_example =
    comparisons-generation_of (2 ^ 63 + 1) (2 ^ 63 - 2) (omega arith) (omega arith)

try_reserve_slots-Reserved_example :
    (c' : Counts) × Explains c' (try_reserve_slots exclusive 4 quiet).1.mem
    × Later counts wrapping c' (try_reserve_slots exclusive 4 quiet).1.mem
    × Reserved limit counts c' 8 4 (try_reserve_slots exclusive 4 quiet).0
try_reserve_slots-Reserved_example =
    try_reserve_slots-Reserved exclusive 4 quiet-Moment (λ k a. refl)

try_reserve_slots_best_effort-ReservedSome_example :
    (c' : Counts) × Explains c' (try_reserve_slots_best_effort shared 9 quiet).1.mem
    × Later counts wrapping c' (try_reserve_slots_best_effort shared 9 quiet).1.mem
    × ReservedSome limit counts c' 8 9 (try_reserve_slots_best_effort shared 9 quiet).0
try_reserve_slots_best_effort-ReservedSome_example =
    try_reserve_slots_best_effort-ReservedSome shared 9 quiet-Moment tt

publish_slots-Published_example :
    let (r, w') =
      publish_slots shared (generation_of (2 ^ 63)) (generation_of (2 ^ 63 + 1)) quiet in
    (c' : Counts) × Explains c' w'.mem
    × Later counts wrapping c' w'.mem
    × Published limit shared counts quiet c' (2 ^ 63) (2 ^ 63 + 1) r
publish_slots-Published_example =
    publish_slots-Published shared (2 ^ 63) (2 ^ 63 + 1) quiet-Moment tt (omega arith) (omega arith)
      (omega arith)

try_cleanup_old_slots-Cleaned_example :
    Ensures (Cleaned limit counts quiet) (try_cleanup_old_slots shared true 3 quiet)
try_cleanup_old_slots-Cleaned_example = try_cleanup_old_slots-Cleaned true 3 quiet quiet-Moment

slot_index-AllApart_example : AllApart wrapping ↔ (8 ∣ 2 ^ 63)
slot_index-AllApart_example = slot_index-AllApart wrapping (omega arith) (omega arith)

set_reader_gen-Advanced_example :
    Kept limit counts quiet
      (Advanced counts quiet 2 (2 ^ 63) (home quiet 2))
      (set_reader_gen 2 (generation_of (2 ^ 63)) quiet)
set_reader_gen-Advanced_example =
    set_reader_gen-Advanced 2 (2 ^ 63) quiet quiet-Moment (λ k a e. refl) (omega arith)
      (omega arith)

suspend_reader-Suspended_example :
    Kept limit counts quiet (Suspended quiet 2 (home quiet 2)) (suspend_reader 2 quiet)
suspend_reader-Suspended_example = suspend_reader-Suspended 2 quiet quiet-Moment (λ k a e. refl)

register_reader_with_seed-Registered_example :
    Ensures (Kept limit counts quiet (Registered quiet)) (register_reader_with_seed 2 5 quiet)
register_reader_with_seed-Registered_example =
    register_reader_with_seed-Registered 2 5 quiet quiet-Moment
      (record { divides = dvd_of_mod-eq-zero 4 refl; small = omega arith })

-- Four messages across the wrap.
abbrev four_slots : Reservation
four_slots = new_reservation (2 ^ 63 - 1) 3 true

split_at_mut-Splits_example : Splits four_slots (2 ^ 63 - 1) 4 1 (split_at_mut four_slots 1)
unfolding len gen_dist_msb_masked
split_at_mut-Splits_example =
    split_at_mut-Splits four_slots (2 ^ 63 - 1) 4 1
      (record { starts = refl; ends = refl; counted = refl }) (omega arith)

read_at_most-Views_example :
    Ensures
      (Kept limit counts quiet (λ c' w' s. Views (home quiet 2) 5 c' s))
      (read_at_most 2 5 quiet)
unfolding is_suspended index_for key_bits
read_at_most-Views_example = read_at_most-Views 2 5 quiet quiet-Moment (λ k a e. refl) refl refl
