-- ===== src/Lib.antt =====
-- market_square: a multi-producer multi-consumer broadcast ring whose writers reserve ranges of
-- slots, fill them in place and publish them in order, whose readers hold a generation each, and
-- whose cleanups free the slots that every reader has passed.
--
-- The parts, their files, and the code they model:
--
-- - Arithmetics.antt: src/arithmetics.rs and the suspended-bit helpers of src/area.rs. Generations
--   are 64-bit numbers, in use without their top bit: `& !MSB` is `% 2 ^ 63`, and `wrapping_add`
--   and `wrapping_sub` keep their `% 2 ^ 64`. Its children compare the circular order with itself
--   and with the unbounded counts of messages.
-- - State.antt: the records of `AreaInner` (src/area.rs), `SimpleLPHashMap` and `Slot`
--   (src/map.rs), and the memory model below.
-- - Map.antt: src/map.rs, the linear-probing map from reader ids to generations.
-- - Area.antt: creation of the area, loads, and the buffer's cells; Area/Writer.antt:
--   `try_reserve_slots`, `try_reserve_slots_best_effort`, `publish_slots`; Area/Reader.antt: what a
--   reader does to its slot, from `register_reader_with_seed` to `unregister_reader`, and
--   `has_readers`; Area/Cleanup.antt: `try_cleanup_old_slots`, each loop a function of its own.
-- - Area/Invariant.antt, Area/Slots.antt, Area/Cells.antt, Map/Home.antt and the files below
--   Area/Writer, Area/Reader, Area/Cleanup, Reservation and ReadSlice: what the proofs share, and
--   the theorems, each in a file named for what it is about.
-- - Reservation.antt, ReservationIter.antt (src/iter.rs), ReadSlice.antt, Handle.antt: the guards
--   and handles that the crate gives to its users, their `Drop`s included.
-- - Map/Probing.antt, Area/Cleanup/Alone.antt, AloneAll.antt, Ends.antt and Total.antt,
--   Area/Reader/Vacancy.antt, Handle/Sizes.antt and Open.antt, ReservationIter/Fill.antt and
--   Whole.antt: calls that no other thread disturbs, where more can be said: they return, and with
--   what.
-- - Map/Keys.antt, Area/Reader/Ids.antt and Registry.antt: the reader map as a set of ids.
--   ReadSlice/Listen.antt and Rounds.antt: the loop of a reader in examples/miri-test-2.rs, over
--   ReadSlice/Stays.antt, a cleanup beside an active reader. Reservation/Spin.antt and
--   ReservationIter/Spin.antt: `publish_spin` while other writers publish.
-- - Handle/Static.antt: `init_area` of examples/no-alloc-static.rs.
-- - Delivery.antt: a reservation, its iterator, its publication and a read as one run.
-- - Destruction.antt and the files below it: the `Drop`s of `AreaReader` and `AreaWriter` in
--   src/area.rs once more, as a relation of atomic steps of any number of handles, for the theorems
--   on all of them together. Handle.antt has the same code as functions of one thread.
-- - Storage.antt: src/storage.rs over a heap of allocations, with the allocations that
--   `AreaInner::new` makes and the last `Drop` frees. The other files read a slice of storage as a
--   list.
-- - Examples.antt and the files below it: concrete areas at which the theorems are applied, and in
--   Examples/Drops.antt a run in which the area is freed under a reader, in Examples/Ahead.antt one
--   in which a reader resumes ahead of what is published.
--
-- Threads. A `World` is one thread's view: the memory and, for each of its next atomic accesses,
-- what all other threads together do to the memory just before. An operation is a function of the
-- world, so that a theorem about every world is one about every interleaving with the operation.
-- What the other threads may do is a hypothesis: `IsDisciplined` says that they keep the invariant
-- `Explains` and move no count back.
-- Accesses are sequentially consistent; the memory orderings of the source are not modelled.
--
-- Destruction. The theorems on the drops leave out the registration of a reader while another
-- reader is dropped. With it, the area can be freed while a reader that was just created is alive:
-- the scan of `has_readers` may pass a slot before the new reader enters it.
--
-- Counts. `Counts` holds how many messages were ever reserved, published, claimed by a cleanup and
-- freed, as unbounded numbers, and `Explains` says that the masked counters of the area stand for
-- them, in order and within the buffer. `Fits` assumes that fewer than `2 ^ 61` messages pass
-- during one call, and `Counters` that the buffer has at most `2 ^ 60` cells, so that the circular
-- comparisons, which are right below `2 ^ 62`, agree with the counts.
--
-- Loops. The retry loops of the source run until other threads let them through; each takes fuel
-- here and answers `spinning` when it is used up, which no theorem counts as a result. The loops
-- over the reader map and over a range take their exact number of rounds.
--
-- Allocation. `AreaInner::new` allocates two vectors; the sizes of their elements, which the compiler
-- chooses, are the parameter `ElementSizes`, and `is_allocatable` is the limit of the standard
-- library beyond which `Vec::with_capacity` panics. Running out of memory aborts the program and is
-- not modelled.
--
-- The model is of the release profile with 64-bit generations: debug assertions, the spin limit of
-- debug builds and the `small-gen` feature are left out. Random seeds are arguments. Not modelled:
-- src/cache_padded.rs, a copy of a library that only aligns; the documentation of src/lib.rs and the
-- other example programs, which only start threads and print.
pub mod Base
pub mod Arithmetics
pub mod State
pub mod Map
pub mod Area
pub mod Reservation
pub mod ReservationIter
pub mod ReadSlice
pub mod Handle
pub mod Storage
pub mod Destruction
pub mod Delivery
pub mod Examples
