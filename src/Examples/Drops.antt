-- ===== src/Examples/Drops.antt =====
-- The destruction protocol with two readers and a writer, and what the creation of a reader during
-- a drop does to it.
use market_square.Base.{ℕ, zero, suc, ◌≤◌, ◌≡◌, ◌⊎◌, ◌↔◌, refl, inl, inr, true, false, sum, arith}
use market_square.Destruction.{
  System, ReaderPc, reading, ReaderMove, WriterPc, writing, WriterMove, registered, reader, writer,
  create_reader, IsInitial, Reach, here, later,
}
use market_square.Destruction.Defs.{frees}
use market_square.Destruction.Once.{IsQuiet, Reach-frees_once}
use market_square.Destruction.Progress.{Reach-finishes}

abbrev readers : ℕ → ReaderPc
readers (suc zero) = reading
readers (suc (suc zero)) = reading
readers _ = ReaderPc.absent

abbrev writers : ℕ → WriterPc
writers zero = writing
writers _ = WriterPc.absent

-- Slots 1 and 2 of three have readers, and there is one writer.
abbrev start : System
start = record {
  counters = record {
    writers_count = 1;
    destroy_stages = 2;
    reader_keep_alloc_tickets = 0;
    reader_stage_tickets = 0;
    occupied = λ i. registered (readers i);
  };
  readers = readers;
  writers = writers;
}

idle_readers : (i : ℕ) → (readers i ≡ ReaderPc.absent) ⊎ (readers i ≡ reading)
idle_readers zero = inl refl
idle_readers (suc zero) = inr refl
idle_readers (suc (suc zero)) = inr refl
idle_readers (suc (suc (suc i))) = inl refl

idle_writers : (i : ℕ) → (writers i ≡ WriterPc.absent) ⊎ (writers i ≡ writing)
idle_writers zero = inr refl
idle_writers (suc i) = inl refl

start-IsInitial : IsInitial 3 1 start
unfolding sum
start-IsInitial = record {
  few_readers = omega arith;
  few_writers = omega arith;
  reader = (1, omega arith, refl);
  readers = idle_readers;
  keys = λ i h. refl;
  writer = (0, omega arith, refl);
  writers = idle_writers;
  writers_count = refl;
  destroy_stages = refl;
  keep_alloc = refl;
  stage_tickets = refl;
}

-- Reader 1 is scanning, and has seen the first slot empty.
abbrev one_scans : (t : System) × Reach false 3 1 start t
one_scans = (
  _,
  later
      (later (later here (reader 1 (omega arith) ReaderMove.take_ticket))
        (reader 1 (omega arith) ReaderMove.unregister))
      (reader 1 (omega arith) (ReaderMove.see_empty (omega arith) refl)),
)

Reach-frees_once_example :
    (frees 3 1 one_scans.0 ≤ 1) × ((frees 3 1 one_scans.0 ≡ 1) ↔ IsQuiet 3 1 one_scans.0)
Reach-frees_once_example = Reach-frees_once start-IsInitial one_scans.1

Reach-finishes_example :
    (u : System) × Reach false 3 1 one_scans.0 u × IsQuiet 3 1 u × (frees 3 1 u ≡ 1)
Reach-finishes_example = Reach-finishes start-IsInitial one_scans.1

-- While reader 1 scans, past slot 0, reader 2 creates a reader there and is dropped.
abbrev overtaken : (t : System) × Reach true 3 1 start t
overtaken = (
  _,
  later
      (later
        (later
          (later
            (later
              (later
                (later (later here (reader 1 (omega arith) ReaderMove.take_ticket))
                  (reader 1 (omega arith) ReaderMove.unregister))
                (reader 1 (omega arith) (ReaderMove.see_empty (omega arith) refl)))
              (create_reader 2 0 refl (omega arith) (omega arith) refl refl))
            (reader 2 (omega arith) ReaderMove.take_ticket))
          (reader 2 (omega arith) ReaderMove.unregister))
        (reader 2 (omega arith) (ReaderMove.see_reader (omega arith) refl)))
      (reader 2 (omega arith) ReaderMove.yield),
)

-- Reader 1 finds nobody and is elected, and the writer is dropped: the area is freed under the new
-- reader.
freed_while_reading :
    (t : System) × Reach true 3 1 start t × (t.readers 0 ≡ reading) × (frees 3 1 t ≡ 1)
unfolding sum
freed_while_reading = (
  _,
  later
      (later
        (later
          (later
            (later
              (later
                (later
                  (later
                    (later overtaken.1
                      (reader 1 (omega arith) (ReaderMove.see_empty (omega arith) refl)))
                    (reader 1 (omega arith) (ReaderMove.see_empty (omega arith) refl)))
                  (reader 1 (omega arith) ReaderMove.attempt))
                (reader 1 (omega arith) ReaderMove.stand))
              (reader 1 (omega arith) (ReaderMove.pass refl)))
            (reader 1 (omega arith) (ReaderMove.win refl)))
          (reader 1 (omega arith) (ReaderMove.leave (omega arith))))
        (writer 0 (omega arith) (WriterMove.release_last refl)))
      (writer 0 (omega arith) (WriterMove.free refl)),
  refl,
  refl,
)
