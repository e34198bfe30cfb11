-- ===== src/Destruction/Defs.antt =====
-- What holds of the counters and the threads in every state of the destruction protocol.
use market_square.Base.{ℕ, ◌+◌, ◌^◌, ◌≤◌, ◌<◌, ◌≡◌, ◌⊎◌, false, sum}
use market_square.Destruction.{
  Counters, System, ReaderPc, reading, ticketed, scanning, yielding, attempting, waiting, decided,
  registered, WriterPc, writing, living,
}

-- Readers that hold one of `reader_keep_alloc_tickets`, and those that hold one of
-- `reader_stage_tickets`.
abbrev pub keeps : ReaderPc → ℕ
keeps ticketed = 1
keeps (scanning _) = 1
keeps yielding = 1
keeps attempting = 1
keeps _ = 0

abbrev pub stages : ReaderPc → ℕ
stages attempting = 1
stages waiting = 1
stages decided = 1
stages _ = 0

abbrev pub registers : ReaderPc → ℕ
registers reading = 1
registers ticketed = 1
registers _ = 0

abbrev pub decides : ReaderPc → ℕ
decides decided = 1
decides _ = 0

-- Readers that were elected to act for all, and those that may still be.
abbrev pub elected : ReaderPc → ℕ
elected ReaderPc.leaving = 1
elected ReaderPc.left = 1
elected ReaderPc.freed = 1
elected _ = 0

abbrev pub hopes : ReaderPc → ℕ
hopes (scanning _) = 1
hopes p = stages p + elected p

-- Elected readers that have decremented `destroy_stages`, and those that free the area.
abbrev pub reader_done : ReaderPc → ℕ
reader_done ReaderPc.left = 1
reader_done ReaderPc.freed = 1
reader_done _ = 0

abbrev pub reader_frees : ReaderPc → ℕ
reader_frees ReaderPc.freed = 1
reader_frees _ = 0

-- Readers that may access the area again.
abbrev pub reader_uses : ReaderPc → ℕ
reader_uses ReaderPc.absent = 0
reader_uses ReaderPc.gone = 0
reader_uses ReaderPc.left = 0
reader_uses ReaderPc.freed = 0
reader_uses _ = 1

-- The sums over the readers, and how they bound one another.
pub record Tallies (capacity : ℕ) (m : Counters) (pc : ℕ → ReaderPc) : Type 0 where
  pub keep : m.reader_keep_alloc_tickets ≡ sum keeps capacity pc
  pub stage : m.reader_stage_tickets ≡ sum stages capacity pc
  pub last :
      (sum stages capacity pc + sum elected capacity pc ≡ 0) ⊎ (sum registers capacity pc ≡ 0)
  pub passed : (sum decides capacity pc + sum elected capacity pc ≡ 0) ⊎ (sum keeps capacity pc ≡ 0)
  pub one : sum elected capacity pc ≤ 1
  pub alone : (sum elected capacity pc ≡ 0) ⊎ (sum stages capacity pc ≡ 0)
  pub someone : (0 < sum registers capacity pc) ⊎ (0 < sum hopes capacity pc)

pub record Readers (capacity : ℕ) (m : Counters) (pc : ℕ → ReaderPc) : Type 0 where
  pub few : capacity < 2 ^ 63
  pub tallies : Tallies capacity m pc
  pub keys : (i : ℕ) → i < capacity → m.occupied i ≡ registered (pc i)
  pub seen : (i p q : ℕ) → pc i ≡ scanning p → q < p → m.occupied q ≡ false
  pub within : (i p : ℕ) → pc i ≡ scanning p → p ≤ capacity

abbrev pub acts : WriterPc → ℕ
acts WriterPc.leaving = 1
acts WriterPc.left = 1
acts WriterPc.freed = 1
acts _ = 0

abbrev pub writer_done : WriterPc → ℕ
writer_done WriterPc.left = 1
writer_done WriterPc.freed = 1
writer_done _ = 0

abbrev pub writer_frees : WriterPc → ℕ
writer_frees WriterPc.freed = 1
writer_frees _ = 0

abbrev pub writer_uses : WriterPc → ℕ
writer_uses writing = 1
writer_uses WriterPc.leaving = 1
writer_uses _ = 0

pub record Writers (n : ℕ) (m : Counters) (pc : ℕ → WriterPc) : Type 0 where
  pub few : n < 2 ^ 63
  pub count : m.writers_count ≡ sum living n pc
  pub one : sum acts n pc ≤ 1
  pub either : (0 < sum living n pc) ⊎ (sum acts n pc ≡ 1)
  pub alone : (sum living n pc ≡ 0) ⊎ (sum acts n pc ≡ 0)

-- How many threads found themselves the last, and how many sides are done.
abbrev pub frees : ℕ → ℕ → System → ℕ
frees capacity n s = sum reader_frees capacity s.readers + sum writer_frees n s.writers

abbrev pub sides : ℕ → ℕ → System → ℕ
sides capacity n s = sum reader_done capacity s.readers + sum writer_done n s.writers

-- What holds in every reachable state.
pub record Inv (capacity n : ℕ) (s : System) : Type 0 where
  pub readers : Readers capacity s.counters s.readers
  pub writers : Writers n s.counters s.writers
  pub stages : s.counters.destroy_stages + sides capacity n s ≡ 2
  pub last :
      ((0 < s.counters.destroy_stages) × (frees capacity n s ≡ 0))
      ⊎ ((s.counters.destroy_stages ≡ 0) × (frees capacity n s ≡ 1))
