-- ===== src/Destruction.antt =====
-- src/area.rs: the `Drop`s of `AreaReader` and `AreaWriter` run by any number of threads in any
-- interleaving, an atomic access at a time. Reader `i` is the one registered in slot `i` of the map.
pub mod Defs
pub mod Readers
pub mod Writers
pub mod Runs
pub mod Once
pub mod Progress
use market_square.Base.{
  ℕ, suc, ◌+◌, ◌-◌, ◌%◌, ◌^◌, ◌<◌, ◌≡◌, ◌≢◌, ◌⊎◌, Bool, true, false, change, sum,
}

-- The counters of the protocol in `AreaInner`, and which slots of the map have a key.
pub record Counters : Type 0 where
  pub writers_count : ℕ
  pub destroy_stages : ℕ
  pub reader_keep_alloc_tickets : ℕ
  pub reader_stage_tickets : ℕ
  pub occupied : ℕ → Bool

-- Where a reader stands in its `Drop`.
pub data ReaderPc : Type 0 where
  absent : ReaderPc  -- no reader in this slot
  reading : ReaderPc  -- not dropped yet
  ticketed : ReaderPc  -- after step 1
  scanning : (seen : ℕ) → ReaderPc  -- after step 2, in `has_readers`, with `seen` empty slots seen
  yielding : ReaderPc  -- another reader was found
  attempting : ReaderPc  -- after step 6
  waiting : ReaderPc  -- in the loop of step 9
  decided : ReaderPc  -- after that loop
  leaving : ReaderPc  -- elected, before the decrement of `destroy_stages`
  gone : ReaderPc  -- returned without having been elected
  left : ReaderPc  -- elected; the writers are not done
  freed : ReaderPc  -- elected and last: it frees the area

pub data WriterPc : Type 0 where
  absent writing leaving gone left freed : WriterPc

-- `fetch_sub(1)` at `usize`
abbrev pub minus_one : ℕ → ℕ
minus_one x = (x + 2 ^ 64 - 1) % 2 ^ 64

abbrev pub plus_one : ℕ → ℕ
plus_one x = (x + 1) % 2 ^ 64

-- One access of reader `i` among `capacity` slots. The accesses of `unregister_reader` other than
-- the one that clears the key touch neither a counter nor a key.
pub data ReaderMove (capacity i : ℕ) (m : Counters) : ReaderPc → Counters → ReaderPc → Type 0 where
  take_ticket :
      ReaderMove capacity i m reading
        (record m { reader_keep_alloc_tickets = plus_one m.reader_keep_alloc_tickets })
        ticketed
  unregister :
      ReaderMove capacity i m ticketed
        (record m { occupied = change m.occupied i false })
        (scanning 0)
  see_reader :
      {p : ℕ} → p < capacity → m.occupied p ≡ true → ReaderMove capacity i m (scanning p) m yielding
  see_empty :
      {p : ℕ}
      → p < capacity
      → m.occupied p ≡ false
      → ReaderMove capacity i m (scanning p) m (scanning (suc p))
  attempt :
      ReaderMove capacity i m
        (scanning capacity)
        (record m { reader_stage_tickets = plus_one m.reader_stage_tickets })
        attempting
  yield :
      ReaderMove capacity i m yielding
        (record m { reader_keep_alloc_tickets = minus_one m.reader_keep_alloc_tickets })
        gone
  stand :
      ReaderMove capacity i m attempting
        (record m { reader_keep_alloc_tickets = minus_one m.reader_keep_alloc_tickets })
        waiting
  wait : m.reader_keep_alloc_tickets ≢ 0 → ReaderMove capacity i m waiting m waiting
  pass : m.reader_keep_alloc_tickets ≡ 0 → ReaderMove capacity i m waiting m decided
  lose :
      m.reader_stage_tickets ≢ 1
      → ReaderMove capacity i m decided
          (record m { reader_stage_tickets = minus_one m.reader_stage_tickets })
          gone
  win :
      m.reader_stage_tickets ≡ 1
      → ReaderMove capacity i m decided
          (record m { reader_stage_tickets = minus_one m.reader_stage_tickets })
          leaving
  leave :
      m.destroy_stages ≢ 1
      → ReaderMove capacity i m leaving
          (record m { destroy_stages = minus_one m.destroy_stages })
          left
  free :
      m.destroy_stages ≡ 1
      → ReaderMove capacity i m leaving
          (record m { destroy_stages = minus_one m.destroy_stages })
          freed

-- One access of a writer.
pub data WriterMove (m : Counters) : WriterPc → Counters → WriterPc → Type 0 where
  release :
      m.writers_count ≢ 1
      → WriterMove m writing (record m { writers_count = minus_one m.writers_count }) gone
  release_last :
      m.writers_count ≡ 1
      → WriterMove m writing (record m { writers_count = minus_one m.writers_count }) leaving
  leave :
      m.destroy_stages ≢ 1
      → WriterMove m leaving (record m { destroy_stages = minus_one m.destroy_stages }) left
  free :
      m.destroy_stages ≡ 1
      → WriterMove m leaving (record m { destroy_stages = minus_one m.destroy_stages }) freed

pub record System : Type 0 where
  pub counters : Counters
  pub readers : ℕ → ReaderPc
  pub writers : ℕ → WriterPc

-- A step of one of `capacity` readers or `n` writers, or `create_writer` by a living writer. With
-- `cloning`, also the registration that `create_reader` makes by a living reader.
pub data Step (cloning : Bool) (capacity n : ℕ) (s : System) : System → Type 0 where
  reader :
      (i : ℕ) {m : Counters} {p : ReaderPc}
      → i < capacity
      → ReaderMove capacity i s.counters (s.readers i) m p
      → Step cloning capacity n s (record s { counters = m; readers = change s.readers i p })
  writer :
      (i : ℕ) {m : Counters} {p : WriterPc}
      → i < n
      → WriterMove s.counters (s.writers i) m p
      → Step cloning capacity n s (record s { counters = m; writers = change s.writers i p })
  create_writer :
      (i j : ℕ)
      → i < n
      → j < n
      → s.writers i ≡ writing
      → s.writers j ≡ WriterPc.absent
      → Step cloning capacity n s (record s {
        counters = record s.counters { writers_count = plus_one s.counters.writers_count };
        writers = change s.writers j writing;
      })
  create_reader :
      (i j : ℕ)
      → cloning ≡ true
      → i < capacity
      → j < capacity
      → s.readers i ≡ reading
      → s.readers j ≡ ReaderPc.absent
      → Step cloning capacity n s (record s {
        counters = record s.counters { occupied = change s.counters.occupied j true };
        readers = change s.readers j reading;
      })

abbrev pub registered : ReaderPc → Bool
registered reading = true
registered ticketed = true
registered _ = false

-- Writers that are counted in `writers_count`.
abbrev pub living : WriterPc → ℕ
living writing = 1
living _ = 0

-- Every handle is alive, and there is one of either kind at least.
pub record IsInitial (capacity n : ℕ) (s : System) : Type 0 where
  pub few_readers : capacity < 2 ^ 63
  pub few_writers : n < 2 ^ 63
  pub reader : (i : ℕ) × (i < capacity) × (s.readers i ≡ reading)
  pub readers : (i : ℕ) → (s.readers i ≡ ReaderPc.absent) ⊎ (s.readers i ≡ reading)
  pub keys : (i : ℕ) → i < capacity → s.counters.occupied i ≡ registered (s.readers i)
  pub writer : (i : ℕ) × (i < n) × (s.writers i ≡ writing)
  pub writers : (i : ℕ) → (s.writers i ≡ WriterPc.absent) ⊎ (s.writers i ≡ writing)
  pub writers_count : s.counters.writers_count ≡ sum living n s.writers
  pub destroy_stages : s.counters.destroy_stages ≡ 2
  pub keep_alloc : s.counters.reader_keep_alloc_tickets ≡ 0
  pub stage_tickets : s.counters.reader_stage_tickets ≡ 0

pub data Reach (cloning : Bool) (capacity n : ℕ) (s : System) : System → Type 0 where
  here : Reach cloning capacity n s s
  later :
      {t u : System}
      → Reach cloning capacity n s t
      → Step cloning capacity n t u
      → Reach cloning capacity n s u
