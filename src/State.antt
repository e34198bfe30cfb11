-- ===== src/State.antt =====
-- The shared memory of src/area.rs and src/map.rs: the slots of the reader map and `AreaInner`,
-- and the interference of other threads between two atomic accesses.
use market_square.Base.{ℕ, suc, Option, List}

-- `Slot<V>` at the one value type in use, the padded atomic generation of a reader.
pub record Slot : Type 0 where
  pub key : ℕ
  pub value : ℕ

-- `SimpleLPHashMap<V, S>`; `slots` is the slice of its storage.
pub record SimpleLpHashMap : Type 0 where
  pub mask : ℕ
  pub slots : List Slot

-- `AreaInner`. A cell of the buffer is `none` while its `MaybeUninit<T>` is not initialised. The
-- three counters of the destruction protocol are leaked allocations of their own.
pub record AreaInner (T : Type 0) : Type 0 where
  pub write_gen : ℕ
  pub read_gen : ℕ
  pub last_valid_gen : ℕ
  pub free_gen : ℕ
  pub writers_count : ℕ
  pub reader_gens : SimpleLpHashMap
  pub buffer_capacity : ℕ
  pub buffer : List (Option T)
  pub destroy_stages : ℕ
  pub reader_keep_alloc_tickets : ℕ
  pub reader_stage_tickets : ℕ

-- A thread's view: the memory, and what the other threads do to it just before each of the
-- thread's next accesses, the first of them at 0.
pub record World (T : Type 0) : Type 0 where
  pub mem : AreaInner T
  pub others : ℕ → AreaInner T → AreaInner T

module _ {T : Type 0} where
  -- The other threads move, then the access follows.
  abbrev pub tick : World T → World T
  tick w = record { mem = w.others 0 w.mem; others = λ k. w.others (suc k) }

  abbrev pub load_at : {A : Type 0} → (AreaInner T → A) → World T → A × World T
  load_at field w = let w' = tick w in (field w'.mem, w')

  abbrev pub store_at : (AreaInner T → AreaInner T) → World T → World T
  store_at update w = let w' = tick w in record w' { mem = update w'.mem }

  -- A world in which no other thread runs.
  abbrev pub alone : AreaInner T → World T
  alone a = record { mem = a; others = λ k a. a }

-- The result of `compare_exchange`; a failure carries the value found.
pub data Exchange : Type 0 where
  exchanged : Exchange
  changed : ℕ → Exchange

-- A call that returns, panics, or spins past the fuel given to its loops.
pub data Outcome (A : Type 0) : Type 0 where
  returned : A → Outcome A
  panicked : Outcome A
  spinning : Outcome A

-- `Result<A, E>`
pub data Result (E A : Type 0) : Type 0 where
  ok : A → Result E A
  err : E → Result E A

-- The type argument `E` of the writer operations: `()` coordinates by compare-exchange, `Exclusive`
-- stores directly.
pub data Mode : Type 0 where
  shared exclusive : Mode
