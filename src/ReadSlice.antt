-- ===== src/ReadSlice.antt =====
-- src/area.rs: `ReadSlice`, a reader's view of a range of messages, and the calls that make one.
pub mod Window
pub mod Slices
pub mod Dropped
pub mod Checked
pub mod Stays
pub mod Listen
pub mod Rounds
use market_square.Base.{
  ℕ, ◌+◌, ◌-◌, ◌%◌, Bool, true, false, Option, none, some, List, [], not, ◌==◌, leb, min,
  if◌then◌else◌, take, drop,
}
use market_square.Arithmetics.{
  gen_dist_msb_masked, gen_gte_msb_masked, gen_add_msb_masked, gen_without_suspended_bit,
  wrapping_sub,
}
use market_square.State.{AreaInner, World, Result, ok, err, Outcome, returned, panicked, spinning}
use market_square.Area.{load_read_gen, load_writers_count, slot_cell}
use market_square.Area.Reader.{get_reader_gen, set_reader_gen}

-- The reader is given by its id.
pub record ReadSlice : Type 0 where
  pub reader_id : ℕ
  pub start_gen : ℕ
  pub end_gen : ℕ
  pub armed : Bool

pub data ReadError : Type 0 where
  read_error : ReadError

abbrev pub new_disarmed : ℕ → ℕ → ℕ → ReadSlice
new_disarmed reader_id start_gen end_gen = record {
  reader_id = reader_id;
  start_gen = start_gen;
  end_gen = end_gen;
  armed = false;
}

unfoldable pub len : ReadSlice → ℕ
len s = gen_dist_msb_masked s.end_gen s.start_gen

unfoldable pub is_empty : ReadSlice → Bool
is_empty s = gen_gte_msb_masked s.start_gen s.end_gen

abbrev pub disarm : ReadSlice → ReadSlice
disarm s = record s { armed = false }

abbrev pub arm : ReadSlice → ReadSlice
arm s = record s { armed = true }

-- The slice's parts, without running its `Drop`.
abbrev pub into_raw_parts : ReadSlice → ℕ × ℕ × ℕ × Bool
into_raw_parts s = (s.reader_id, s.start_gen, s.end_gen, s.armed)

-- `ReadSliceIter::size_hint` at position `current`.
unfoldable pub iter_size_hint : ReadSlice → ℕ → ℕ × Option ℕ
unfolding len
iter_size_hint s current =
    let remaining = wrapping_sub (len s) current in (remaining, some remaining)

module _ {T : Type 0} where
  -- The message that `get` refers to; the inner option is `none` for uninitialised memory.
  unfoldable pub get : ReadSlice → ℕ → AreaInner T → Option (Option T)
  unfolding len slot_cell
  get s index a =
      if leb (len s) index then none else some (slot_cell a (gen_add_msb_masked s.start_gen index))

  -- `ReadSliceIter::next`: the message and the new position.
  unfoldable pub iter_next : ReadSlice → ℕ → AreaInner T → Option (Option T × ℕ)
  unfolding get
  iter_next s current a = elim (get s current a) [
    | none ↦ none
    | some item ↦ some (item, current + 1)
  ]

  -- The cells `[from, from + n)` of the buffer, as `from_raw_parts` gives them.
  abbrev pub raw_parts : AreaInner T → ℕ → ℕ → List (Option T)
  raw_parts a from n = take n (drop from a.buffer)

  unfoldable pub as_slices : ReadSlice → AreaInner T → List (Option T) × List (Option T)
  unfolding is_empty
  as_slices s a =
      let cap = a.buffer_capacity in
      let start_idx = s.start_gen % cap in
      let n = gen_dist_msb_masked s.end_gen s.start_gen in
      let first_len = cap - start_idx in
      if is_empty s
      then ([], [])
      else if leb (start_idx + n) cap
      then (raw_parts a start_idx n, [])
      else (raw_parts a start_idx first_len, raw_parts a 0 (n - first_len))

  -- `AreaReader::get_gen`, whose `expect` panics for an id that is not registered.
  unfoldable pub get_gen : ℕ → World T → Outcome (ℕ × World T)
  unfolding get_reader_gen
  get_gen reader_id w =
      let (generation, w') = get_reader_gen reader_id w in
      elim generation [ none ↦ panicked | some g ↦ returned (g, w') ]

  unfoldable pub read : ℕ → World T → Outcome (ReadSlice × World T)
  unfolding get_gen
  read reader_id w = elim (get_gen reader_id w) [
    | returned (g, w1) ↦
        let (end_generation, w2) = load_read_gen w1 in
        returned (
          record {
            reader_id = reader_id;
            start_gen = gen_without_suspended_bit g;
            end_gen = end_generation;
            armed = true;
          },
          w2,
        )
    | panicked ↦ panicked
    | spinning ↦ spinning
  ]

  unfoldable pub read_at_most : ℕ → ℕ → World T → Outcome (ReadSlice × World T)
  unfolding get_gen
  read_at_most reader_id n w = elim (get_gen reader_id w) [
    | returned (g, w1) ↦
        let start_generation = gen_without_suspended_bit g in
        let (end_generation, w2) = load_read_gen w1 in
        let actual = min (gen_dist_msb_masked end_generation start_generation) n in
        returned (
          record {
            reader_id = reader_id;
            start_gen = start_generation;
            end_gen = gen_add_msb_masked start_generation actual;
            armed = true;
          },
          w2,
        )
    | panicked ↦ panicked
    | spinning ↦ spinning
  ]

  -- The second read of `read_with_check`, made when no writer is left.
  unfoldable pub last_read : ℕ → World T → Outcome (Result ReadError ReadSlice × World T)
  unfolding read len
  last_read reader_id w = elim (read reader_id w) [
    | returned (s, w') ↦ returned (if not (len s == 0) then ok s else err read_error, w')
    | panicked ↦ panicked
    | spinning ↦ spinning
  ]

  -- `into_raw_parts` consumes the first slice without running its `Drop`.
  unfoldable pub read_with_check : ℕ → World T → Outcome (Result ReadError ReadSlice × World T)
  unfolding last_read
  read_with_check reader_id w = elim (read reader_id w) [
    | returned (s, w1) ↦
        let (writers_count, w2) = load_writers_count w1 in
        if not (len s == 0)
        then returned (ok s, w1)
        else if writers_count == 0
        then last_read reader_id w2
        else returned (ok (new_disarmed reader_id s.start_gen s.start_gen), w2)
    | panicked ↦ panicked
    | spinning ↦ spinning
  ]

  -- The slice's `Drop`: advance the reader to the end, unless disarmed.
  unfoldable pub drop_slice : ReadSlice → World T → Outcome (World T)
  unfolding get_gen set_reader_gen
  drop_slice s w = if not s.armed then returned w else elim (get_gen s.reader_id w) [
    | returned (g, w1) ↦
        if not (gen_without_suspended_bit g == s.start_gen)
        then panicked
        else returned (set_reader_gen s.reader_id s.end_gen w1).1
    | panicked ↦ panicked
    | spinning ↦ spinning
  ]
