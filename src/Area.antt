-- ===== src/Area.antt =====
-- src/area.rs, `AreaInner`: creation, the loads of its counters, and the cells of its buffer.
pub mod Writer
pub mod Reader
pub mod Cleanup
pub mod Invariant
pub mod Slots
pub mod Cells
use market_square.Base.{
  ℕ, zero, suc, ◌*◌, leb, ◌-◌, ◌%◌, ◌^◌, Bool, true, false, not, Option, none, some, List, ◌==◌,
  if◌then◌else◌, get_or, set, length, replicate,
}
use market_square.Arithmetics.{msb}
use market_square.State.{
  Slot, SimpleLpHashMap, AreaInner, World, load_at, store_at, Exchange, exchanged, changed, tick,
  Outcome, returned, panicked,
}
use market_square.Map.{is_power_of_two, with_capacity_and_init, slot_at}

abbrev pub suspended_bit : ℕ
suspended_bit = msb

-- The record that `AreaInner::new` and `AreaInner::init` write.
abbrev pub fresh : {T : Type 0} → SimpleLpHashMap → List (Option T) → AreaInner T
fresh reader_gens buffer = record {
  write_gen = 0;
  read_gen = 0;
  last_valid_gen = 0;
  free_gen = 0;
  writers_count = 0;
  reader_gens = reader_gens;
  buffer_capacity = length buffer;
  buffer = buffer;
  destroy_stages = 2;
  reader_keep_alloc_tickets = 0;
  reader_stage_tickets = 0;
}

-- The bytes of a cell of the buffer and of a slot of the reader map, which are the compiler's choice.
pub record ElementSizes : Type 0 where
  pub cell : ℕ
  pub slot : ℕ

-- Whether `Vec::with_capacity`, of the standard library, takes `n` elements of `size` bytes: it
-- panics beyond `isize::MAX` bytes.
unfoldable pub is_allocatable : ℕ → ℕ → Bool
is_allocatable size n = leb (size * n) (2 ^ 63 - 1)

module _ {T : Type 0} where
  -- The two vectors of `BoxedSliceStorage::with_capacity_and_init` may be too large.
  unfoldable pub new : ElementSizes → ℕ → ℕ → Outcome (AreaInner T)
  unfolding with_capacity_and_init is_power_of_two is_allocatable
  new sizes buffer_capacity reader_capacity =
      if buffer_capacity == 0
      then panicked
      else if not (is_power_of_two 64 reader_capacity)
      then panicked
      else if not (is_allocatable sizes.cell buffer_capacity)
      then panicked
      else if not (is_allocatable sizes.slot reader_capacity)
      then panicked
      else returned (
          fresh (with_capacity_and_init reader_capacity suspended_bit)
            (replicate buffer_capacity none))

  -- The counters arrive by value: `destroy_stages` from the caller's storage, and so on.
  unfoldable pub init : SimpleLpHashMap → List (Option T) → ℕ → ℕ → ℕ → AreaInner T
  init reader_gens buffer destroy_stages reader_keep_alloc_tickets reader_stage_tickets =
      record (fresh reader_gens buffer) {
        destroy_stages = destroy_stages;
        reader_keep_alloc_tickets = reader_keep_alloc_tickets;
        reader_stage_tickets = reader_stage_tickets;
      }

  abbrev pub load_write_gen : World T → ℕ × World T
  load_write_gen = load_at (λ a. a.write_gen)

  abbrev pub load_read_gen : World T → ℕ × World T
  load_read_gen = load_at (λ a. a.read_gen)

  abbrev pub load_last_valid_gen : World T → ℕ × World T
  load_last_valid_gen = load_at (λ a. a.last_valid_gen)

  abbrev pub load_free_gen : World T → ℕ × World T
  load_free_gen = load_at (λ a. a.free_gen)

  abbrev pub load_writers_count : World T → ℕ × World T
  load_writers_count = load_at (λ a. a.writers_count)

  -- The index behind `get_slot_ptr_mut` and `get_slot_ptr_const`.
  unfoldable pub slot_index : AreaInner T → ℕ → ℕ
  slot_index a generation = generation % a.buffer_capacity

  -- What a read through `get_slot_ptr_const` finds; `none` is uninitialised memory.
  unfoldable pub slot_cell : AreaInner T → ℕ → Option T
  unfolding slot_index
  slot_cell a generation = get_or a.buffer (slot_index a generation) none

  -- A write through `get_slot_ptr_mut`; dropping in place leaves `none`.
  unfoldable pub write_slot : ℕ → Option T → World T → World T
  unfolding slot_index
  write_slot generation v =
      store_at (λ a. record a { buffer = set a.buffer (slot_index a generation) v })

  -- `compare_exchange` on a counter given by its reader and its writer.
  abbrev pub compare_exchange :
      (AreaInner T → ℕ) → (AreaInner T → AreaInner T) → ℕ → World T → Exchange × World T
  compare_exchange field update expected w =
      let w' = tick w in
      if field w'.mem == expected
      then (exchanged, record w' { mem = update w'.mem })
      else (changed (field w'.mem), w')

  -- The atomic generation in slot `idx` of the reader map.
  abbrev pub with_value : AreaInner T → ℕ → ℕ → AreaInner T
  with_value a idx new = record a {
    reader_gens = record a.reader_gens {
      slots = set a.reader_gens.slots idx (record (slot_at a.reader_gens idx) { value = new });
    };
  }

  abbrev pub load_value : ℕ → World T → ℕ × World T
  load_value idx = load_at (λ a. (slot_at a.reader_gens idx).value)

  abbrev pub store_value : ℕ → ℕ → World T → World T
  store_value idx new = store_at (λ a. with_value a idx new)

  abbrev pub compare_exchange_value : ℕ → ℕ → ℕ → World T → Exchange × World T
  compare_exchange_value idx expected new =
      compare_exchange (λ a. (slot_at a.reader_gens idx).value) (λ a. with_value a idx new) expected
