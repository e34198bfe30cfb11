-- ===== src/Handle.antt =====
-- src/area.rs: the handles. Creating writers and readers, `area` and `finish_init`, and the `Drop`s
-- by which the last writer and the last reader free the area. A reader handle is its id; what a
-- `Drop` returns says whether it freed the area.
pub mod Open
pub mod Sizes
pub mod Static
use market_square.Base.{
  ℕ, zero, suc, ◌+◌, ◌-◌, ◌%◌, ◌^◌, Bool, true, false, none, some, ◌==◌, if◌then◌else◌,
}
use market_square.Arithmetics.{gen_add_msb_masked, gen_without_suspended_bit}
use market_square.State.{
  AreaInner, World, tick, load_at, store_at, Result, ok, err, Outcome, returned, panicked, spinning,
  exclusive,
}
use market_square.Area
use market_square.Area.{ElementSizes, load_writers_count}
use market_square.Area.Reader.{
  RegisterError, SetGenError, register_reader_with_seed, unregister_reader, has_readers,
  get_reader_gen, set_reader_gen, SuspendError, ResumeError, suspend_reader, resume_reader,
  resume_reader_at,
}
use market_square.Area.Cleanup.{try_cleanup_old_slots}

abbrev pub plus_one : ℕ
plus_one = 1

abbrev pub minus_one : ℕ
minus_one = 2 ^ 64 - 1

module _ {T : Type 0} where
  -- `fetch_add(1)` and `fetch_sub(1)` on a counter: the old value, with wrap-around at `usize`.
  abbrev pub fetch : (AreaInner T → ℕ) → (ℕ → AreaInner T → AreaInner T) → ℕ → World T → ℕ × World T
  fetch field update delta w =
      let w' = tick w in
      let old = field w'.mem in (old, record w' { mem = update ((old + delta) % 2 ^ 64) w'.mem })

  abbrev pub fetch_writers_count : ℕ → World T → ℕ × World T
  fetch_writers_count = fetch (λ a. a.writers_count) (λ n a. record a { writers_count = n })

  abbrev pub fetch_destroy_stages : ℕ → World T → ℕ × World T
  fetch_destroy_stages = fetch (λ a. a.destroy_stages) (λ n a. record a { destroy_stages = n })

  abbrev pub fetch_keep_alloc : ℕ → World T → ℕ × World T
  fetch_keep_alloc =
      fetch (λ a. a.reader_keep_alloc_tickets) (λ n a. record a { reader_keep_alloc_tickets = n })

  abbrev pub fetch_stage_tickets : ℕ → World T → ℕ × World T
  fetch_stage_tickets =
      fetch (λ a. a.reader_stage_tickets) (λ n a. record a { reader_stage_tickets = n })

  -- `AreaWriter::create_writer`
  unfoldable pub create_writer : World T → World T
  create_writer w = (fetch_writers_count plus_one w).1

  -- `AreaReader::create_reader_with_seed`; `create_reader` calls it with a random seed.
  unfoldable pub create_reader_with_seed :
      ℕ → ℕ → World T → Outcome (Result RegisterError ℕ × World T)
  unfolding register_reader_with_seed
  create_reader_with_seed fuel seed w = register_reader_with_seed fuel seed w

  -- `AreaReader::create_reader`; `seed` is the random number.
  abbrev pub create_reader : ℕ → ℕ → World T → Outcome (Result RegisterError ℕ × World T)
  create_reader fuel seed w = register_reader_with_seed fuel seed w

  -- What the methods of a reader or a writer pass on to the area.
  abbrev pub suspend : ℕ → World T → Result SuspendError (Unit {0}) × World T
  suspend reader_id w = suspend_reader reader_id w

  abbrev pub resume : ℕ → ℕ → World T → Outcome (Result ResumeError Bool × World T)
  resume fuel reader_id w = resume_reader fuel reader_id w

  abbrev pub resume_at : ℕ → ℕ → ℕ → World T → Outcome (Result ResumeError Bool × World T)
  resume_at fuel reader_id entry_generation w = resume_reader_at fuel reader_id entry_generation w

  abbrev pub get_writers_count : World T → ℕ × World T
  get_writers_count w = load_writers_count w

  -- `AreaReader::advance`
  unfoldable pub advance : ℕ → ℕ → World T → Outcome (Result SetGenError (Unit {0}) × World T)
  unfolding get_reader_gen set_reader_gen
  advance reader_id n w =
      let (current, w1) = get_reader_gen reader_id w in
      elim current [
        | none ↦ panicked
        | some g ↦
            returned
              (set_reader_gen reader_id (gen_add_msb_masked (gen_without_suspended_bit g) n) w1)
      ]

  -- `finish_init`: the first writer is counted and the first reader registered; its id.
  unfoldable pub finish_init : ℕ → World T → Outcome (ℕ × World T)
  unfolding register_reader_with_seed
  finish_init fuel w =
      let w1 = store_at (λ a. record a { writers_count = 1 }) w in
      elim (register_reader_with_seed fuel 1 w1) [
        | returned (registered, w2) ↦ elim registered [
          | ok reader_id ↦ returned (reader_id, w2)
          | err _ ↦ panicked
        ]
        | panicked ↦ panicked
        | spinning ↦ spinning
      ]

  -- `area`; `others` is what other threads do once the memory is shared.
  unfoldable pub area :
      ElementSizes → ℕ → ℕ → (ℕ → AreaInner T → AreaInner T) → ℕ → Outcome (ℕ × World T)
  unfolding Area.new finish_init
  area sizes buffer_capacity reader_capacity others fuel =
      elim (Area.new sizes buffer_capacity reader_capacity) [
        | returned inner ↦ finish_init fuel (record { mem = inner; others = others })
        | panicked ↦ panicked
        | spinning ↦ spinning
      ]

  -- The side that brings `destroy_stages` to 0 drops what is left in the buffer and frees the area.
  unfoldable pub leave_stage : Bool → ℕ → World T → Outcome (Bool × World T)
  unfolding try_cleanup_old_slots
  leave_stage needs_drop fuel w =
      let (prev_stages, w1) = fetch_destroy_stages minus_one w in
      let cleaned = try_cleanup_old_slots exclusive needs_drop fuel w1 in
      if prev_stages == 1
      then elim cleaned [
        | returned (_, w2) ↦ returned (true, w2)
        | panicked ↦ panicked
        | spinning ↦ spinning
      ]
      else returned (false, w1)

  -- `Drop` of `AreaWriter`
  unfoldable pub drop_writer : Bool → ℕ → World T → Outcome (Bool × World T)
  unfolding leave_stage
  drop_writer needs_drop fuel w =
      let (prev_count, w1) = fetch_writers_count minus_one w in
      if prev_count == 1 then leave_stage needs_drop fuel w1 else returned (false, w1)

  -- The wait for `reader_keep_alloc_tickets` to reach 0.
  unfoldable pub wait_for_tickets : ℕ → World T → Outcome (World T)
  wait_for_tickets zero w = spinning
  wait_for_tickets (suc fuel) w =
      let (tickets, w') = load_at (λ a. a.reader_keep_alloc_tickets) w in
      elim (tickets == 0) [ true ↦ returned w' | false ↦ wait_for_tickets fuel w' ]

  -- The part of a reader's `Drop` from the ticket on, where no other reader was found.
  unfoldable pub compete : Bool → ℕ → World T → Outcome (Bool × World T)
  unfolding wait_for_tickets leave_stage
  compete needs_drop fuel w =
      let (_, w1) = fetch_stage_tickets plus_one w in
      let (_, w2) = fetch_keep_alloc minus_one w1 in
      elim (wait_for_tickets fuel w2) [
        | returned w3 ↦
            let (prev_stage, w4) = fetch_stage_tickets minus_one w3 in
            if prev_stage == 1 then leave_stage needs_drop fuel w4 else returned (false, w4)
        | panicked ↦ panicked
        | spinning ↦ spinning
      ]

  -- `Drop` of `AreaReader`
  unfoldable pub drop_reader : Bool → ℕ → ℕ → World T → Outcome (Bool × World T)
  unfolding unregister_reader has_readers compete
  drop_reader needs_drop fuel reader_id w =
      let (_, w1) = fetch_keep_alloc plus_one w in
      let (_, w2) = unregister_reader reader_id w1 in
      let (others_left, w3) = has_readers w2 in
      if others_left
      then returned (false, (fetch_keep_alloc minus_one w3).1)
      else compete needs_drop fuel w3
