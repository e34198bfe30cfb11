-- ===== src/Area/Cleanup.antt =====
-- src/area.rs: `try_cleanup_old_slots`, in its phases: the scan of the reader map, the claim of a
-- range by moving `last_valid_gen`, the drops, and the release of the range by moving `free_gen`.
pub mod Scan
pub mod ScanAll
pub mod Claim
pub mod Release
pub mod Advance
pub mod Safety
pub mod Alone
pub mod AloneAll
pub mod Ends
pub mod Total
pub mod Drops
use market_square.Base.{ℕ, zero, suc, ◌+◌, Bool, true, false, none, not, ◌==◌, if◌then◌else◌}
use market_square.Arithmetics.{
  set_msb, gen_dist_msb_masked, gen_gte_msb_masked, gen_gt_msb_masked, gen_lte_msb_masked,
  gen_add_msb_masked, gen_without_suspended_bit, is_suspended,
}
use market_square.State.{
  AreaInner, World, store_at, exchanged, changed, Result, ok, err, Outcome, returned, panicked,
  spinning, Mode, shared, exclusive,
}
use market_square.Map.{capacity}
use market_square.Area.{
  load_last_valid_gen, load_read_gen, load_free_gen, load_value, compare_exchange,
  compare_exchange_value, write_slot,
}

pub data CleanupError : Type 0 where
  nothing_to_clean : CleanupError

pub record CleanupResult : Type 0 where
  pub old_last_valid : ℕ
  pub new_last_valid : ℕ
  pub slots_cleaned : ℕ

module _ {T : Type 0} where
  abbrev pub set_last_valid_gen : ℕ → AreaInner T → AreaInner T
  set_last_valid_gen new a = record a { last_valid_gen = new }

  abbrev pub set_free_gen : ℕ → AreaInner T → AreaInner T
  set_free_gen new a = record a { free_gen = new }

  -- The loop `'inner` on one slot, from a loaded generation: the new minimum.
  unfoldable pub scan_slot : ℕ → ℕ → ℕ → ℕ → World T → Outcome (ℕ × World T)
  scan_slot zero idx min_held_gen reader_gen w = spinning
  scan_slot (suc fuel) idx min_held_gen reader_gen w =
      let (result, w') = compare_exchange_value idx reader_gen (set_msb min_held_gen) w in
      elim (is_suspended reader_gen) [
        | false ↦
            returned
              (if gen_gte_msb_masked min_held_gen reader_gen then reader_gen else min_held_gen, w)
        | true ↦ elim (gen_gt_msb_masked min_held_gen (gen_without_suspended_bit reader_gen)) [
          | false ↦ returned (min_held_gen, w)
          | true ↦ elim result [
            | exchanged ↦ returned (min_held_gen, w')
            | changed actual ↦ scan_slot fuel idx min_held_gen actual w'
          ]
        ]
      ]

  -- The loop `'outer` over the slots from `idx` on, `n` of them.
  unfoldable pub scan_from : ℕ → ℕ → ℕ → ℕ → World T → Outcome (ℕ × World T)
  unfolding scan_slot
  scan_from fuel zero idx min_held_gen w = returned (min_held_gen, w)
  scan_from fuel (suc n) idx min_held_gen w =
      let (reader_gen, w1) = load_value idx w in
      elim (scan_slot fuel idx min_held_gen reader_gen w1) [
        | returned (min_held, w2) ↦ scan_from fuel n (suc idx) min_held w2
        | panicked ↦ panicked
        | spinning ↦ spinning
      ]

  -- The loop that moves `last_valid_gen`; it returns the generation it moved from.
  unfoldable pub claim_range :
      Mode → ℕ → ℕ → ℕ → World T → Outcome (Result CleanupError ℕ × World T)
  claim_range mode zero last_valid new_last_valid w = spinning
  claim_range shared (suc fuel) last_valid new_last_valid w =
      let (result, w') =
        compare_exchange (λ a. a.last_valid_gen) (set_last_valid_gen new_last_valid) last_valid w in
      elim (gen_lte_msb_masked new_last_valid last_valid) [
        | true ↦ returned (err nothing_to_clean, w)
        | false ↦ elim result [
          | exchanged ↦ returned (ok last_valid, w')
          | changed actual ↦ claim_range shared fuel actual new_last_valid w'
        ]
      ]
  claim_range exclusive (suc fuel) last_valid new_last_valid w =
      let (current, w1) = load_last_valid_gen w in
      if gen_lte_msb_masked new_last_valid last_valid
      then returned (err nothing_to_clean, w)
      else if not (current == last_valid)
      then panicked
      else returned (ok last_valid, store_at (set_last_valid_gen new_last_valid) w1)

  -- `drop_in_place` on `n` slots from generation `last_valid + offset` on.
  unfoldable pub drop_range : ℕ → ℕ → ℕ → World T → World T
  unfolding write_slot
  drop_range last_valid zero offset w = w
  drop_range last_valid (suc n) offset w =
      drop_range last_valid n (offset + 1)
        (write_slot (gen_add_msb_masked last_valid offset) none w)

  -- The loop that moves `free_gen`, waiting for the cleanups of earlier ranges.
  unfoldable pub release_range : Mode → ℕ → ℕ → ℕ → World T → Outcome (Unit {0} × World T)
  release_range mode zero last_valid new_last_valid w = spinning
  release_range shared (suc fuel) last_valid new_last_valid w =
      let (result, w') =
        compare_exchange (λ a. a.free_gen) (set_free_gen new_last_valid) last_valid w in
      elim result [
        | exchanged ↦ returned (tt, w')
        | changed _ ↦ release_range shared fuel last_valid new_last_valid w'
      ]
  release_range exclusive (suc fuel) last_valid new_last_valid w =
      let (current, w1) = load_free_gen w in
      if not (current == last_valid)
      then panicked
      else returned (tt, store_at (set_free_gen new_last_valid) w1)

  -- What follows a successful claim of `[last_valid, new_last_valid)`.
  unfoldable pub clean_range :
      Mode → Bool → ℕ → ℕ → ℕ → World T → Outcome (Result CleanupError CleanupResult × World T)
  unfolding drop_range release_range
  clean_range mode needs_drop fuel last_valid new_last_valid w =
      let slots_cleaned = gen_dist_msb_masked new_last_valid last_valid in
      let dropped = if needs_drop then drop_range last_valid slots_cleaned 0 w else w in
      elim (release_range mode fuel last_valid new_last_valid dropped) [
        | returned (_, w') ↦ returned (
          ok (record {
            old_last_valid = last_valid;
            new_last_valid = new_last_valid;
            slots_cleaned = slots_cleaned;
          }),
          w',
        )
        | panicked ↦ panicked
        | spinning ↦ spinning
      ]

  -- The claim and what follows it, from the minimum that the scan found.
  unfoldable pub advance_to :
      Mode → Bool → ℕ → ℕ → ℕ → World T → Outcome (Result CleanupError CleanupResult × World T)
  unfolding claim_range clean_range
  advance_to mode needs_drop fuel last_valid new_last_valid w =
      elim (claim_range mode fuel last_valid new_last_valid w) [
        | returned (claim, w') ↦ elim claim [
          | ok from ↦ clean_range mode needs_drop fuel from new_last_valid w'
          | err e ↦ returned (err e, w')
        ]
        | panicked ↦ panicked
        | spinning ↦ spinning
      ]

  -- `fuel` bounds the rounds of each retry loop; `needs_drop` is `needs_drop::<T>()`.
  unfoldable pub try_cleanup_old_slots :
      Mode → Bool → ℕ → World T → Outcome (Result CleanupError CleanupResult × World T)
  unfolding scan_from advance_to
  try_cleanup_old_slots mode needs_drop fuel w =
      let (last_valid, w1) = load_last_valid_gen w in
      let (read_gen, w2) = load_read_gen w1 in
      if gen_gte_msb_masked last_valid read_gen
      then returned (err nothing_to_clean, w2)
      else elim (scan_from fuel (capacity w2.mem.reader_gens) 0 read_gen w2) [
        | returned (min_held_gen, w3) ↦ advance_to mode needs_drop fuel last_valid min_held_gen w3
        | panicked ↦ panicked
        | spinning ↦ spinning
      ]
