-- ===== src/Area/Writer.antt =====
-- src/area.rs: reserving slots and publishing them.
pub mod Grab
pub mod Reserve
pub mod BestEffort
pub mod Publish
use market_square.Base.{ℕ, ◌-◌, ltb, ◌==◌, not, if◌then◌else◌, min}
use market_square.Arithmetics.{gen_dist_msb_masked, gen_gte_msb_masked, gen_add_msb_masked}
use market_square.State.{
  AreaInner, World, store_at, exchanged, changed, Result, ok, err, Mode, shared, exclusive,
}
use market_square.Area.{load_write_gen, load_read_gen, load_free_gen, compare_exchange}

pub data ReserveError : Type 0 where
  no_space failed_grab : ReserveError

pub data PublishError : Type 0 where
  cas_failed out_of_order_publish_attempt : PublishError

-- Slots free for writing, from a loaded `free_gen` and a `write_gen` loaded after it.
unfoldable pub available : ℕ → ℕ → ℕ → ℕ
available buffer_capacity current_write current_free =
    buffer_capacity - min buffer_capacity (gen_dist_msb_masked current_write current_free)

module _ {T : Type 0} where
  abbrev pub set_write_gen : ℕ → AreaInner T → AreaInner T
  set_write_gen new a = record a { write_gen = new }

  abbrev pub set_read_gen : ℕ → AreaInner T → AreaInner T
  set_read_gen new a = record a { read_gen = new }

  -- The second half of both reservations: move `write_gen` on by `n`.
  unfoldable pub grab : Mode → ℕ → ℕ → World T → Result ReserveError (ℕ × ℕ) × World T
  grab shared current_write n w =
      let new_write_gen = gen_add_msb_masked current_write n in
      let (result, w') =
        compare_exchange (λ a. a.write_gen) (set_write_gen new_write_gen) current_write w in
      (
        elim result [ exchanged ↦ ok (current_write, new_write_gen) | changed _ ↦ err failed_grab ],
        w',
      )
  grab exclusive current_write n w =
      let new_write_gen = gen_add_msb_masked current_write n in
      (ok (current_write, new_write_gen), store_at (set_write_gen new_write_gen) w)

  unfoldable pub try_reserve_slots : Mode → ℕ → World T → Result ReserveError (ℕ × ℕ) × World T
  unfolding available grab
  try_reserve_slots mode n w =
      let (current_free, w1) = load_free_gen w in
      let (current_write, w2) = load_write_gen w1 in
      if ltb (available w2.mem.buffer_capacity current_write current_free) n
      then (err no_space, w2)
      else grab mode current_write n w2

  unfoldable pub try_reserve_slots_best_effort :
      Mode → ℕ → World T → Result ReserveError (ℕ × ℕ × ℕ) × World T
  unfolding available grab
  try_reserve_slots_best_effort mode n w =
      if n == 0
      then (ok (0, 0, 0), w)
      else let (current_free, w1) = load_free_gen w in
        let (current_write, w2) = load_write_gen w1 in
        let actual_n = min n (available w2.mem.buffer_capacity current_write current_free) in
        if actual_n == 0
        then (ok (0, 0, 0), w2)
        else let (result, w3) = grab mode current_write actual_n w2 in
          (elim result [ ok (s, e) ↦ ok (s, e, actual_n) | err x ↦ err x ], w3)

  unfoldable pub publish_slots : Mode → ℕ → ℕ → World T → Result PublishError (Unit {0}) × World T
  publish_slots shared start_generation end_generation w =
      if gen_gte_msb_masked start_generation end_generation
      then (ok tt, w)
      else let (result, w') =
          compare_exchange (λ a. a.read_gen) (set_read_gen end_generation) start_generation w in
        (elim result [ exchanged ↦ ok tt | changed _ ↦ err cas_failed ], w')
  publish_slots exclusive start_generation end_generation w =
      if gen_gte_msb_masked start_generation end_generation
      then (ok tt, w)
      else let (read_gen, w1) = load_read_gen w in
        if not (read_gen == start_generation)
        then (err out_of_order_publish_attempt, w1)
        else (ok tt, store_at (set_read_gen end_generation) w1)
