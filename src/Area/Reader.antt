-- ===== src/Area/Reader.antt =====
-- src/area.rs: registering readers, and the readers' own generations.
pub mod Moves
pub mod Enter
pub mod Own
pub mod Leave
pub mod Claim
pub mod Register
pub mod Vacancy
pub mod Ids
pub mod Registry
use market_square.Base.{ℕ, zero, suc, Bool, true, false, Option, none, some, ◌==◌, if◌then◌else◌}
use market_square.Arithmetics.{
  clear_msb, set_msb, gen_lte_msb_masked, gen_lt_msb_masked, gen_without_suspended_bit,
  is_suspended,
}
use market_square.State.{World, exchanged, changed, Result, ok, err, Outcome, returned, spinning}
use market_square.Map.{
  zero_offset, immediate, capacity, empty_key, key_bits, get_or_insert_concurrent, finish_init_at,
  remove_concurrent, load_key,
}
use market_square.Area.{load_value, store_value, compare_exchange_value}

pub data RegisterError : Type 0 where
  reader_capacity_reached : RegisterError

pub data SetGenError : Type 0 where
  reader_not_found reader_suspended invalid_generation : SetGenError

pub data SuspendError : Type 0 where
  reader_not_found already_suspended : SuspendError

pub data ResumeError : Type 0 where
  reader_not_found generation_too_old : ResumeError

pub data UnregisterError : Type 0 where
  reader_not_found : UnregisterError

-- The seed with which a registration probes: masked, and never 0.
unfoldable pub usable_seed : ℕ → ℕ
usable_seed seed = if clear_msb seed == 0 then 1 else clear_msb seed

module _ {T : Type 0} where
  -- The retry loop that takes a fresh slot from suspended to active, with the rounds left.
  unfoldable pub enter : ℕ → ℕ → ℕ → World T → Outcome (Result RegisterError ℕ × World T)
  enter zero idx reader_id w = spinning
  enter (suc fuel) idx reader_id w =
      let (current, w1) = load_value idx w in
      let (result, w2) =
        compare_exchange_value idx current (gen_without_suspended_bit current) w1 in
      elim result [
        | exchanged ↦ returned (ok reader_id, w2)
        | changed _ ↦ enter fuel idx reader_id w2
      ]

  unfoldable pub register_reader_with_seed :
      ℕ → ℕ → World T → Outcome (Result RegisterError ℕ × World T)
  unfolding usable_seed
  register_reader_with_seed fuel seed w =
      let (p, w1) =
        get_or_insert_concurrent (usable_seed seed) zero_offset (capacity w.mem.reader_gens) true
          true w in
      elim p.ptr [
        | none ↦ returned (err reader_capacity_reached, w1)
        | some idx ↦ enter fuel idx (key_bits p.k) (finish_init_at p.index w1)
      ]

  unfoldable pub get_reader_ptr_boilerplate : ℕ → World T → Option ℕ × World T
  unfolding get_or_insert_concurrent
  get_reader_ptr_boilerplate reader_id w =
      let (p, w') = get_or_insert_concurrent reader_id zero_offset immediate false false w in
      (p.ptr, w')

  unfoldable pub get_reader_gen : ℕ → World T → Option ℕ × World T
  unfolding get_reader_ptr_boilerplate
  get_reader_gen reader_id w =
      let (ptr, w1) = get_reader_ptr_boilerplate reader_id w in
      elim ptr [
        | none ↦ (none, w1)
        | some idx ↦ let (generation, w2) = load_value idx w1 in (some generation, w2)
      ]

  unfoldable pub set_reader_gen : ℕ → ℕ → World T → Result SetGenError (Unit {0}) × World T
  unfolding get_reader_ptr_boilerplate
  set_reader_gen reader_id new_generation w =
      let (ptr, w1) = get_reader_ptr_boilerplate reader_id w in
      elim ptr [
        | none ↦ (err SetGenError.reader_not_found, w1)
        | some idx ↦
            let (current, w2) = load_value idx w1 in
            if is_suspended current
            then (err reader_suspended, w2)
            else if gen_lte_msb_masked new_generation current
            then (err invalid_generation, w2)
            else (ok tt, store_value idx new_generation w2)
      ]

  unfoldable pub suspend_reader : ℕ → World T → Result SuspendError (Unit {0}) × World T
  unfolding get_reader_ptr_boilerplate
  suspend_reader reader_id w =
      let (ptr, w1) = get_reader_ptr_boilerplate reader_id w in
      elim ptr [
        | none ↦ (err SuspendError.reader_not_found, w1)
        | some idx ↦
            let (current, w2) = load_value idx w1 in
            if is_suspended current
            then (err already_suspended, w2)
            else (ok tt, store_value idx (set_msb current) w2)
      ]

  -- The retry loops of `resume_reader` and `resume_reader_at`, with the rounds left.
  unfoldable pub resume_from : ℕ → ℕ → World T → Outcome (Result ResumeError Bool × World T)
  resume_from zero idx w = spinning
  resume_from (suc fuel) idx w =
      let (current, w1) = load_value idx w in
      let (result, w2) = compare_exchange_value idx current (clear_msb current) w1 in
      elim (is_suspended current) [
        | false ↦ returned (ok false, w1)
        | true ↦ elim result [
          | exchanged ↦ returned (ok true, w2)
          | changed _ ↦ resume_from fuel idx w2
        ]
      ]

  unfoldable pub resume_reader : ℕ → ℕ → World T → Outcome (Result ResumeError Bool × World T)
  unfolding get_reader_ptr_boilerplate resume_from
  resume_reader fuel reader_id w =
      let (ptr, w1) = get_reader_ptr_boilerplate reader_id w in
      elim ptr [
        | none ↦ returned (err ResumeError.reader_not_found, w1)
        | some idx ↦ resume_from fuel idx w1
      ]

  unfoldable pub resume_at_from : ℕ → ℕ → ℕ → World T → Outcome (Result ResumeError Bool × World T)
  resume_at_from zero idx entry_generation w = spinning
  resume_at_from (suc fuel) idx entry_generation w =
      let (current, w1) = load_value idx w in
      let (result, w2) = compare_exchange_value idx current (clear_msb entry_generation) w1 in
      elim (is_suspended current) [
        | false ↦ returned (ok false, w1)
        | true ↦ elim (gen_lt_msb_masked entry_generation (gen_without_suspended_bit current)) [
          | true ↦ returned (err generation_too_old, w1)
          | false ↦ elim result [
            | exchanged ↦ returned (ok true, w2)
            | changed _ ↦ resume_at_from fuel idx entry_generation w2
          ]
        ]
      ]

  unfoldable pub resume_reader_at :
      ℕ → ℕ → ℕ → World T → Outcome (Result ResumeError Bool × World T)
  unfolding get_reader_ptr_boilerplate resume_at_from
  resume_reader_at fuel reader_id entry_generation w =
      let (ptr, w1) = get_reader_ptr_boilerplate reader_id w in
      elim ptr [
        | none ↦ returned (err ResumeError.reader_not_found, w1)
        | some idx ↦ resume_at_from fuel idx entry_generation w1
      ]

  unfoldable pub unregister_reader : ℕ → World T → Result UnregisterError (Unit {0}) × World T
  unfolding suspend_reader remove_concurrent
  unregister_reader reader_id w =
      let (suspended, w1) = suspend_reader reader_id w in
      let removed = (remove_concurrent reader_id zero_offset immediate w1).1 in
      elim suspended [
        | ok _ ↦ (ok tt, removed)
        | err e ↦ elim e [
          | reader_not_found ↦ (err UnregisterError.reader_not_found, w1)
          | already_suspended ↦ (ok tt, removed)
        ]
      ]

  -- The scan of `has_readers` over the slots from `idx` on.
  unfoldable pub has_readers_from : ℕ → ℕ → World T → Bool × World T
  unfolding load_key
  has_readers_from zero idx w = (false, w)
  has_readers_from (suc n) idx w =
      let (k, w') = load_key idx w in
      elim (k == empty_key) [ true ↦ has_readers_from n (suc idx) w' | false ↦ (true, w') ]

  unfoldable pub has_readers : World T → Bool × World T
  unfolding has_readers_from
  has_readers w = has_readers_from (capacity w.mem.reader_gens) 0 w
