-- ===== src/Map.antt =====
-- src/map.rs: the linear-probing map from reader ids to reader generations. `& self.mask` is
-- `% (mask + 1)`, since the capacity is a power of two.
pub mod Home
pub mod Probing
pub mod Keys
use market_square.Base.{
  ℕ, zero, suc, ◌+◌, ◌-◌, ◌%◌, ◌^◌, Bool, true, false, not, ◌&&◌, ◌||◌, Option, none, some, ◌==◌,
  if◌then◌else◌, get_or, set, replicate, List, length, ltb,
}
use market_square.Arithmetics.{msb, wrapping_add, clear_msb, set_msb, has_msb}
use market_square.State.{
  Slot, SimpleLpHashMap, AreaInner, World, tick, load_at, store_at, Exchange, exchanged, changed,
  Outcome, returned, panicked,
}

abbrev pub empty_key : ℕ
empty_key = 0

abbrev pub in_progress : ℕ
in_progress = msb

-- `ZERO_OFFSET`, `IMMEDIATE` and `MAX`
abbrev pub zero_offset : ℕ
zero_offset = 0

abbrev pub immediate : ℕ
immediate = 1

abbrev pub max_probes : ℕ
max_probes = 2 ^ 64 - 1

unfoldable pub key_bits : ℕ → ℕ
key_bits k = clear_msb k

unfoldable pub is_in_progress : ℕ → Bool
is_in_progress k = has_msb k && not (k == empty_key)

-- `Slot::new`, whose value is not initialised in the source.
abbrev pub new_slot : ℕ → Slot
new_slot init_value = record { key = empty_key; value = init_value }

-- `SimpleLPHashMap::with_capacity_and_init` with a constant initialiser. Its capacity is checked
-- by the caller.
unfoldable pub with_capacity_and_init : ℕ → ℕ → SimpleLpHashMap
with_capacity_and_init capacity init_value = record {
  mask = capacity - 1;
  slots = replicate capacity (new_slot init_value);
}

-- `usize::is_power_of_two`, for the exponents from `k - 1` down.
unfoldable pub is_power_of_two : ℕ → ℕ → Bool
is_power_of_two zero n = false
is_power_of_two (suc k) n = (2 ^ k == n) || is_power_of_two k n

-- `SimpleLPHashMap::from_storage`, on the slots of the storage.
unfoldable pub from_storage : List Slot → Outcome SimpleLpHashMap
from_storage slots =
    let capacity = length slots in
    if not (is_power_of_two 64 capacity && ltb 0 capacity)
    then panicked
    else returned (record { mask = capacity - 1; slots = slots })

-- `SimpleLPHashMap::with_capacity`; `uninit` is what the values' memory happens to hold.
unfoldable pub with_capacity : ℕ → ℕ → Outcome SimpleLpHashMap
with_capacity capacity uninit =
    if not (is_power_of_two 64 capacity && ltb 0 capacity)
    then panicked
    else returned (record { mask = capacity - 1; slots = replicate capacity (new_slot uninit) })

abbrev pub capacity : SimpleLpHashMap → ℕ
capacity m = m.mask + 1

-- `self.slots()[index]`: every index in use is below the capacity.
abbrev pub slot_at : SimpleLpHashMap → ℕ → Slot
slot_at m index = get_or m.slots index (new_slot 0)

unfoldable pub index_for : SimpleLpHashMap → ℕ → ℕ → ℕ
index_for m key placement_offset = wrapping_add key placement_offset % capacity m

-- What `get_or_insert_concurrent` returns. A value pointer is the index of its slot, or `none`
-- for the null pointer.
pub record Probe : Type 0 where
  pub ptr : Option ℕ
  pub is_new : Bool
  pub placement_offset_delta : ℕ
  pub k : ℕ
  pub index : ℕ

abbrev not_found : Probe
not_found = record {
  ptr = none;
  is_new = false;
  placement_offset_delta = max_probes;
  k = empty_key;
  index = max_probes;
}

abbrev found : ℕ → ℕ → ℕ → Probe
found idx i k = record {
  ptr = some idx;
  is_new = false;
  placement_offset_delta = i;
  k = k;
  index = idx;
}

abbrev claimed : ℕ → ℕ → ℕ → Probe
claimed idx i k = record {
  ptr = some idx;
  is_new = true;
  placement_offset_delta = i;
  k = k;
  index = idx;
}

-- The key that an insertion stores, by folding in the probe distance or as given.
unfoldable pub new_key_for : SimpleLpHashMap → Bool → ℕ → ℕ → ℕ → ℕ
new_key_for m fold key placement_offset i =
    let logical_key = wrapping_add (wrapping_add key placement_offset) i in
    if not fold
    then set_msb key
    else set_msb (
        if (logical_key == 0) || (logical_key == in_progress)
        then wrapping_add logical_key (capacity m)
        else logical_key)

module _ {T : Type 0} where
  abbrev pub with_key : AreaInner T → ℕ → ℕ → AreaInner T
  with_key a idx new = record a {
    reader_gens = record a.reader_gens {
      slots = set a.reader_gens.slots idx (record (slot_at a.reader_gens idx) { key = new });
    };
  }

  unfoldable pub load_key : ℕ → World T → ℕ × World T
  load_key idx = load_at (λ a. (slot_at a.reader_gens idx).key)

  unfoldable pub compare_exchange_key : ℕ → ℕ → ℕ → World T → Exchange × World T
  compare_exchange_key idx expected new w =
      let w' = tick w in
      let actual = (slot_at w'.mem.reader_gens idx).key in
      if actual == expected
      then (exchanged, record w' { mem = with_key w'.mem idx new })
      else (changed actual, w')

  -- The branch of the loop that tries to claim an empty slot; `none` falls through.
  unfoldable pub try_claim : Bool → ℕ → ℕ → ℕ → ℕ → World T → Option Probe × World T
  unfolding compare_exchange_key
  try_claim fold key placement_offset i idx w =
      let new_key = new_key_for w.mem.reader_gens fold key placement_offset i in
      let (result, w') = compare_exchange_key idx empty_key new_key w in
      elim result [
        | exchanged ↦ (some (claimed idx i new_key), w')
        | changed actual ↦ (
          if not fold && (not (actual == empty_key) && (key_bits actual == key))
              then some (found idx i actual)
              else none,
          w',
        )
      ]

  -- One round of the loop of `get_or_insert_concurrent`; `none` moves on to the next slot.
  unfoldable pub probe_slot : ℕ → ℕ → Bool → Bool → ℕ → ℕ → World T → Option Probe × World T
  unfolding load_key try_claim
  probe_slot key placement_offset insert fold i idx w =
      let (k, w1) = load_key idx w in
      let (claim, w2) =
        if insert && (k == empty_key)
        then try_claim fold key placement_offset i idx w1
        else (none, w1) in
      elim claim [
        | some p ↦ (some p, w2)
        | none ↦ (if not fold && (key_bits k == key) then some (found idx i k) else none, w2)
      ]

  -- The loop, with the rounds left.
  unfoldable pub probe_from : ℕ → ℕ → Bool → Bool → ℕ → ℕ → ℕ → World T → Probe × World T
  probe_from key placement_offset insert fold zero i idx w = (not_found, w)
  probe_from key placement_offset insert fold (suc n) i idx w =
      let (result, w') = probe_slot key placement_offset insert fold i idx w in
      elim result [
        | some p ↦ (p, w')
        | none ↦
            probe_from key placement_offset insert fold n (i + 1)
              ((idx + 1) % capacity w.mem.reader_gens) w'
      ]

  unfoldable pub get_or_insert_concurrent : ℕ → ℕ → ℕ → Bool → Bool → World T → Probe × World T
  unfolding probe_from index_for
  get_or_insert_concurrent key placement_offset n insert fold w =
      probe_from key placement_offset insert fold
        (if n == max_probes then capacity w.mem.reader_gens else n) 0
        (index_for w.mem.reader_gens key placement_offset) w

  -- `fetch_and(!IN_PROGRESS)`
  unfoldable pub fetch_clear_in_progress : ℕ → World T → World T
  fetch_clear_in_progress idx =
      store_at (λ a. with_key a idx (clear_msb (slot_at a.reader_gens idx).key))

  unfoldable pub finish_init_at : ℕ → World T → World T
  unfolding load_key is_in_progress fetch_clear_in_progress
  finish_init_at index w =
      let (k, w1) = load_key index w in
      if is_in_progress k then fetch_clear_in_progress index w1 else w1

  -- The loop of `remove_concurrent`.
  unfoldable pub remove_from : ℕ → ℕ → ℕ → World T → Bool × World T
  unfolding load_key compare_exchange_key
  remove_from key zero idx w = (false, w)
  remove_from key (suc n) idx w =
      let (k, w1) = load_key idx w in
      let next = λ (v : World T). remove_from key n ((idx + 1) % capacity w.mem.reader_gens) v in
      elim (key_bits k == key) [
        | true ↦
            let (result, w2) = compare_exchange_key idx k empty_key w1 in
            (elim result [ exchanged ↦ true | changed _ ↦ false ], w2)
        | false ↦ next w1
      ]

  unfoldable pub remove_concurrent : ℕ → ℕ → ℕ → World T → Bool × World T
  unfolding remove_from index_for
  remove_concurrent key placement_offset n w =
      remove_from key (if n == max_probes then capacity w.mem.reader_gens else n)
        (index_for w.mem.reader_gens key placement_offset) w

  -- `scan_slots`, with the state that the visitor captures.
  scan_from : {S : Type 0} → (ℕ → ℕ → ℕ → S → S) → ℕ → ℕ → S → World T → S × World T
  unfolding load_key
  scan_from visitor zero index s w = (s, w)
  scan_from visitor (suc n) index s w =
      let (k, w') = load_key index w in
      scan_from visitor n (index + 1) (if not (k == empty_key) then visitor index k index s else s)
        w'

  pub scan_slots : {S : Type 0} → (ℕ → ℕ → ℕ → S → S) → S → World T → S × World T
  unfolding scan_from
  scan_slots visitor s w = scan_from visitor (capacity w.mem.reader_gens) 0 s w
