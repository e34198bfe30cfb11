-- ===== src/Area/Reader/Vacancy.antt =====
-- src/area.rs: when `register_reader_with_seed` finds a slot, and what it writes there.
use mathlib.Core.Path.{subst}
use native.Mathlib.Nat.{mod-lt}
use market_square.Base.{
  ℕ, suc, ◌+◌, ◌<◌, ◌≡◌, ◌≢◌, ◌⊎◌, inl, inr, refl, sym, ap, ◌∙◌, none, some, true, ◌==◌,
  if◌then◌else◌, length, length-set, get_or-set_self, get_or-set_ne, arith,
}
use market_square.Arithmetics.{clear_msb, set_msb, gen_without_suspended_bit}
use market_square.State.{
  Slot, AreaInner, World, alone, Result, ok, err, Outcome, returned, panicked, spinning,
}
use market_square.Map.{
  zero_offset, capacity, slot_at, empty_key, key_bits, is_in_progress, index_for, max_probes, Probe,
  with_key, new_key_for, load_key, fetch_clear_in_progress, finish_init_at,
  get_or_insert_concurrent,
}
use market_square.Map.Probing.{at_distance, key_at, Claims, Full, probe_from-first, passes_all}
use market_square.Area.{with_value}
use market_square.Area.Slots.{compare_exchange_value-exchanged}
use market_square.Area.Reader.{
  RegisterError, reader_capacity_reached, usable_seed, enter, register_reader_with_seed,
}

-- What an undisturbed registration does to `a`: it takes an empty slot and makes it active where it
-- stands, or finds that there is none.
abbrev pub RegisteredAlone :
    {T : Type 0} → AreaInner T → Outcome (Result RegisterError ℕ × World T) → Type 0
RegisteredAlone a (returned (ok reader_id, w)) =
    (idx : ℕ) × (idx < capacity a.reader_gens)
    × (key_at a idx ≡ empty_key)
    × (slot_at w.mem.reader_gens idx
        ≡ record { key = reader_id; value = clear_msb (slot_at a.reader_gens idx).value })
    × ((j : ℕ) → j ≢ idx → slot_at w.mem.reader_gens j ≡ slot_at a.reader_gens j)
    × (w.mem ≡ record a { reader_gens = w.mem.reader_gens })
RegisteredAlone a (returned (err reader_capacity_reached, w)) =
    (w ≡ alone a) × ((j : ℕ) → j < capacity a.reader_gens → key_at a j ≢ empty_key)
RegisteredAlone a panicked = ⊥
RegisteredAlone a spinning = ⊥

set_msb-in_progress : (x : ℕ) → is_in_progress (set_msb x) ≡ true
unfolding is_in_progress
set_msb-in_progress x = ground arith

new_key_for-in_progress :
    {T : Type 0} (a : AreaInner T) (key i : ℕ)
    → is_in_progress (new_key_for a.reader_gens true key zero_offset i) ≡ true
unfolding new_key_for
new_key_for-in_progress a key i = set_msb-in_progress _

module _ {T : Type 0} (a : AreaInner T) (idx k : ℕ) (b : idx < length a.reader_gens.slots) where
  slot-with_key :
      slot_at (with_key a idx k).reader_gens idx ≡ record (slot_at a.reader_gens idx) { key = k }
  slot-with_key = get_or-set_self a.reader_gens.slots idx _ _ b

  finish_init_at-alone :
      is_in_progress k ≡ true
      → finish_init_at idx (alone (with_key a idx k))
        ≡ alone (with_key (with_key a idx k) idx (key_bits k))
  unfolding finish_init_at load_key fetch_clear_in_progress key_bits
  finish_init_at-alone e =
      let go = λ (q : ℕ).
        if is_in_progress q
        then alone (with_key (with_key a idx k) idx (clear_msb q))
        else alone (with_key a idx k) in
      let here : (slot_at (with_key a idx k).reader_gens idx).key ≡ k =
        ap (λ (s : Slot). s.key) slot-with_key in
      ap go here ∙ rw e refl

enter-alone :
    {T : Type 0} (a : AreaInner T) (fuel idx reader_id : ℕ)
    → enter (suc fuel) idx reader_id (alone a)
      ≡ returned
          (ok reader_id, alone (with_value a idx (clear_msb (slot_at a.reader_gens idx).value)))
unfolding enter gen_without_suspended_bit
enter-alone a fuel idx reader_id =
    let current = (slot_at a.reader_gens idx).value in
    let won = compare_exchange_value-exchanged idx current (clear_msb current) (alone a) refl in
    rw (won, enter) (rw won refl)

-- The three writes of a registration into slot `idx`.
abbrev written : {T : Type 0} → AreaInner T → ℕ → ℕ → AreaInner T
written a idx k =
    let keyed = with_key (with_key a idx k) idx (key_bits k) in
    with_value keyed idx (clear_msb (slot_at keyed.reader_gens idx).value)

module _ {T : Type 0} (a : AreaInner T) (idx k : ℕ) (b : idx < length a.reader_gens.slots) where
  slot_at-written :
      slot_at (written a idx k).reader_gens idx
      ≡ record { key = key_bits k; value = clear_msb (slot_at a.reader_gens idx).value }
  slot_at-written =
      let a1 = with_key a idx k in
      let a2 = with_key a1 idx (key_bits k) in
      let b1 : idx < length a1.reader_gens.slots = omega (
        arith,
        b,
        length-set a.reader_gens.slots idx (record (slot_at a.reader_gens idx) { key = k }),
      ) in
      let b2 : idx < length a2.reader_gens.slots = omega (
        arith,
        b1,
        length-set a1.reader_gens.slots idx
            (record (slot_at a1.reader_gens idx) { key = key_bits k }),
      ) in
      let unlocked =
        slot-with_key a1 idx (key_bits k) b1
        ∙ ap (λ (s : Slot). record s { key = key_bits k }) (slot-with_key a idx k b) in
      get_or-set_self a2.reader_gens.slots idx _ _ b2
      ∙ ap (λ (s : Slot). record s { value = clear_msb s.value }) unlocked

  slot_at-written_ne :
      (j : ℕ) → j ≢ idx → slot_at (written a idx k).reader_gens j ≡ slot_at a.reader_gens j
  slot_at-written_ne j ne =
      let a1 = with_key a idx k in
      let a2 = with_key a1 idx (key_bits k) in
      let away : idx ≢ j = λ e. ne (sym e) in
      get_or-set_ne a2.reader_gens.slots idx j _ _ away
      ∙ (get_or-set_ne a1.reader_gens.slots idx j _ _ away
          ∙ get_or-set_ne a.reader_gens.slots idx j _ _ away)

-- The id returned is what an insertion of `key` makes of it at some probe distance.
abbrev pub IsFolded :
    {T : Type 0} → ℕ → AreaInner T → Outcome (Result RegisterError ℕ × World T) → Type 0
IsFolded key a (returned (ok reader_id, w)) =
    (i : ℕ) × (reader_id ≡ key_bits (new_key_for a.reader_gens true key zero_offset i))
IsFolded key a (returned (err reader_capacity_reached, w)) = Unit {0}
IsFolded key a panicked = ⊥
IsFolded key a spinning = ⊥

-- The rest of a registration, after the insertion.
module _ {T : Type 0} (a : AreaInner T) (fuel : ℕ)
    (size : length a.reader_gens.slots ≡ capacity a.reader_gens) where
  abbrev finished : Probe × World T → Outcome (Result RegisterError ℕ × World T)
  finished r = elim r.0.ptr [
    | none ↦ returned (err reader_capacity_reached, r.1)
    | some i ↦ enter (suc fuel) i (key_bits r.0.k) (finish_init_at r.0.index r.1)
  ]

  settled :
      (key idx : ℕ) (r : Probe × World T)
      → idx < capacity a.reader_gens
      → let cap = capacity a.reader_gens in
        Full cap idx a r ⊎ Claims key zero_offset cap 0 idx a r
        → RegisteredAlone a (finished r) × IsFolded key a (finished r)
  settled key idx r b (inl full) =
      subst (λ p. RegisteredAlone a (finished p) × IsFolded key a (finished p)) (sym full.result)
        (
          (
            refl,
            λ j h e.
                let (d, near, at) = passes_all a idx j b h in
                full.taken d near (ap (key_at a) at ∙ e),
          ),
          tt,
        )
  settled key idx r b (inr c) =
      let slot = at_distance a idx c.distance in
      let within : slot < capacity a.reader_gens = mod-lt _ (omega (arith, b)) in
      let k = new_key_for a.reader_gens true key zero_offset (0 + c.distance) in
      let inside : slot < length a.reader_gens.slots = omega (arith, within, size) in
      let unlocked =
        finish_init_at-alone a slot k inside (new_key_for-in_progress a key (0 + c.distance)) in
      let entered =
        enter-alone (with_key (with_key a slot k) slot (key_bits k)) fuel slot (key_bits k) in
      subst (λ p. RegisteredAlone a (finished p) × IsFolded key a (finished p)) (sym c.result)
        (rw (unlocked, entered)
          (
            (
              slot,
              within,
              c.free,
              slot_at-written a slot k inside,
              slot_at-written_ne a slot k inside,
              refl,
            ),
            (0 + c.distance, refl),
          ))

pub register_reader_with_seed-IsFolded :
    {T : Type 0} (fuel seed : ℕ) (a : AreaInner T)
    → length a.reader_gens.slots ≡ capacity a.reader_gens
    → let r = register_reader_with_seed (suc fuel) seed (alone a) in
      RegisteredAlone a r × IsFolded (usable_seed seed) a r
unfolding register_reader_with_seed get_or_insert_concurrent index_for
register_reader_with_seed-IsFolded fuel seed a size =
    let cap = capacity a.reader_gens in
    let key = usable_seed seed in
    let start = index_for a.reader_gens key zero_offset in
    let n = if cap == max_probes then cap else cap in
    let all : n ≡ cap = ground arith in
    let b : start < cap = mod-lt _ (omega arith) in
    settled a fuel size key start (get_or_insert_concurrent key zero_offset cap true true (alone a))
      b (rw all (probe_from-first key zero_offset a cap 0 start b))

-- Without other threads, a registration returns after one round of its retry loop. It fails, and
-- changes nothing, exactly where no slot of the reader map is empty; otherwise one empty slot gets
-- the id that is returned, and becomes active at the message it held; no other slot and no other
-- part of the area changes.
pub register_reader_with_seed-RegisteredAlone :
    {T : Type 0} (fuel seed : ℕ) (a : AreaInner T)
    → length a.reader_gens.slots ≡ capacity a.reader_gens
    → RegisteredAlone a (register_reader_with_seed (suc fuel) seed (alone a))
register_reader_with_seed-RegisteredAlone fuel seed a size =
    (register_reader_with_seed-IsFolded fuel seed a size).0
