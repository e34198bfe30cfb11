-- ===== src/Area/Reader/Ids.antt =====
-- src/area.rs and src/map.rs: the ids of the registered readers.
use mathlib.Core.Path.{subst}
use native.Mathlib.Nat.{mod-lt}
use market_square.Base.{
  ℕ, zero, suc, ◌%◌, ◌<◌, ◌≡◌, inl, inr, sym, ap, ◌∙◌, Option, none, some, true, ◌==◌,
  if◌then◌else◌, length-set, get_or-set_self, get_or-set_ne, Bool-cases, ==_iff, arith,
}
use market_square.Arithmetics.{
  clear_msb, set_msb, is_suspended, wrapping_add, gen_without_suspended_bit,
}
use market_square.State.{Slot, World, tick, Result, ok, err, returned}
use market_square.Map.{
  zero_offset, immediate, capacity, slot_at, key_bits, index_for, max_probes, Probe,
  get_or_insert_concurrent, finish_init_at, remove_concurrent,
}
use market_square.Map.Home.{IsSized}
use market_square.Map.Keys.{
  IsHome, Housed, tick-Housed, probe_from-Housed, finish_init_at-Housed, remove_from-Housed,
}
use market_square.Area.{with_value, load_value, store_value}
use market_square.Area.Slots.{compare_exchange_value-exchanged, compare_exchange_value-changed}
use market_square.Area.Invariant.{Ensures}
use market_square.Area.Reader.Moves.{home, looked_up}
use market_square.Area.Reader.{
  SuspendError, UnregisterError, already_suspended, reader_capacity_reached, usable_seed, enter,
  register_reader_with_seed, get_reader_ptr_boilerplate, suspend_reader, unregister_reader,
}

module _ {T : Type 0} {cap : ℕ} (idx v : ℕ) (w : World T) where
  -- A write of a generation moves no key.
  with_value-Housed : Housed cap w → Housed cap (record w { mem = with_value w.mem idx v })
  with_value-Housed h =
      let m = w.mem.reader_gens in
      let stored : Slot = record (slot_at m idx) { value = v } in
      record {
        homes = record {
          size = h.homes.size;
          shape = length-set m.slots idx stored ∙ h.homes.shape;
          keys = λ j below.
              let kept : (slot_at (with_value w.mem idx v).reader_gens j).key ≡ (slot_at m j).key =
                elim (Bool-cases (j == idx)) [
                  | inl e ↦ rw ((==_iff j idx).0 e) (
                      ap (λ (s : Slot). s.key)
                        (get_or-set_self m.slots idx stored _
                          (omega (arith, below, (==_iff j idx).0 e, h.homes.shape))))
                  | inr e ↦
                      ap (λ (s : Slot). s.key)
                        (get_or-set_ne m.slots idx j stored _ (ground (arith, e)))
                ] in
              subst (IsHome cap j) (sym kept) (h.homes.keys j below);
        };
        keeps = h.keeps;
      }

-- Whatever a call returns, the keys are at home when it does.
abbrev pub EndsHoused : {T A : Type 0} → ℕ → A × World T → Type 0
EndsHoused cap r = Housed cap r.1

enter-Housed :
    {T : Type 0} {cap : ℕ} (fuel idx reader_id : ℕ) (w : World T)
    → Housed cap w
    → Ensures (EndsHoused cap) (enter fuel idx reader_id w)
unfolding enter gen_without_suspended_bit
enter-Housed zero idx reader_id w h = tt
enter-Housed (suc fuel) idx reader_id w h =
    let w1 = tick w in
    let h2 = tick-Housed (tick-Housed h) in
    let current = (slot_at w1.mem.reader_gens idx).value in
    let found = (slot_at (tick w1).mem.reader_gens idx).value in
    elim (Bool-cases (found == current)) [
      | inl same ↦
          let won =
            compare_exchange_value-exchanged idx current (clear_msb current) w1
              ((==_iff found current).0 same) in
          rw (won, enter) (rw won (with_value-Housed idx (clear_msb current) (tick w1) h2))
      | inr other ↦
          let lost = compare_exchange_value-changed idx current (clear_msb current) w1 other in
          rw (lost, enter) (rw lost (enter-Housed fuel idx reader_id (tick w1) h2))
    ]

module _ {T : Type 0} {cap : ℕ} (reader_id : ℕ) (w : World T) where
  lookup-Housed : Housed cap w → Housed cap (get_reader_ptr_boilerplate reader_id w).1
  lookup-Housed h = let h1 = tick-Housed h in looked_up w reader_id (λ r. Housed cap r.1) h1 h1

  suspend_reader-Housed : Housed cap w → Housed cap (suspend_reader reader_id w).1
  unfolding suspend_reader
  suspend_reader-Housed h =
      let h2 = tick-Housed (tick-Housed h) in
      let idx = home w reader_id in
      let current = (slot_at (tick (tick w)).mem.reader_gens idx).value in
      looked_up w reader_id
        (λ r.
          let s : Result SuspendError (Unit {0}) × World T = elim r.0 [
            | none ↦ (err SuspendError.reader_not_found, r.1)
            | some i ↦
                let (current, w2) = load_value i r.1 in
                if is_suspended current
                then (err already_suspended, w2)
                else (ok tt, store_value i (set_msb current) w2)
          ] in
          Housed cap s.1)
        (elim (Bool-cases (is_suspended current)) [
          | inl suspended ↦ rw suspended h2
          | inr active ↦
              rw active
                (with_value-Housed idx (set_msb current) (tick (tick (tick w))) (tick-Housed h2))
        ])
        (tick-Housed h)

  ended :
      (suspended : Result SuspendError (Unit {0})) (v removed : World T)
      → Housed cap v
      → Housed cap removed
      → let r : Result UnregisterError (Unit {0}) × World T = elim suspended [
        | ok _ ↦ (ok tt, removed)
        | err e ↦ elim e [
          | SuspendError.reader_not_found ↦ (err UnregisterError.reader_not_found, v)
          | already_suspended ↦ (ok tt, removed)
        ]
      ] in
        Housed cap r.1
  ended (ok _) v removed h k = k
  ended (err SuspendError.reader_not_found) v removed h k = h
  ended (err already_suspended) v removed h k = k

  unregister_reader-Housed : Housed cap w → Housed cap (unregister_reader reader_id w).1
  unfolding unregister_reader remove_concurrent
  unregister_reader-Housed h =
      let r = suspend_reader reader_id w in
      let h1 = suspend_reader-Housed h in
      let removed = remove_from-Housed reader_id immediate _ r.1 h1 in ended r.0 r.1 _ h1 removed

  settled :
      (fuel : ℕ) (p : Probe) (v : World T)
      → Housed cap v
      → Ensures (EndsHoused cap) (elim p.ptr [
        | none ↦ returned (err reader_capacity_reached, v)
        | some idx ↦ enter fuel idx (key_bits p.k) (finish_init_at p.index v)
      ])
  settled fuel p v h = entering p.ptr
    where
      entering :
          (ptr : Option ℕ)
          → Ensures (EndsHoused cap) (elim ptr [
            | none ↦ returned (err reader_capacity_reached, v)
            | some idx ↦ enter fuel idx (key_bits p.k) (finish_init_at p.index v)
          ])
      entering none = h
      entering (some idx) =
          enter-Housed fuel idx (key_bits p.k) (finish_init_at p.index v)
            (finish_init_at-Housed p.index v h)

-- While the capacity is a power of two, and whatever the other threads do between the accesses that
-- keeps every key of the reader map at home: a registration never panics, and it, an
-- unregistration and a lookup, whether they succeed or not, leave every key at home: a slot is
-- empty, or a lookup of the id that its key stands for looks in it.
pub registrations-Housed :
    {T : Type 0} {cap : ℕ} (fuel seed reader_id : ℕ) (w : World T)
    → IsSized cap
    → Housed cap w
    → Ensures (EndsHoused cap) (register_reader_with_seed fuel seed w)
      × EndsHoused cap (unregister_reader reader_id w)
      × EndsHoused cap (get_reader_ptr_boilerplate reader_id w)
unfolding register_reader_with_seed get_or_insert_concurrent index_for
registrations-Housed {cap} fuel seed reader_id w s h =
    let key = usable_seed seed in
    let all = capacity w.mem.reader_gens in
    let n = if all == max_probes then all else all in
    let start = index_for w.mem.reader_gens key zero_offset in
    let r = get_or_insert_concurrent key zero_offset all true true w in
    let b : start < cap = omega (arith, h.homes.size, mod-lt _ {m = all} (omega arith)) in
    let probed =
      probe_from-Housed key zero_offset s n 0 start w h b (
        ap (λ k. wrapping_add key zero_offset % k) h.homes.size
        ∙ ap (λ k. k % cap) (omega arith)) in
    (
      settled reader_id w fuel r.0 r.1 probed,
      unregister_reader-Housed reader_id w h,
      lookup-Housed reader_id w h,
    )
