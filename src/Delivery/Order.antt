-- ===== src/Delivery/Order.antt =====
-- What a reader finds after a delivery: the messages it had not read, then the new ones.
use Prim.Native.Nat.{◌∣◌}
use mathlib.Core.Path.{subst}
use market_square.Base.{
  ℕ, suc, ◌+◌, ◌-◌, ◌^◌, ◌≤◌, ◌<◌, ◌≡◌, refl, sym, ap, ap₂, ◌∙◌, inl, inr, true, false, List, ltb,
  length, Bool-cases, arith,
}
use market_square.Arithmetics.{clear_msb, gen_add_msb_masked}
use market_square.Arithmetics.Window.{generation_of, dist-generation_of, add-generation_of}
use market_square.State.{
  AreaInner, World, alone, Result, ok, err, Outcome, returned, panicked, spinning, shared,
}
use market_square.Area.Invariant.{Counts, Moment}
use market_square.Area.Reader.Moves.{home, home-lt}
use market_square.Area.Writer.{ReserveError, available, set_write_gen}
use market_square.Area.Writer.Grab.{available-eq}
use market_square.Reservation.{Reservation, new_reservation, reserve, len}
use market_square.Reservation.Split.{Guards}
use market_square.ReservationIter.{ReservationIter, into_iter, publish_spin}
use market_square.ReservationIter.Fill.{fill, at, into_iter-at, fill-filled, filled}
use market_square.ReadSlice.{ReadSlice, read}
use market_square.ReadSlice.Slices.{Spans}
use market_square.ReadSlice.Dropped.{Stands}
use market_square.ReadSlice.Checked.{slice_of, read-value}
use market_square.Delivery.{deliver}
use market_square.Delivery.Steps.{
  reserve-granted, reserve-refused, publish_spin-alone, yields, stored, view, Delivers,
}

-- The rest of a delivery, after each of its calls.
module _ {T : Type 0} (vs : List T) (reader_id fuel : ℕ) where
  after_read : Outcome (ReadSlice × World T) → Outcome (Result ReserveError ReadSlice × World T)
  after_read o = elim o [
    | panicked ↦ panicked
    | spinning ↦ spinning
    | returned (s, w) ↦ returned (ok s, w)
  ]

  after_publish : Outcome (World T) → Outcome (Result ReserveError ReadSlice × World T)
  unfolding after_read
  after_publish o = elim o [
    | panicked ↦ panicked
    | spinning ↦ spinning
    | returned w ↦ after_read (read reader_id w)
  ]

  after_fill :
      Outcome (ReservationIter × World T) → Outcome (Result ReserveError ReadSlice × World T)
  unfolding after_publish
  after_fill o = elim o [
    | panicked ↦ panicked
    | spinning ↦ spinning
    | returned (it, w) ↦ after_publish (publish_spin fuel it w)
  ]

  after_reserve :
      Result ReserveError Reservation × World T → Outcome (Result ReserveError ReadSlice × World T)
  unfolding after_fill
  after_reserve r = elim r.0 [
    | err e ↦ returned (err e, r.1)
    | ok x ↦ after_fill (fill vs (into_iter x) r.1)
  ]

  deliver-after :
      (w : World T) → deliver vs reader_id fuel w ≡ after_reserve (reserve shared (length vs) w)
  unfolding deliver after_reserve after_fill after_publish after_read
  deliver-after w = refl

module _ {T : Type 0} {limit : ℕ} {c : Counts} (vs : List T) (a : AreaInner T)
    (m : Moment limit c (alone a)) where
  room_left :
      available a.buffer_capacity a.write_gen a.free_gen ≡ c.free + a.buffer_capacity - c.write
  room_left =
      ap (λ f. available a.buffer_capacity a.write_gen f) m.counters.free
      ∙ available-eq m c.free (omega arith) (omega (arith, m.counters))

  -- The range that is granted.
  granted :
      ltb (available a.buffer_capacity a.write_gen a.free_gen) (length vs) ≡ false
      → reserve shared (length vs) (alone a) ≡ (
        ok (new_reservation (generation_of c.write) (generation_of (c.write + length vs)) true),
        alone (set_write_gen (generation_of (c.write + length vs)) a),
      )
  granted room =
      let ends =
        ap (λ g. gen_add_msb_masked g (length vs)) m.counters.write
        ∙ add-generation_of c.write (length vs) in
      reserve-granted (length vs) a room
      ∙ ap₂ (λ s e. (ok (new_reservation s e true), alone (set_write_gen e a))) m.counters.write
          ends

range-Guards :
    (y n : ℕ)
    → n < 2 ^ 62
    → Guards y n (new_reservation (generation_of y) (generation_of (y + n)) true)
unfolding len
range-Guards y n few = record {
  starts = refl;
  ends = refl;
  counted = dist-generation_of (y + n) y (omega arith) (omega (arith, few)) ∙ omega arith;
}

module _ {T : Type 0} {limit : ℕ} {c : Counts} (vs : List T) (reader_id v fuel : ℕ)
    (a : AreaInner T) (m : Moment limit c (alone a)) where
  -- The whole run, where there is room.
  delivered :
      ltb (available a.buffer_capacity a.write_gen a.free_gen) (length vs) ≡ false
      → length vs ≤ 2 ^ 60
      → 0 < length vs
      → a.read_gen ≡ generation_of c.write
      → (let w = alone (stored vs c.write a) in Stands (home w reader_id) reader_id v w)
      → deliver vs reader_id (suc fuel) (alone a)
        ≡ returned
            (ok (slice_of reader_id v (alone (stored vs c.write a))), alone (stored vs c.write a))
  unfolding after_reserve after_fill after_publish after_read
  delivered room few some_values at_end stands =
      let n = length vs in
      let y = c.write in
      let g = range-Guards y n (omega (arith, few)) in
      let a1 = set_write_gen (generation_of (y + n)) a in
      let a2 = record a1 { buffer = filled a.buffer_capacity (y + 0) vs a.buffer } in
      let counted : 0 + n ≡ n = omega arith in
      let written =
        ap (λ it. fill vs it (alone a1)) (into_iter-at _ y n g)
        ∙ (fill-filled y n few vs 0 a1 (omega arith)
            ∙ ap (λ k. returned (at y n k, alone a2)) counted) in
      deliver-after vs reader_id (suc fuel) (alone a)
      ∙ (ap (after_reserve vs reader_id (suc fuel)) (granted vs a m room)
          ∙ (ap (after_fill vs reader_id (suc fuel)) written
              ∙ (ap (after_publish vs reader_id (suc fuel))
                    (publish_spin-alone fuel y n a2 some_values (omega (arith, few)) at_end)
                  ∙ ap (after_read vs reader_id (suc fuel))
                      (read-value reader_id v (alone (stored vs y a)) stands))))

-- Without other threads, where every reservation was published, in a ring whose capacity divides
-- `2 ^ 63`: reserving a slot for each of at least one value, writing them through the iterator,
-- publishing, and then reading as a registered active reader returns after one round of the
-- publication's retry loop. It is refused exactly where the buffer has not enough free cells, and
-- then nothing changes. Otherwise the reader's slice yields the messages it had not read, as they
-- were, and then the values in their order.
pub deliver-Delivers :
    {T : Type 0} {limit : ℕ} {c : Counts} (vs : List T) (reader_id v fuel : ℕ) (a : AreaInner T)
    → Moment limit c (alone a)
    → c.read ≡ c.write
    → Stands (home (alone a) reader_id) reader_id v (alone a)
    → 0 < length vs
    → a.buffer_capacity ∣ 2 ^ 63
    → length a.buffer ≡ a.buffer_capacity
    → 0 < a.buffer_capacity
    → Delivers vs reader_id
        (c.held (home (alone a) reader_id))
        c.write
        c
        a
        (deliver vs reader_id (suc fuel) (alone a))
unfolding after_reserve
deliver-Delivers {T} {limit} {c} vs reader_id v fuel a m all stands some_values divides whole
      positive =
    let n = length vs in
    let y = c.write in
    let idx = home (alone a) reader_id in
    let x = c.held idx in
    let holds = m.readers idx (home-lt (alone a) reader_id) in
    let Goal = Delivers vs reader_id x y c a in
    elim (Bool-cases (ltb (available a.buffer_capacity a.write_gen a.free_gen) n)) [
      | inl full ↦
          let refused =
            deliver-after vs reader_id (suc fuel) (alone a)
            ∙ ap (after_reserve vs reader_id (suc fuel)) (reserve-refused n a full) in
          subst Goal (sym refused) (ground (arith, full, room_left vs a m, m.counters), refl)
      | inr room ↦
          let free : y + n ≤ c.free + a.buffer_capacity =
            ground (arith, room, room_left vs a m, m.counters) in
          let few : n ≤ 2 ^ 60 = omega (arith, free, m.counters) in
          let at_end : a.read_gen ≡ generation_of y = m.counters.read ∙ ap generation_of all in
          let ran = delivered vs reader_id v fuel a m room few some_values at_end (record {
            named = record { names = stands.named.names; keeps = λ k b e. refl };
            value = stands.value;
            active = stands.active;
            own = λ k b e. refl;
          }) in
          let old : Spans a x (y - x) (view reader_id x y) = record {
            starts = refl;
            ends = ap generation_of (omega (arith, holds, all));
            inside = omega (arith, holds, m.counters);
            some_cells = positive;
            small = m.counters.small;
            divides = divides;
            whole = whole;
          } in
          subst Goal (sym ran) (
            free,
            yields vs reader_id x y a old (slice_of reader_id v (alone (stored vs y a)))
                (ap clear_msb (sym stands.value) ∙ holds.value) refl (omega (arith, holds, all))
                (omega (arith, holds, m.counters, free)),
          )
    ]
