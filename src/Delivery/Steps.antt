-- ===== src/Delivery/Steps.antt =====
-- The calls of a delivery, each without other threads, and what its buffer yields to a reader.
use Prim.Native.Nat.{◌∣◌}
use market_square.Base.{
  ℕ, zero, suc, ◌+◌, ◌-◌, ◌^◌, ◌≤◌, ◌<◌, ◌≡◌, refl, sym, ap, ap₂, ◌∙◌, true, false, none, Option,
  List, ◌∷◌, ◌++◌, ◌==◌, ltb, length, ==_iff, arith,
}
use market_square.Arithmetics.{gen_add_msb_masked}
use market_square.Arithmetics.Window.{generation_of}
use market_square.State.{
  AreaInner, World, alone, Result, ok, err, Outcome, returned, panicked, spinning, shared,
}
use market_square.Area.Invariant.{Counts}
use market_square.Area.Slots.{compare_exchange-exchanged}
use market_square.Area.Writer.{
  ReserveError, PublishError, no_space, failed_grab, available, set_write_gen, set_read_gen,
  try_reserve_slots, grab,
}
use market_square.Reservation.{new_reservation, reserve}
use market_square.Reservation.Spin.{slots-won}
use market_square.ReservationIter.{publish, publish_spin}
use market_square.ReservationIter.Fill.{
  at, filled, filled-other, length-filled, ring-filled, all_some,
}
use market_square.ReadSlice.{ReadSlice}
use market_square.ReadSlice.Slices.{ring, ring-append, iterate, Spans, iterate-ring}

module _ {T : Type 0} (n : ℕ) (a : AreaInner T) where
  -- A reservation of `n` slots that no other thread disturbs.
  pub reserve-granted :
      ltb (available a.buffer_capacity a.write_gen a.free_gen) n ≡ false
      → reserve shared n (alone a) ≡ (
        ok (new_reservation a.write_gen (gen_add_msb_masked a.write_gen n) true),
        alone (set_write_gen (gen_add_msb_masked a.write_gen n) a),
      )
  unfolding reserve try_reserve_slots grab
  reserve-granted room =
      let won =
        compare_exchange-exchanged (λ x. x.write_gen)
          (set_write_gen (gen_add_msb_masked a.write_gen n)) a.write_gen (alone a) refl in
      rw (room, reserve, try_reserve_slots, grab) (rw (won, grab) refl)

  pub reserve-refused :
      ltb (available a.buffer_capacity a.write_gen a.free_gen) n ≡ true
      → reserve shared n (alone a) ≡ (err no_space, alone a)
  unfolding reserve try_reserve_slots
  reserve-refused full = rw (full, reserve, try_reserve_slots) refl

-- The publication of a filled iterator that comes next.
pub publish_spin-alone :
    {T : Type 0} (fuel x n : ℕ) (a : AreaInner T)
    → 0 < n
    → n < 2 ^ 62
    → a.read_gen ≡ generation_of x
    → publish_spin (suc fuel) (at x n n) (alone a)
      ≡ returned (alone (set_read_gen (generation_of (x + n)) a))
unfolding publish_spin publish
publish_spin-alone {T} fuel x n a some_slots few e =
    let whole : (n == n) ≡ true = ground arith in
    let won = slots-won x n (alone a) some_slots few ((==_iff _ _).1 e) in
    rw (whole, won, publish_spin, publish)
      (ap (λ (q : Result PublishError (Unit {0}) × World T). returned q.1) won)

module _ {T : Type 0} (cap : ℕ) (positive : 0 < cap) (divides : cap ∣ 2 ^ 63) where
  -- Later messages leave the earlier ones in place, as long as they do not go around.
  ring-filled_other :
      (vs : List T) (j k y : ℕ) (b : List (Option T))
      → j + k ≤ y
      → y + length vs ≤ j + cap
      → ring none (filled cap y vs b) cap j k ≡ ring none b cap j k
  unfolding ring
  ring-filled_other vs j zero y b h f = refl
  ring-filled_other vs j (suc k) y b h f =
      ap₂ ◌∷◌ (filled-other cap positive divides vs j y b (omega (arith, h)) f)
        (ring-filled_other vs (suc j) k y b (omega (arith, h)) (omega (arith, f)))

-- The slice of the messages that are published from `x` to `y`, for the reader.
abbrev pub view : ℕ → ℕ → ℕ → ReadSlice
view reader_id x y = record {
  reader_id = reader_id;
  start_gen = generation_of x;
  end_gen = generation_of y;
  armed = true;
}

-- What a delivery of `vs` makes of `a`: the slice yields the messages from `x` to `y`, which the
-- reader had not read, and then the values; or there was no room and nothing changed.
abbrev pub Delivers :
    {T : Type 0}
    → List T
    → ℕ
    → ℕ
    → ℕ
    → Counts
    → AreaInner T
    → Outcome (Result ReserveError ReadSlice × World T)
    → Type 0
Delivers vs reader_id x y c a (returned (ok s, w)) =
    (c.write + length vs ≤ c.free + a.buffer_capacity)
    × (iterate (suc (y + length vs - x)) s 0 w.mem
        ≡ iterate (suc (y - x)) (view reader_id x y) 0 a ++ all_some vs)
Delivers vs reader_id x y c a (returned (err no_space, w)) =
    (c.free + a.buffer_capacity < c.write + length vs) × (w ≡ alone a)
Delivers vs reader_id x y c a (returned (err failed_grab, w)) = ⊥
Delivers vs reader_id x y c a panicked = ⊥
Delivers vs reader_id x y c a spinning = ⊥

-- The values written from message `y` on, in the buffer of `a`.
abbrev pub stored : {T : Type 0} → List T → ℕ → AreaInner T → AreaInner T
stored vs y a = record a {
  write_gen = generation_of (y + length vs);
  read_gen = generation_of (y + length vs);
  buffer = filled a.buffer_capacity (y + 0) vs a.buffer;
}

module _ {T : Type 0} (vs : List T) (reader_id x y : ℕ) (a : AreaInner T)
    (v : Spans a x (y - x) (view reader_id x y)) (s : ReadSlice) where
  -- The slice of the old and the new messages.
  stored-Spans :
      s.start_gen ≡ generation_of x
      → s.end_gen ≡ generation_of (y + length vs)
      → x ≤ y
      → y + length vs ≤ x + a.buffer_capacity
      → Spans (stored vs y a) x (y + length vs - x) s
  stored-Spans starts ends h k = record {
    starts = starts;
    ends = ends ∙ ap generation_of (omega (arith, h));
    inside = omega (arith, k);
    some_cells = v.some_cells;
    small = v.small;
    divides = v.divides;
    whole = length-filled a.buffer_capacity v.some_cells v.divides vs (y + 0) a.buffer ∙ v.whole;
  }

  pub yields :
      s.start_gen ≡ generation_of x
      → s.end_gen ≡ generation_of (y + length vs)
      → x ≤ y
      → y + length vs ≤ x + a.buffer_capacity
      → iterate (suc (y + length vs - x)) s 0 (stored vs y a)
        ≡ iterate (suc (y - x)) (view reader_id x y) 0 a ++ all_some vs
  yields starts ends h k =
      let n = length vs in
      let cap = a.buffer_capacity in
      let b = filled cap (y + 0) vs a.buffer in
      let here : x + 0 ≡ x = omega arith in
      let there : y + 0 ≡ y = omega arith in
      let parts : y + n - x - 0 ≡ (y - x) + n = omega (arith, h) in
      let old : y - x - 0 ≡ y - x = omega arith in
      let after : x + (y - x) ≡ y + 0 = omega (arith, h) in
      iterate-ring (stored-Spans starts ends h k) (suc (y + n - x)) 0 (omega arith) (omega arith)
      ∙ (ap₂ (λ i l. ring none b cap i l) here parts
          ∙ (ring-append none b cap x (y - x) n
              ∙ ap₂ ◌++◌
                  (ring-filled_other cap v.some_cells v.divides vs x (y - x) (y + 0) a.buffer
                      (omega (arith, h)) (omega (arith, k))
                    ∙ sym (
                        iterate-ring v (suc (y - x)) 0 (omega arith) (omega arith)
                        ∙ ap₂ (λ i l. ring none a.buffer cap i l) here old))
                  (ap (λ i. ring none b cap i n) after
                    ∙ ring-filled cap v.some_cells v.divides vs (y + 0) a.buffer
                        (omega (arith, k, h)) v.whole)))
