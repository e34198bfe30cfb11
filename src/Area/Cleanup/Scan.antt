-- ===== src/Area/Cleanup/Scan.antt =====
-- The scan of a cleanup, whatever disciplined other threads do: the minimum that it finds stays
-- below every slot it has passed.
use market_square.Base.{
  ℕ, zero, suc, ◌+◌, ◌^◌, ◌≤◌, ◌<◌, ◌≡◌, refl, ap, ◌∙◌, inl, inr, false, ◌==◌, if◌then◌else◌, leb,
  ltb, Bool-cases, ==_iff, arith,
}
use market_square.Arithmetics.{
  clear_msb, set_msb, gen_gte_msb_masked, gen_gt_msb_masked, gen_without_suspended_bit,
  is_suspended,
}
use market_square.Arithmetics.Window.{generation_of, comparisons-generation_of}
use market_square.State.{World, tick}
use market_square.Map.{capacity, slot_at}
use market_square.Area.{with_value}
use market_square.Area.Invariant.{
  Counts, Later, Moment, tick-Moment, Later-trans, Later-refl, Ensures, Ensures-mono,
}
use market_square.Area.Slots.{
  move_held, with_value-Explains, compare_exchange_value-exchanged, compare_exchange_value-changed,
}
use market_square.Area.Cleanup.{scan_slot}

-- A slot was passed: the minimum is now `min`, and slot `idx` holds no earlier message.
pub record Passed {T : Type 0} (limit base : ℕ) (c : Counts) (w : World T) (old idx : ℕ)
    (r : ℕ × World T) : Type 0 where
  pub after : Counts
  pub least : ℕ
  pub moment : Moment limit after r.1
  pub later : Later c w.mem after r.1.mem
  pub value : r.0 ≡ generation_of least
  pub less : least ≤ old
  pub floor : base ≤ least
  pub held : least ≤ after.held idx

-- What the scan of one slot starts from: a loaded generation `reader_gen` of message `h`.
pub record Loaded (limit base : ℕ) (c : Counts) (old idx h reader_gen : ℕ) : Type 0 where
  pub window : limit ≤ base + 2 ^ 61
  pub floor : base ≤ h
  pub reached : h ≤ c.held idx
  pub old_floor : base ≤ old
  pub old_read : old ≤ c.read
  pub word : reader_gen < 2 ^ 64
  pub value : clear_msb reader_gen ≡ generation_of h

module _ {T : Type 0} {limit base : ℕ} {c : Counts} {w : World T} (old idx : ℕ) where
  -- The slot is far enough.
  slot_is_far :
      {h reader_gen : ℕ}
      → Moment limit c w
      → Loaded limit base c old idx h reader_gen
      → old ≤ h
      → Passed limit base c w old idx (generation_of old, w)
  slot_is_far m l e = record {
    after = c;
    least = old;
    moment = m;
    later = Later-refl;
    value = refl;
    less = omega arith;
    floor = l.old_floor;
    held = omega (arith, e, l.reached);
  }

  -- An active reader.
  stays :
      (h reader_gen : ℕ)
      → Moment limit c w
      → idx < capacity w.mem.reader_gens
      → Loaded limit base c old idx h reader_gen
      → is_suspended reader_gen ≡ false
      → Passed limit base c w old idx (
        if gen_gte_msb_masked (generation_of old) reader_gen then reader_gen else generation_of old,
        w,
      )
  unfolding is_suspended
  stays h reader_gen m b l active =
      let same : reader_gen ≡ generation_of h = ground (arith, l, active) in
      let order : gen_gte_msb_masked (generation_of old) reader_gen ≡ leb h old =
        ap (gen_gte_msb_masked (generation_of old)) same
        ∙ (comparisons-generation_of old h (omega (arith, l, m.fits, m.counters))
            (omega (arith, l, m.fits, m.counters, m.readers idx b))).0 in
      elim (Bool-cases (leb h old)) [
        | inl e ↦
            rw (order, e)
              (record {
                after = c;
                least = h;
                moment = m;
                later = Later-refl;
                value = same;
                less = ground (arith, e);
                floor = l.floor;
                held = l.reached;
              })
        | inr e ↦ rw (order, e) (slot_is_far m l (ground (arith, e)))
      ]

  -- The write that drags a suspended slot up to the minimum.
  drags :
      (h reader_gen : ℕ) {c' : Counts}
      → Moment limit c' (tick w)
      → Later c w.mem c' (tick w).mem
      → idx < capacity w.mem.reader_gens
      → Loaded limit base c old idx h reader_gen
      → h < old
      → (slot_at (tick w).mem.reader_gens idx).value ≡ reader_gen
      → Passed limit base c w old idx (
        generation_of old,
        record (tick w) { mem = with_value (tick w).mem idx (set_msb (generation_of old)) },
      )
  drags h reader_gen {c'} m later b l lt e =
      let b' : idx < capacity (tick w).mem.reader_gens = omega (arith, b, later.0) in
      let here = m.readers idx b' in
      let same : c'.held idx ≡ h =
        omega (arith, ap clear_msb e, here, l, later.1 idx, m.counters, m.fits) in
      let x =
        with_value-Explains idx (set_msb (generation_of old)) old (m.counters, m.readers) b'
          (omega (arith, here, same, lt)) (omega (arith, l, later.0)) (omega arith) (omega arith) in
      record {
        after = move_held c' idx old;
        least = old;
        moment = record {
          counters = x.0;
          readers = x.1;
          fits = record { below = m.fits.below; window = m.fits.window };
          disciplined = m.disciplined;
        };
        later = (omega (arith, later.0), λ j. ground (arith, later.1 j, same, lt));
        value = refl;
        less = omega arith;
        floor = l.old_floor;
        held = ground arith;
      }

-- What was passed from a later moment was passed from an earlier one.
pub Passed-mono :
    {T : Type 0} {limit base : ℕ} {c d : Counts} {w v : World T} {old idx : ℕ} {r : ℕ × World T}
    → Later c w.mem d v.mem
    → Passed limit base d v old idx r
    → Passed limit base c w old idx r
Passed-mono l p = record {
  after = p.after;
  least = p.least;
  moment = p.moment;
  later = Later-trans l p.later;
  value = p.value;
  less = p.less;
  floor = p.floor;
  held = p.held;
}

pub scan_slot-Passed :
    {T : Type 0} {limit base : ℕ} (old idx fuel h reader_gen : ℕ) {c : Counts} (w : World T)
    → Moment limit c w
    → idx < capacity w.mem.reader_gens
    → Loaded limit base c old idx h reader_gen
    → Ensures (Passed limit base c w old idx) (scan_slot fuel idx (generation_of old) reader_gen w)
unfolding scan_slot gen_without_suspended_bit
scan_slot-Passed old idx zero h reader_gen w m b l = tt
scan_slot-Passed {base} old idx (suc fuel) h reader_gen {c} w m b l =
    let (c1, m1, l1) = tick-Moment m in
    let b1 : idx < capacity (tick w).mem.reader_gens = omega (arith, b, l1.0) in
    let found = (slot_at (tick w).mem.reader_gens idx).value in
    let here = m1.readers idx b1 in
    let new = set_msb (generation_of old) in
    let order : gen_gt_msb_masked (generation_of old) (clear_msb reader_gen) ≡ ltb h old =
      ap (gen_gt_msb_masked (generation_of old)) l.value
      ∙ (comparisons-generation_of old h (omega (arith, l, m.fits, m.counters))
          (omega (arith, l, m.fits, m.counters, m.readers idx b))).2 in
    elim (Bool-cases (is_suspended reader_gen)) [
      | inr active ↦ rw (active, scan_slot) (stays old idx h reader_gen m b l active)
      | inl suspended ↦ elim (Bool-cases (ltb h old)) [
        | inr far ↦
            rw (suspended, order, far, scan_slot) (slot_is_far old idx m l (ground (arith, far)))
        | inl behind ↦ elim (Bool-cases (found == reader_gen)) [
          | inl same ↦
              let e = (==_iff found reader_gen).0 same in
              let won = compare_exchange_value-exchanged idx reader_gen new w e in
              rw (suspended, order, behind, won, scan_slot)
                (rw won (drags old idx h reader_gen m1 l1 b l (ground (arith, behind)) e))
          | inr other ↦
              let lost = compare_exchange_value-changed idx reader_gen new w other in
              let again = scan_slot-Passed old idx fuel (c1.held idx) found (tick w) m1 b1 (record {
                window = l.window;
                floor = omega (arith, l, l1.1 idx);
                reached = omega arith;
                old_floor = l.old_floor;
                old_read = omega (arith, l, l1.0);
                word = here.word;
                value = here.value;
              }) in
              rw (suspended, order, behind, lost, scan_slot)
                (rw lost (
                  Ensures-mono _ _ (scan_slot fuel idx (generation_of old) found (tick w))
                    (λ r p. Passed-mono {w = w} {v = tick w} l1 p) again))
        ]
      ]
    ]
