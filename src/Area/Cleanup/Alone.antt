-- ===== src/Area/Cleanup/Alone.antt =====
-- A cleanup that no other thread disturbs, in either mode: it returns, and it cleans exactly what
-- the active readers have left behind.
use market_square.Base.{
  ℕ, zero, suc, ◌+◌, ◌^◌, ◌≤◌, ◌<◌, ◌≡◌, refl, ap, ◌∙◌, inl, inr, if◌then◌else◌, min, leb, ltb,
  Bool-cases, arith,
}
use market_square.Arithmetics.{
  clear_msb, set_msb, gen_gte_msb_masked, gen_gt_msb_masked, gen_without_suspended_bit,
  is_suspended,
}
use market_square.Arithmetics.Window.{generation_of, comparisons-generation_of}
use market_square.State.{SimpleLpHashMap, AreaInner, World, alone, Outcome, returned}
use market_square.Map.{capacity, slot_at}
use market_square.Area.{with_value}
use market_square.Area.Invariant.{Counts, Explains}
use market_square.Area.Slots.{
  move_held, slot_at-with_value, with_value-Explains, compare_exchange_value-exchanged,
}
use market_square.Area.Reader.Enter.{active-generation}
use market_square.Area.Cleanup.{scan_slot}

-- The first message that the active readers in `n` slots from `idx` on, or `old`, still need.
abbrev pub needed : Counts → SimpleLpHashMap → ℕ → ℕ → ℕ → ℕ
needed c m old zero idx = old
needed c m old (suc n) idx =
    needed c m (if is_suspended (slot_at m idx).value then old else min old (c.held idx)) n
      (suc idx)

pub needed-le : (c : Counts) (m : SimpleLpHashMap) (old n idx : ℕ) → needed c m old n idx ≤ old
needed-le c m old zero idx = omega arith
needed-le c m old (suc n) idx =
    let next = if is_suspended (slot_at m idx).value then old else min old (c.held idx) in
    let smaller : next ≤ old = ground arith in
    omega (arith, smaller, needed-le c m next n (suc idx))

pub le-needed :
    (c : Counts) (m : SimpleLpHashMap) (old n idx : ℕ)
    → c.last_valid ≤ old
    → ((j : ℕ) → idx ≤ j → j < idx + n → c.last_valid ≤ c.held j)
    → c.last_valid ≤ needed c m old n idx
le-needed c m old zero idx h k = h
le-needed c m old (suc n) idx h k =
    let here = k idx (omega arith) (omega arith) in
    le-needed c m (if is_suspended (slot_at m idx).value then old else min old (c.held idx)) n
      (suc idx) (ground (arith, h, here)) (λ j p q. k j (omega (arith, p)) (omega (arith, q)))

-- What a scan leaves alone: all but the generations of slots before `idx`.
pub record Untouched {T : Type 0} (c : Counts) (a : AreaInner T) (idx : ℕ) (c' : Counts)
    (a' : AreaInner T) : Type 0 where
  pub slots : (j : ℕ) → idx ≤ j → slot_at a'.reader_gens j ≡ slot_at a.reader_gens j
  pub held : (j : ℕ) → idx ≤ j → c'.held j ≡ c.held j
  pub counts :
      (c'.write ≡ c.write)
      × (c'.read ≡ c.read)
      × (c'.last_valid ≡ c.last_valid)
      × (c'.free ≡ c.free)
  pub size :
      (capacity a'.reader_gens ≡ capacity a.reader_gens) × (a'.buffer_capacity ≡ a.buffer_capacity)
  pub buffer : a'.buffer ≡ a.buffer

pub record Scanned {T : Type 0} (c : Counts) (a : AreaInner T) (idx end least : ℕ)
    (o : Outcome (ℕ × World T)) : Type 0 where
  pub after : Counts
  pub mem : AreaInner T
  pub result : o ≡ returned (generation_of least, alone mem)
  pub explains : Explains after mem
  pub untouched : Untouched c a end after mem
  pub earlier : (j : ℕ) → j < idx → after.held j ≡ c.held j
  pub past : (j : ℕ) → idx ≤ j → j < end → least ≤ after.held j

module _ {T : Type 0} {c : Counts} {a : AreaInner T} (e : Explains c a) (old idx fuel : ℕ) where
  pub scan_slot-alone :
      idx < capacity a.reader_gens
      → c.last_valid ≤ old
      → old ≤ c.read
      → let v = (slot_at a.reader_gens idx).value in
        Scanned c a idx
          (suc idx)
          (if is_suspended v then old else min old (c.held idx))
          (scan_slot (suc fuel) idx (generation_of old) v (alone a))
  unfolding scan_slot gen_without_suspended_bit
  scan_slot-alone b lo hi =
      let v = (slot_at a.reader_gens idx).value in
      let here = e.1 idx b in
      let near : (old < c.held idx + 2 ^ 62) × (c.held idx < old + 2 ^ 62) =
        omega (arith, e.0, here, lo, hi) in
      let order : gen_gt_msb_masked (generation_of old) (clear_msb v) ≡ ltb (c.held idx) old =
        ap (gen_gt_msb_masked (generation_of old)) here.value
        ∙ (comparisons-generation_of old (c.held idx) near.0 near.1).2 in
      elim (Bool-cases (is_suspended v)) [
        | inr active ↦
            let value : v ≡ generation_of (c.held idx) = active-generation here active in
            let order' : gen_gte_msb_masked (generation_of old) v ≡ leb (c.held idx) old =
              ap (gen_gte_msb_masked (generation_of old)) value
              ∙ (comparisons-generation_of old (c.held idx) near.0 near.1).0 in
            elim (Bool-cases (leb (c.held idx) old)) [
              | inl behind ↦
                  let least : c.held idx ≡ min old (c.held idx) = ground (arith, behind) in
                  rw (active, order', behind, scan_slot)
                    (record {
                      after = c;
                      mem = a;
                      result = ap (λ g. returned (g, alone a)) (value ∙ ap generation_of least);
                      explains = e;
                      untouched = ground arith;
                      earlier = λ j h. refl;
                      past = λ j h k. ground (arith, h, k, behind);
                    })
              | inr far ↦
                  let least : old ≡ min old (c.held idx) = ground (arith, far) in
                  rw (active, order', far, scan_slot)
                    (record {
                      after = c;
                      mem = a;
                      result = ap (λ g. returned (generation_of g, alone a)) least;
                      explains = e;
                      untouched = ground arith;
                      earlier = λ j h. refl;
                      past = λ j h k. ground (arith, h, k, far);
                    })
            ]
        | inl suspended ↦ elim (Bool-cases (ltb (c.held idx) old)) [
          | inr far ↦
              rw (suspended, order, far, scan_slot)
                (record {
                  after = c;
                  mem = a;
                  result = refl;
                  explains = e;
                  untouched = ground arith;
                  earlier = λ j h. refl;
                  past = λ j h k. ground (arith, h, k, far);
                })
          | inl behind ↦
              let won =
                compare_exchange_value-exchanged idx v (set_msb (generation_of old)) (alone a)
                  refl in
              rw (suspended, order, behind, won, scan_slot)
                (rw won (record {
                  after = move_held c idx old;
                  mem = with_value a idx (set_msb (generation_of old));
                  result = refl;
                  explains =
                      with_value-Explains idx (set_msb (generation_of old)) old e b lo hi
                        (omega arith) (omega arith);
                  untouched = record {
                    slots = λ j h. ground (
                      arith,
                      slot_at-with_value a idx (set_msb (generation_of old)) j
                          (omega (arith, e.0.shape, b)),
                      h,
                    );
                    held = λ j h. ground (arith, h);
                    counts = ground arith;
                    size = ground arith;
                    buffer = refl;
                  };
                  earlier = λ j h. ground (arith, h);
                  past = λ j h k. ground (arith, h, k);
                }))
        ]
      ]
