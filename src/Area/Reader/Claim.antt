-- ===== src/Area/Reader/Claim.antt =====
-- The claim of a map slot by a folding insertion, among disciplined other threads.
use mathlib.Core.Path.{subst}
use native.Mathlib.Nat.{mod-lt, mod-add-mod}
use market_square.Base.{
  ℕ, zero, suc, ◌+◌, ◌%◌, ◌<◌, ◌≡◌, ◌≢◌, ◌⊎◌, inl, inr, refl, sym, ap, ◌∙◌, Option, none, some,
  true, ◌==◌, length, length-set, get_or-set_self, get_or-set_ne, Bool-cases, ==_iff, arith,
}
use market_square.Arithmetics.{wrapping_add}
use market_square.State.{Slot, AreaInner, World, tick}
use market_square.Map.{
  capacity, slot_at, empty_key, key_bits, is_in_progress, new_key_for, with_key, Probe, probe_slot,
  probe_from, try_claim, compare_exchange_key, load_key, fetch_clear_in_progress, finish_init_at,
}
use market_square.Map.Home.{IsSized, new_key_for-home}
use market_square.Area.Invariant.{Counts, Later, Moment, tick-Moment, Later-trans, Later-refl}
use market_square.Area.Reader.Moves.{Kept, Kept-mono}

module _ {T : Type 0} (a : AreaInner T) (idx k : ℕ) where
  pub value-with_key :
      (j : ℕ)
      → idx < length a.reader_gens.slots
      → (slot_at (with_key a idx k).reader_gens j).value ≡ (slot_at a.reader_gens j).value
  value-with_key j b = elim (Bool-cases (j == idx)) [
    | inl e ↦
        rw ((==_iff j idx).0 e)
          (ap (λ (s : Slot). s.value) (get_or-set_self a.reader_gens.slots idx _ _ b))
    | inr e ↦
        ap (λ (s : Slot). s.value) (get_or-set_ne a.reader_gens.slots idx j _ _ (ground (arith, e)))
  ]

module _ {T : Type 0} {limit : ℕ} {c : Counts} (w : World T) (idx k : ℕ) where
  -- A write of a key moves no generation.
  pub with_key-Moment :
      Moment limit c w
      → idx < capacity w.mem.reader_gens
      → Moment limit c (record w { mem = with_key w.mem idx k })
  with_key-Moment m b = record {
    counters = ground (
      arith,
      m.counters,
      length-set w.mem.reader_gens.slots idx (record (slot_at w.mem.reader_gens idx) { key = k }),
    );
    readers = λ j h.
        ground
          (arith, value-with_key w.mem idx k j (omega (arith, m.counters.shape, b)), m.readers j h);
    fits = record { below = m.fits.below; window = m.fits.window };
    disciplined = m.disciplined;
  }

-- The claimed slot is the home of the key stored there, which is not the empty one.
pub record IsHomed (cap : ℕ) (p : Probe) : Type 0 where
  pub ptr : p.ptr ≡ some p.index
  pub within : p.index < cap
  pub at_home : key_bits p.k % cap ≡ p.index
  pub named : key_bits p.k ≢ 0

abbrev pub Claimed : {T : Type 0} → ℕ → Counts → World T → Option Probe → Type 0
Claimed cap c w none = Unit {0}
Claimed cap c w (some p) = IsHomed cap p

abbrev pub Probed : {T : Type 0} → ℕ → Counts → World T → Probe → Type 0
Probed cap c w p = (p.ptr ≡ none) ⊎ IsHomed cap p

module _ {T : Type 0} {limit cap : ℕ} (key offset : ℕ) (s : IsSized cap) where
  probe_slot-Kept :
      (i idx : ℕ) {c : Counts} (w : World T)
      → Moment limit c w
      → capacity w.mem.reader_gens ≡ cap
      → idx ≡ (wrapping_add key offset + i) % cap
      → Kept limit c w (Claimed cap) (probe_slot key offset true true i idx w)
  unfolding probe_slot
  probe_slot-Kept i idx {c} w m size e =
      let positive : 0 < cap = omega (arith, size) in
      let (c1, m1, l1) = tick-Moment m in
      let (c2, m2, l2) = tick-Moment m1 in
      let w1 = tick w in
      let w2 = tick w1 in
      let l = Later-trans l1 l2 in
      let b : idx < capacity w2.mem.reader_gens =
        omega (arith, e, size, l.0, mod-lt (wrapping_add key offset + i) positive) in
      let same : capacity w1.mem.reader_gens ≡ cap = omega (arith, size, l1.0) in
      let new = new_key_for w1.mem.reader_gens true key offset i in
      let homed : (key_bits new % cap ≡ idx) × (key_bits new ≢ 0) =
        let h = new_key_for-home w1.mem.reader_gens key offset i (subst IsSized (sym same) s) in
        (
          ap (λ n. key_bits new % n) (sym same)
              ∙ (h.0 ∙ (ap (λ n. (wrapping_add key offset + i) % n) same ∙ sym e)),
          h.1,
        ) in
      elim (Bool-cases ((slot_at w1.mem.reader_gens idx).key == empty_key)) [
        | inr taken ↦
            rw (taken, probe_slot, load_key)
              (rw (taken, load_key) (record { after = c1; moment = m1; later = l1; result = tt }))
        | inl empty ↦ elim (Bool-cases ((slot_at w2.mem.reader_gens idx).key == empty_key)) [
          | inr lost ↦
              rw (empty, lost, probe_slot, load_key, try_claim, compare_exchange_key)
                (rw (empty, lost, load_key, try_claim, compare_exchange_key)
                  (rw (lost, load_key, compare_exchange_key)
                    (record { after = c2; moment = m2; later = l; result = tt })))
          | inl won ↦
              rw (empty, won, probe_slot, load_key, try_claim, compare_exchange_key)
                (rw (empty, won, load_key, try_claim, compare_exchange_key)
                  (rw (won, load_key, compare_exchange_key)
                    (record {
                      after = c2;
                      moment = with_key-Moment w2 idx new m2 b;
                      later = (omega (arith, l.0), l.1);
                      result = record {
                        ptr = refl;
                        within = omega (arith, b, l.0, size);
                        at_home = homed.0;
                        named = homed.1;
                      };
                    })))
        ]
      ]

  -- A round that claims a slot, or leaves it to the rounds after it.
  round-Kept :
      {c d : Counts} (w w1 : World T) (found : Option Probe) (rest : Probe × World T)
      → Moment limit d w1
      → Later c w.mem d w1.mem
      → Claimed cap d w1 found
      → Kept limit d w1 (Probed cap) rest
      → Kept limit c w (Probed cap) (elim found [ some p ↦ (p, w1) | none ↦ rest ])
  round-Kept {d} w w1 (some p) rest m l r k = record {
    after = d;
    moment = m;
    later = l;
    result = inr r;
  }
  round-Kept w w1 none rest m l r k = Kept-mono {w = w} {v = w1} l k

  -- The loop of an insertion, from probe distance `i` on.
  pub probe_from-Kept :
      (n i idx : ℕ) {c : Counts} (w : World T)
      → Moment limit c w
      → capacity w.mem.reader_gens ≡ cap
      → idx ≡ (wrapping_add key offset + i) % cap
      → Kept limit c w (Probed cap) (probe_from key offset true true n i idx w)
  unfolding probe_from
  probe_from-Kept zero i idx {c} w m size e = record {
    after = c;
    moment = m;
    later = Later-refl;
    result = inl refl;
  }
  probe_from-Kept (suc n) i idx {c} w m size e =
      let x = probe_slot-Kept i idx w m size e in
      let r = probe_slot key offset true true i idx w in
      let next = (idx + 1) % capacity w.mem.reader_gens in
      round-Kept w r.1 r.0 (probe_from key offset true true n (i + 1) next r.1) x.moment x.later
        x.result
        (probe_from-Kept n (i + 1) next r.1 x.moment (omega (arith, size, x.later.0)) (
          ap (λ k. (idx + 1) % k) size
          ∙ (ap (λ k. (k + 1) % cap) e
              ∙ (mod-add-mod (wrapping_add key offset + i) cap 1
                  ∙ ap (λ k. k % cap) (omega arith)))))

module _ {T : Type 0} {limit : ℕ} {c : Counts} (w : World T) where
  pub finish_init_at-Moment :
      (idx : ℕ)
      → Moment limit c w
      → idx < capacity w.mem.reader_gens
      → let w' = finish_init_at idx w in
        (after : Counts) × Moment limit after w' × Later c w.mem after w'.mem
  unfolding finish_init_at
  finish_init_at-Moment idx m b =
      let (c1, m1, l1) = tick-Moment m in
      let (c2, m2, l2) = tick-Moment m1 in
      let l = Later-trans l1 l2 in
      elim (Bool-cases (is_in_progress (slot_at (tick w).mem.reader_gens idx).key)) [
        | inl e ↦
            rw (e, finish_init_at, load_key, fetch_clear_in_progress)
              (
                c2,
                with_key-Moment (tick (tick w)) idx _ m2 (omega (arith, b, l.0)),
                (omega (arith, l.0), l.1),
              )
        | inr e ↦ rw (e, finish_init_at, load_key) (c1, m1, l1)
      ]
