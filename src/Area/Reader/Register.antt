-- ===== src/Area/Reader/Register.antt =====
-- src/area.rs: `register_reader_with_seed`, among disciplined other threads.
use market_square.Base.{
  ℕ, zero, suc, ◌%◌, ◌^◌, ◌<◌, ◌≡◌, ◌≢◌, inl, inr, refl, sym, ap, ◌∙◌, none, some, true, ◌==◌,
  if◌then◌else◌, Bool-cases, ==_iff, arith,
}
use market_square.Arithmetics.{clear_msb, gen_without_suspended_bit}
use market_square.State.{World, tick, Result, ok, err, returned}
use market_square.Map.{
  zero_offset, capacity, slot_at, key_bits, index_for, max_probes, Probe, get_or_insert_concurrent,
  finish_init_at,
}
use market_square.Map.Home.{IsSized, word-mod}
use market_square.Area.Invariant.{
  Counts, Later, Moment, tick-Moment, Later-trans, Ensures, Ensures-mono,
}
use market_square.Area.Slots.{compare_exchange_value-exchanged, compare_exchange_value-changed}
use market_square.Area.Reader.{
  RegisterError, reader_capacity_reached, usable_seed, enter, register_reader_with_seed,
}
use market_square.Area.Reader.Moves.{home, Kept, Kept-mono}
use market_square.Area.Reader.Enter.{IsActiveAt, entered}
use market_square.Area.Reader.Claim.{Probed, probe_from-Kept, finish_init_at-Moment}

-- The new reader is active, in the slot where a lookup of its id looks.
abbrev pub Registered : {T : Type 0} → World T → Counts → World T → Result RegisterError ℕ → Type 0
Registered w c w' (ok reader_id) = IsActiveAt c (home w reader_id) w' × (reader_id ≢ 0)
Registered w c w' (err reader_capacity_reached) = Unit {0}

abbrev EnteredAs : {T : Type 0} → ℕ → ℕ → Counts → World T → Result RegisterError ℕ → Type 0
EnteredAs idx reader_id c w (ok found) = (found ≡ reader_id) × IsActiveAt c idx w
EnteredAs idx reader_id c w (err reader_capacity_reached) = ⊥

enter-Kept :
    {T : Type 0} {limit : ℕ} (fuel idx reader_id : ℕ) {c : Counts} (w : World T)
    → Moment limit c w
    → idx < capacity w.mem.reader_gens
    → Ensures (Kept limit c w (EnteredAs idx reader_id)) (enter fuel idx reader_id w)
unfolding enter gen_without_suspended_bit
enter-Kept zero idx reader_id w m b = tt
enter-Kept (suc fuel) idx reader_id {c} w m b =
    let (c1, m1, l1) = tick-Moment m in
    let (c2, m2, l2) = tick-Moment m1 in
    let l = Later-trans l1 l2 in
    let w1 = tick w in
    let b1 : idx < capacity w1.mem.reader_gens = omega (arith, b, l1.0) in
    let b2 : idx < capacity (tick w1).mem.reader_gens = omega (arith, b1, l2.0) in
    let current = (slot_at w1.mem.reader_gens idx).value in
    let found = (slot_at (tick w1).mem.reader_gens idx).value in
    elim (Bool-cases (found == current)) [
      | inl same ↦
          let e = (==_iff found current).0 same in
          let won = compare_exchange_value-exchanged idx current (clear_msb current) w1 e in
          let here = m2.readers idx b2 in
          let x =
            entered w1 idx (clear_msb current) (c2.held idx) m2 l2 b1 (omega arith)
              (omega (arith, here)) (ap clear_msb (sym e) ∙ here.value) in
          rw (won, enter)
            (rw won (record {
              after = x.0;
              moment = x.1;
              later = Later-trans l1 x.2;
              result = (refl, x.3);
            }))
      | inr other ↦
          let lost = compare_exchange_value-changed idx current (clear_msb current) w1 other in
          rw (lost, enter)
            (rw lost (
              Ensures-mono _ _ (enter fuel idx reader_id (tick w1))
                (λ r p. Kept-mono {w = w} {v = tick w1} l p)
                (enter-Kept fuel idx reader_id (tick w1) m2 b2)))
    ]

pub home-eq :
    {T : Type 0} (w : World T) (reader_id : ℕ)
    → IsSized (capacity w.mem.reader_gens)
    → home w reader_id ≡ reader_id % capacity w.mem.reader_gens
unfolding index_for
home-eq w reader_id s =
    ap (λ k. k % 2 ^ 64 % capacity w.mem.reader_gens) (omega arith) ∙ word-mod s reader_id

EnteredAs-Registered :
    {T : Type 0} (w : World T) (idx reader_id : ℕ) (c : Counts) (w' : World T)
    (r : Result RegisterError ℕ)
    → home w reader_id ≡ idx
    → reader_id ≢ 0
    → EnteredAs idx reader_id c w' r
    → Registered w c w' r
EnteredAs-Registered w idx reader_id c w' (ok found) e z (same, active) = rw (same, e) (active, z)
EnteredAs-Registered w idx reader_id c w' (err reader_capacity_reached) e z x = absurd x

-- The rest of a registration, after its insertion.
module _ {T : Type 0} {limit : ℕ} {c d : Counts} (w : World T) (fuel : ℕ) (p : Probe)
    (w1 : World T) where
  settled :
      Moment limit d w1
      → Later c w.mem d w1.mem
      → IsSized (capacity w.mem.reader_gens)
      → Probed (capacity w.mem.reader_gens) d w1 p
      → Ensures (Kept limit c w (Registered w)) (elim p.ptr [
        | none ↦ returned (err reader_capacity_reached, w1)
        | some idx ↦ enter fuel idx (key_bits p.k) (finish_init_at p.index w1)
      ])
  settled m l s (inl full) = rw full (record { after = d; moment = m; later = l; result = tt })
  settled m l s (inr h) =
      let (c1, m1, l1) = finish_init_at-Moment w1 p.index m (omega (arith, h.within, l.0)) in
      let w2 = finish_init_at p.index w1 in
      let reader_id = key_bits p.k in
      rw h.ptr (
        Ensures-mono _ _ (enter fuel p.index reader_id w2)
          (λ r k. record {
            after = k.after;
            moment = k.moment;
            later = Later-trans l (Later-trans l1 k.later);
            result =
                EnteredAs-Registered w p.index reader_id k.after r.1 r.0
                  (home-eq w reader_id s ∙ h.at_home) h.named k.result;
          })
          (enter-Kept fuel p.index reader_id w2 m1 (omega (arith, h.within, l.0, l1.0))))

-- Whatever disciplined other threads do between its accesses, a registration never panics and keeps
-- the invariant, in a map whose capacity is a power of two. When it returns an id, that is not 0,
-- and the slot in which a lookup of the id looks is active at a message that is still valid.
pub register_reader_with_seed-Registered :
    {T : Type 0} {limit : ℕ} (fuel seed : ℕ) {c : Counts} (w : World T)
    → Moment limit c w
    → IsSized (capacity w.mem.reader_gens)
    → Ensures (Kept limit c w (Registered w)) (register_reader_with_seed fuel seed w)
unfolding register_reader_with_seed get_or_insert_concurrent index_for
register_reader_with_seed-Registered fuel seed {c} w m s =
    let cap = capacity w.mem.reader_gens in
    let key = usable_seed seed in
    let n = if cap == max_probes then cap else cap in
    let start = index_for w.mem.reader_gens key zero_offset in
    let x =
      probe_from-Kept key zero_offset s n 0 start w m refl (ap (λ k. k % cap) (omega arith)) in
    let r = get_or_insert_concurrent key zero_offset cap true true w in
    settled w fuel r.0 r.1 x.moment x.later s x.result
