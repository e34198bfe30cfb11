-- ===== src/Area/Cleanup/Release.antt =====
-- The drops of a cleanup, and the release of its range by compare-exchange on `free_gen`.
use market_square.Base.{
  ℕ, zero, suc, ◌+◌, ◌^◌, ◌≤◌, ◌≡◌, inl, inr, none, ◌==◌, Bool-cases, ==_iff, arith,
}
use market_square.Arithmetics.{gen_add_msb_masked}
use market_square.Arithmetics.Window.{generation_of}
use market_square.State.{AreaInner, World, tick, shared}
use market_square.Area.{write_slot}
use market_square.Area.Invariant.{
  Counts, Later, Moment, tick-Moment, Later-trans, Later-refl, Ensures, Ensures-mono,
}
use market_square.Area.Slots.{compare_exchange-exchanged, compare_exchange-changed}
use market_square.Area.Cleanup.{drop_range, release_range, set_free_gen}

-- The drops touch the buffer alone.
pub drop_range-Moment :
    {T : Type 0} {limit : ℕ} (v n offset : ℕ) {c : Counts} (w : World T)
    → Moment limit c w
    → (c' : Counts) × Moment limit c' (drop_range v n offset w)
      × Later c w.mem c' (drop_range v n offset w).mem
unfolding drop_range
drop_range-Moment v zero offset {c} w m = (c, m, Later-refl)
drop_range-Moment v (suc n) offset w m =
    let (c1, m1, l1) = tick-Moment m in
    let w1 = write_slot (gen_add_msb_masked v offset) none w in
    let m1' : Moment _ c1 w1 = record {
      counters = ground (arith, m1.counters);
      readers = m1.readers;
      fits = m1.fits;
      disciplined = m1.disciplined;
    } in
    let (c2, m2, l2) = drop_range-Moment v n (offset + 1) w1 m1' in
    (c2, m2, Later-trans {b = w1.mem} (omega (arith, l1.0), l1.1) l2)

pub record Released {T : Type 0} (limit : ℕ) (c : Counts) (w : World T) (new : ℕ)
    (r : Unit {0} × World T) : Type 0 where
  pub after : Counts
  pub moment : Moment limit after r.1
  pub later : Later c w.mem after r.1.mem
  pub freed : new ≤ after.free

pub release_range-Released :
    {T : Type 0} {limit base : ℕ} (fuel v l new : ℕ) {c : Counts} (w : World T)
    → v ≡ generation_of l
    → Moment limit c w
    → limit ≤ base + 2 ^ 61
    → base ≤ c.free
    → base ≤ l
    → l ≤ new
    → new ≤ c.last_valid
    → Ensures (Released limit c w new) (release_range shared fuel v (generation_of new) w)
unfolding release_range
release_range-Released zero v l new w ev m win bf bl ln nl = tt
release_range-Released {T} (suc fuel) v l new {c} w ev m win bf bl ln nl =
    let (c1, m1, l1) = tick-Moment m in
    let write = λ (a : AreaInner T). set_free_gen (generation_of new) a in
    let field = λ (a : AreaInner T). a.free_gen in
    elim (Bool-cases ((tick w).mem.free_gen == v)) [
      | inl same ↦
          let won = compare_exchange-exchanged field write v w ((==_iff _ v).0 same) in
          let stood : c1.free ≡ l =
            omega
              (arith, (==_iff _ v).0 same, ev, m1.counters, m1.fits, win, bf, bl, nl, ln, l1.0) in
          rw (won, release_range)
            (rw won (record {
              after = record c1 { free = new };
              moment = record {
                counters = ground (arith, m1.counters, stood, ln, nl, l1.0);
                readers = λ j k. ground (arith, m1.readers j k);
                fits = record { below = m1.fits.below; window = omega (arith, m1.fits, stood, ln) };
                disciplined = m1.disciplined;
              };
              later = (omega (arith, l1.0, stood, ln), l1.1);
              freed = omega arith;
            }))
      | inr other ↦
          let lost = compare_exchange-changed field write v w other in
          rw (lost, release_range)
            (rw lost (
              Ensures-mono _ _ (release_range shared fuel v (generation_of new) (tick w))
                (λ r x. record {
                  after = x.after;
                  moment = x.moment;
                  later = Later-trans l1 x.later;
                  freed = x.freed;
                })
                (release_range-Released fuel v l new (tick w) ev m1 win (omega (arith, bf, l1.0)) bl
                  ln (omega (arith, nl, l1.0)))))
    ]
