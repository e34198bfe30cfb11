-- ===== src/Area/Cleanup/Claim.antt =====
-- The claim of a range by a cleanup, by compare-exchange on `last_valid_gen`.
use market_square.Base.{
  ℕ, zero, suc, ◌+◌, ◌^◌, ◌≤◌, ◌<◌, ◌≡◌, refl, ap, ◌∙◌, inl, inr, ◌==◌, leb, Bool-cases, ==_iff,
  arith,
}
use market_square.Arithmetics.{gen_lte_msb_masked}
use market_square.Arithmetics.Window.{generation_of, comparisons-generation_of}
use market_square.State.{AreaInner, World, tick, Result, ok, err, shared}
use market_square.Map.{capacity}
use market_square.Area.Invariant.{
  Counts, Later, Moment, tick-Moment, Later-trans, Later-refl, Ensures, Ensures-mono,
}
use market_square.Area.Slots.{compare_exchange-exchanged, compare_exchange-changed}
use market_square.Area.Cleanup.{CleanupError, claim_range, set_last_valid_gen}

-- A successful claim of `[l, new)` starts where `last_valid` stood and moves it to `new`; a failed
-- one found `last_valid` at `new` or later.
abbrev pub ClaimResult : Counts → Counts → ℕ → Result CleanupError ℕ → Type 0
ClaimResult c after new (ok old) =
    (l : ℕ) × (old ≡ generation_of l) × (c.last_valid ≤ l) × (l < new) × (after.last_valid ≡ new)
ClaimResult c after new (err e) = new ≤ after.last_valid

pub record Claimed {T : Type 0} (limit : ℕ) (c : Counts) (w : World T) (new : ℕ)
    (r : Result CleanupError ℕ × World T) : Type 0 where
  pub after : Counts
  pub moment : Moment limit after r.1
  pub later : Later c w.mem after r.1.mem
  pub result : ClaimResult c after new r.0

abbrev pub move_last_valid : Counts → ℕ → Counts
move_last_valid c new = record c { last_valid = new }

-- No slot of the reader map holds a message before `new`.
abbrev pub AllPast : {T : Type 0} → Counts → World T → ℕ → Type 0
AllPast c w new = (j : ℕ) → j < capacity w.mem.reader_gens → new ≤ c.held j

module _ {T : Type 0} {limit : ℕ} {c : Counts} {w : World T} where
  move_last_valid-Moment :
      (new : ℕ)
      → Moment limit c w
      → c.last_valid ≤ new
      → new ≤ c.read
      → AllPast c w new
      → Moment limit
          (move_last_valid c new)
          (record w { mem = set_last_valid_gen (generation_of new) w.mem })
  move_last_valid-Moment new m lo hi past = record {
    counters = ground (arith, m.counters);
    readers = λ j k. ground (arith, m.readers j k, past j k);
    fits = record { below = m.fits.below; window = m.fits.window };
    disciplined = m.disciplined;
  }

ClaimResult-mono :
    (c d after : Counts) (new : ℕ) (q : Result CleanupError ℕ)
    → c.last_valid ≤ d.last_valid
    → ClaimResult d after new q
    → ClaimResult c after new q
ClaimResult-mono c d after new (ok old) h (l, e, lo, hi, f) = (l, e, omega (arith, h, lo), hi, f)
ClaimResult-mono c d after new (err e) h r = r

Claimed-mono :
    {T : Type 0} {limit : ℕ} {c d : Counts} {w v : World T} {new : ℕ}
    {r : Result CleanupError ℕ × World T}
    → Later c w.mem d v.mem
    → Claimed limit d v new r
    → Claimed limit c w new r
Claimed-mono {c} {d} {new} {r} l x = record {
  after = x.after;
  moment = x.moment;
  later = Later-trans l x.later;
  result = ClaimResult-mono c d x.after new r.0 l.0.last_valid x.result;
}

pub claim_range-Claimed :
    {T : Type 0} {limit base : ℕ} (fuel v l new : ℕ) {c : Counts} (w : World T)
    → v ≡ generation_of l
    → Moment limit c w
    → limit ≤ base + 2 ^ 61
    → base ≤ l
    → l ≤ c.last_valid
    → base ≤ new
    → new ≤ c.read
    → AllPast c w new
    → Ensures (Claimed limit c w new) (claim_range shared fuel v (generation_of new) w)
unfolding claim_range
claim_range-Claimed zero v l new w ev m win bl lv bn nr past = tt
claim_range-Claimed {T} {limit} {base} (suc fuel) v l new {c} w ev m win bl lv bn nr past =
    let (c1, m1, l1) = tick-Moment m in
    let write = λ (a : AreaInner T). set_last_valid_gen (generation_of new) a in
    let order =
      ap (gen_lte_msb_masked (generation_of new)) ev
      ∙ (comparisons-generation_of new l (omega (arith, win, bl, nr, m.fits, m.counters))
          (omega (arith, win, bn, lv, m.fits, m.counters))).1 in
    let past1 : AllPast c1 (tick w) new =
      λ j k. omega (arith, past j (omega (arith, k, l1.0)), l1.1 j) in
    let field = λ (a : AreaInner T). a.last_valid_gen in
    elim (Bool-cases (leb new l)) [
      | inl done ↦
          rw (order, done, claim_range)
            (record {
              after = c;
              moment = m;
              later = Later-refl;
              result = ground (arith, done, lv);
            })
      | inr more ↦ elim (Bool-cases ((tick w).mem.last_valid_gen == v)) [
        | inl same ↦
            let stood : c1.last_valid ≡ l =
              omega (arith, (==_iff _ v).0 same, ev, m1.counters, m1.fits, win, bl, lv, l1.0) in
            let won = compare_exchange-exchanged field write v w ((==_iff _ v).0 same) in
            rw (order, more, won, claim_range)
              (rw won (record {
                after = move_last_valid c1 new;
                moment =
                    move_last_valid-Moment new m1 (ground (arith, stood, more))
                      (omega (arith, nr, l1.0)) past1;
                later = (ground (arith, stood, more, l1.0), l1.1);
                result = (l, ev, omega (arith, stood, l1.0), ground (arith, more), refl);
              }))
        | inr other ↦
            let lost = compare_exchange-changed field write v w other in
            rw (order, more, lost, claim_range)
              (rw lost (
                Ensures-mono _ _
                  (claim_range shared fuel (tick w).mem.last_valid_gen (generation_of new) (tick w))
                  (λ r x. Claimed-mono {w = w} {v = tick w} l1 x)
                  (claim_range-Claimed fuel (tick w).mem.last_valid_gen c1.last_valid new (tick w)
                    m1.counters.last_valid m1 win (omega (arith, bl, lv, l1.0)) (omega arith) bn
                    (omega (arith, nr, l1.0)) past1)))
      ]
    ]
