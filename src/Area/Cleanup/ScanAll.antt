-- ===== src/Area/Cleanup/ScanAll.antt =====
-- The scan over the whole reader map.
use market_square.Base.{
  ℕ, zero, suc, ◌+◌, ◌^◌, ◌≤◌, ◌<◌, ◌≡◌, refl, inl, inr, ◌==◌, Bool-cases, arith,
}
use market_square.Arithmetics.Window.{generation_of}
use market_square.State.{World, tick}
use market_square.Map.{capacity, slot_at}
use market_square.Area.Invariant.{
  Counts, Later, Moment, tick-Moment, Later-trans, Later-refl, Ensures, Ensures-bind, Ensures-mono,
}
use market_square.Area.Cleanup.{scan_slot, scan_from}
use market_square.Area.Cleanup.Scan.{Passed, Passed-mono, scan_slot-Passed}

-- The slots `[idx, idx + n)` were passed: the minimum is now `least`, and none of them holds an
-- earlier message.
pub record Scanned {T : Type 0} (limit base : ℕ) (c : Counts) (w : World T) (old idx n : ℕ)
    (r : ℕ × World T) : Type 0 where
  pub after : Counts
  pub least : ℕ
  pub moment : Moment limit after r.1
  pub later : Later c w.mem after r.1.mem
  pub value : r.0 ≡ generation_of least
  pub less : least ≤ old
  pub floor : base ≤ least
  pub held : (j : ℕ) → idx ≤ j → j < idx + n → least ≤ after.held j

-- The first slot, then the others.
Scanned-cons :
    {T : Type 0} {limit base : ℕ} {c : Counts} {w : World T} {old idx n : ℕ} {p r : ℕ × World T}
    → (x : Passed limit base c w old idx p) → Scanned limit base x.after p.1 x.least (suc idx) n r
    → Scanned limit base c w old idx (suc n) r
Scanned-cons {idx} x s = record {
  after = s.after;
  least = s.least;
  moment = s.moment;
  later = Later-trans x.later s.later;
  value = s.value;
  less = omega (arith, s.less, x.less);
  floor = s.floor;
  held = λ j lo hi. elim (Bool-cases (j == idx)) [
    | inl e ↦ ground (arith, e, x.held, s.less, s.later.1 idx)
    | inr e ↦ s.held j (ground (arith, e)) (omega arith)
  ];
}

pub scan_from-Scanned :
    {T : Type 0} {limit base : ℕ} (fuel n idx old : ℕ) {c : Counts} (w : World T)
    → Moment limit c w
    → limit ≤ base + 2 ^ 61
    → base ≤ c.last_valid
    → base ≤ old
    → old ≤ c.read
    → idx + n ≤ capacity w.mem.reader_gens
    → Ensures (Scanned limit base c w old idx n) (scan_from fuel n idx (generation_of old) w)
unfolding scan_from
scan_from-Scanned fuel zero idx old {c} w m win bl bo r k = record {
  after = c;
  least = old;
  moment = m;
  later = Later-refl;
  value = refl;
  less = omega arith;
  floor = bo;
  held = λ j lo hi. absurd (omega arith);
}
scan_from-Scanned {limit} {base} fuel (suc n) idx old {c} w m win bl bo r k =
    let (c1, m1, l1) = tick-Moment m in
    let b : idx < capacity (tick w).mem.reader_gens = omega (arith, k, l1.0) in
    let here = m1.readers idx b in
    let reader_gen = (slot_at (tick w).mem.reader_gens idx).value in
    Ensures-bind (Passed limit base c w old idx) (Scanned limit base c w old idx (suc n))
      (scan_slot fuel idx (generation_of old) reader_gen (tick w))
      (λ p. scan_from fuel n (suc idx) p.0 p.1)
      (Ensures-mono _ _ (scan_slot fuel idx (generation_of old) reader_gen (tick w))
        (λ p x. Passed-mono {w = w} {v = tick w} l1 x)
        (scan_slot-Passed old idx fuel (c1.held idx) reader_gen (tick w) m1 b (record {
          window = win;
          floor = omega (arith, here, bl, l1.0);
          reached = omega arith;
          old_floor = bo;
          old_read = omega (arith, r, l1.0);
          word = here.word;
          value = here.value;
        })))
      (λ p x. rw x.value (
        Ensures-mono _ _ (scan_from fuel n (suc idx) (generation_of x.least) p.1)
          (λ q s. Scanned-cons x s)
          (scan_from-Scanned fuel n (suc idx) x.least p.1 x.moment win
            (omega (arith, bl, x.later.0)) x.floor (omega (arith, r, x.less, x.later.0))
            (omega (arith, k, x.later.0)))))
