-- ===== src/Area/Cleanup/Advance.antt =====
-- A cleanup from its claim on: the claimed range is cleaned and released.
use market_square.Base.{
  ℕ, ◌+◌, ◌-◌, ◌^◌, ◌≤◌, ◌<◌, ◌≡◌, Bool, true, false, if◌then◌else◌, ap, ◌∙◌, refl, arith,
}
use market_square.Arithmetics.{gen_dist_msb_masked}
use market_square.Arithmetics.Window.{generation_of, dist-generation_of}
use market_square.State.{World, Result, ok, err, returned, shared}
use market_square.Area.Invariant.{
  Counts, Later, Moment, Later-trans, Later-refl, Ensures, Ensures-mono, Ensures-bind,
}
use market_square.Area.Cleanup.{
  CleanupError, nothing_to_clean, CleanupResult, claim_range, drop_range, release_range,
  clean_range, advance_to,
}
use market_square.Area.Cleanup.Claim.{ClaimResult, Claimed, AllPast, claim_range-Claimed}
use market_square.Area.Cleanup.Release.{drop_range-Moment, Released, release_range-Released}

-- The messages `[from, new)` were cleaned: they begin no earlier than the valid ones did, every
-- slot of the reader map is past them, and they are free.
pub record CleanedRange {T : Type 0} (c c' : Counts) (w' : World T) (r : CleanupResult)
    : Type 0 where
  pub from : ℕ
  pub new : ℕ
  pub old_last_valid : r.old_last_valid ≡ generation_of from
  pub new_last_valid : r.new_last_valid ≡ generation_of new
  pub slots_cleaned : r.slots_cleaned ≡ new - from
  pub was_valid : c.last_valid ≤ from
  pub some_slots : from < new
  pub past : AllPast c' w' new
  pub freed : new ≤ c'.free

abbrev pub CleanupOutcome :
    {T : Type 0} → Counts → Counts → World T → Result CleanupError CleanupResult → Type 0
CleanupOutcome c c' w' (ok r) = CleanedRange c c' w' r
CleanupOutcome c c' w' (err nothing_to_clean) = Unit {0}

pub record Cleaned {T : Type 0} (limit : ℕ) (c : Counts) (w : World T)
    (r : Result CleanupError CleanupResult × World T) : Type 0 where
  pub after : Counts
  pub moment : Moment limit after r.1
  pub later : Later c w.mem after r.1.mem
  pub result : CleanupOutcome c after r.1 r.0

dropped-Moment :
    {T : Type 0} {limit : ℕ} (needs_drop : Bool) (v n : ℕ) {c : Counts} (w : World T)
    → Moment limit c w
    → let w' = if needs_drop then drop_range v n 0 w else w in
      (c' : Counts) × Moment limit c' w' × Later c w.mem c' w'.mem
dropped-Moment true v n w m = drop_range-Moment v n 0 w m
dropped-Moment false v n {c} w m = (c, m, Later-refl)

AllPast-mono :
    {T : Type 0} {c d : Counts} (w v : World T) (new : ℕ)
    → Later c w.mem d v.mem
    → AllPast c w new
    → AllPast d v new
AllPast-mono w v new l p = λ j k. omega (arith, p j (omega (arith, k, l.0)), l.1 j)

-- After a claim from `l` to `new`.
clean_range-Cleaned :
    {T : Type 0} {limit base : ℕ} (needs_drop : Bool) (fuel v l new : ℕ) {c : Counts} (w : World T)
    → v ≡ generation_of l
    → Moment limit c w
    → limit ≤ base + 2 ^ 61
    → base ≤ c.free
    → base ≤ l
    → l < new
    → c.last_valid ≡ new
    → Ensures
        (λ r.
          (after : Counts) × Moment limit after r.1
          × Later c w.mem after r.1.mem
          × ((q : CleanupResult) × (r.0 ≡ ok q)
              × (q.old_last_valid ≡ generation_of l)
              × (q.new_last_valid ≡ generation_of new)
              × (q.slots_cleaned ≡ new - l))
          × (new ≤ after.free))
        (clean_range shared needs_drop fuel v (generation_of new) w)
unfolding clean_range
clean_range-Cleaned needs_drop fuel v l new {c} w ev m win bf bl lt lv =
    let n = gen_dist_msb_masked (generation_of new) v in
    let counted : n ≡ new - l =
      ap (gen_dist_msb_masked (generation_of new)) ev
      ∙ dist-generation_of new l (omega arith) (omega (arith, lv, m.counters, m.fits, win, bl)) in
    let (c1, m1, l1) = dropped-Moment needs_drop v n w m in
    let w1 = if needs_drop then drop_range v n 0 w else w in
    Ensures-bind (Released _ c1 w1 new) _ (release_range shared fuel v (generation_of new) w1) _
      (release_range-Released fuel v l new w1 ev m1 win (omega (arith, bf, l1.0)) bl (omega arith)
        (omega (arith, lv, l1.0)))
      (λ r x. (
        x.after,
        x.moment,
        Later-trans l1 x.later,
        (
          record { old_last_valid = v; new_last_valid = generation_of new; slots_cleaned = n },
          refl,
          ev,
          refl,
          counted,
        ),
        x.freed,
      ))

-- From the loaded `last_valid` of message `l` and a minimum `new` that all slots are past.
pub advance_to-Cleaned :
    {T : Type 0} {limit base : ℕ} (needs_drop : Bool) (fuel v l new : ℕ) {c : Counts} (w : World T)
    → v ≡ generation_of l
    → Moment limit c w
    → limit ≤ base + 2 ^ 61
    → base ≤ c.free
    → base ≤ l
    → l ≤ c.last_valid
    → base ≤ new
    → new ≤ c.read
    → AllPast c w new
    → Ensures (Cleaned limit c w) (advance_to shared needs_drop fuel v (generation_of new) w)
unfolding advance_to
advance_to-Cleaned {T} {limit} {base} needs_drop fuel v l new {c} w ev m win bf bl lv bn nr past =
    Ensures-bind (Claimed limit c w new) (Cleaned limit c w)
      (claim_range shared fuel v (generation_of new) w) _
      (claim_range-Claimed fuel v l new w ev m win bl lv bn nr past)
      (λ r x. claimed r.0 r.1 x.after x.moment x.later x.result)
  where
    claimed :
        (q : Result CleanupError ℕ) (w1 : World T) (c1 : Counts)
        → Moment limit c1 w1
        → Later c w.mem c1 w1.mem
        → ClaimResult c c1 new q
        → Ensures (Cleaned limit c w) (elim q [
          | ok from ↦ clean_range shared needs_drop fuel from (generation_of new) w1
          | err e ↦ returned (err e, w1)
        ])
    claimed (err nothing_to_clean) w1 c1 m1 l1 r = record {
      after = c1;
      moment = m1;
      later = l1;
      result = tt;
    }
    claimed (ok from) w1 c1 m1 l1 (k, ek, lo, hi, f) =
        Ensures-mono _ _ (clean_range shared needs_drop fuel from (generation_of new) w1)
          (λ r x.
            let (after, moment, later, (q, e, old, end, cleaned), freed) = x in
            record {
              after = after;
              moment = moment;
              later = Later-trans l1 later;
              result = rw e (record {
                from = k;
                new = new;
                old_last_valid = old;
                new_last_valid = end;
                slots_cleaned = cleaned;
                was_valid = lo;
                some_slots = hi;
                past = AllPast-mono w r.1 new (Later-trans l1 later) past;
                freed = freed;
              });
            })
          (clean_range-Cleaned {base = base} needs_drop fuel from k new w1 ek m1 win
            (omega (arith, bf, l1.0)) (omega (arith, bf, m.counters, lo)) hi f)
