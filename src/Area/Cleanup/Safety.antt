-- ===== src/Area/Cleanup/Safety.antt =====
-- The guarantee of a whole cleanup among disciplined other threads.
use market_square.Base.{ℕ, ◌+◌, ◌^◌, ◌≤◌, ◌≡◌, inl, inr, Bool, Bool-cases, arith}
use market_square.Arithmetics.{gen_gte_msb_masked}
use market_square.Arithmetics.Window.{generation_of}
use market_square.State.{World, tick, Result, ok, err, returned, panicked, spinning, shared}
use market_square.Map.{capacity}
use market_square.Area.Invariant.{
  Counts, Later, Moment, tick-Moment, Later-trans, Ensures, Ensures-mono, Ensures-bind,
}
use market_square.Area.Cleanup.{
  CleanupError, nothing_to_clean, CleanupResult, scan_from, advance_to, try_cleanup_old_slots,
}
use market_square.Area.Cleanup.ScanAll.{Scanned, scan_from-Scanned}
use market_square.Area.Cleanup.Advance.{CleanupOutcome, Cleaned, advance_to-Cleaned}

CleanupOutcome-mono :
    {T : Type 0} (c d after : Counts) (w : World T) (q : Result CleanupError CleanupResult)
    → c.last_valid ≤ d.last_valid
    → CleanupOutcome d after w q
    → CleanupOutcome c after w q
CleanupOutcome-mono c d after w (ok r) h x = record {
  from = x.from;
  new = x.new;
  old_last_valid = x.old_last_valid;
  new_last_valid = x.new_last_valid;
  slots_cleaned = x.slots_cleaned;
  was_valid = omega (arith, h, x.was_valid);
  some_slots = x.some_slots;
  past = x.past;
  freed = x.freed;
}
CleanupOutcome-mono c d after w (err nothing_to_clean) h x = tt

Cleaned-mono :
    {T : Type 0} {limit : ℕ} {c d : Counts} {w v : World T}
    {r : Result CleanupError CleanupResult × World T}
    → Later c w.mem d v.mem
    → Cleaned limit d v r
    → Cleaned limit c w r
Cleaned-mono {c} {d} {r} l x = record {
  after = x.after;
  moment = x.moment;
  later = Later-trans l x.later;
  result = CleanupOutcome-mono c d x.after r.1 r.0 l.0.last_valid x.result;
}

scanned-Cleaned :
    {T : Type 0} {limit base : ℕ} (needs_drop : Bool) (fuel v l u : ℕ) {c : Counts} (w : World T)
    → v ≡ generation_of l
    → u ≡ generation_of c.read
    → Moment limit c w
    → limit ≤ base + 2 ^ 61
    → base ≤ c.free
    → base ≤ l
    → l ≤ c.last_valid
    → Ensures (Cleaned limit c w) (elim (scan_from fuel (capacity w.mem.reader_gens) 0 u w) [
      | returned (min_held_gen, w') ↦ advance_to shared needs_drop fuel v min_held_gen w'
      | panicked ↦ panicked
      | spinning ↦ spinning
    ])
scanned-Cleaned {T} {limit} {base} needs_drop fuel v l u {c} w ev eu m win bf bl lv =
    let size = capacity w.mem.reader_gens in
    rw eu (
      Ensures-bind (Scanned limit base c w c.read 0 size) (Cleaned limit c w)
        (scan_from fuel size 0 (generation_of c.read) w)
        (λ p. advance_to shared needs_drop fuel v p.0 p.1)
        (scan_from-Scanned fuel size 0 c.read w m win (omega (arith, bf, m.counters))
          (omega (arith, bf, m.counters)) (omega arith) (omega arith))
        (λ p s. rw s.value (
          Ensures-mono _ _ (advance_to shared needs_drop fuel v (generation_of s.least) p.1)
            (λ r x. Cleaned-mono {w = w} {v = p.1} s.later x)
            (advance_to-Cleaned {base = base} needs_drop fuel v l s.least p.1 ev s.moment win
              (omega (arith, bf, s.later.0)) bl (omega (arith, lv, s.later.0)) s.floor
              (omega (arith, s.less, s.later.0))
              (λ j k. s.held j (omega arith) (omega (arith, k, s.later.0)))))))

-- Whatever disciplined other threads do between its accesses, readers that register, advance,
-- suspend or resume and other cleanups included, a coordinated cleanup never panics, and when it
-- returns the invariant holds, in which no slot of the reader map holds a message that is no longer
-- valid. What it reports cleaned is a non-empty range that begins no earlier than the valid
-- messages did at the call; every reader slot is past it, and it is free for writing.
pub try_cleanup_old_slots-Cleaned :
    {T : Type 0} {limit : ℕ} (needs_drop : Bool) (fuel : ℕ) {c : Counts} (w : World T)
    → Moment limit c w
    → Ensures (Cleaned limit c w) (try_cleanup_old_slots shared needs_drop fuel w)
unfolding try_cleanup_old_slots
try_cleanup_old_slots-Cleaned {T} {limit} needs_drop fuel {c} w m =
    let (c1, m1, l1) = tick-Moment m in
    let (c2, m2, l2) = tick-Moment m1 in
    let l = Later-trans l1 l2 in
    let w2 = tick (tick w) in
    let last_valid = (tick w).mem.last_valid_gen in
    elim (Bool-cases (gen_gte_msb_masked last_valid w2.mem.read_gen)) [
      | inl nothing ↦ rw nothing (record { after = c2; moment = m2; later = l; result = tt })
      | inr something ↦ rw something (
          Ensures-mono _ _
            (elim (scan_from fuel (capacity w2.mem.reader_gens) 0 w2.mem.read_gen w2) [
              | returned (min_held_gen, w') ↦
                  advance_to shared needs_drop fuel last_valid min_held_gen w'
              | panicked ↦ panicked
              | spinning ↦ spinning
            ])
            (λ r x. Cleaned-mono {w = w} {v = w2} l x)
            (scanned-Cleaned {base = c.free} needs_drop fuel last_valid c1.last_valid
              w2.mem.read_gen w2 m1.counters.last_valid m2.counters.read m2 m.fits.window
              (omega (arith, l.0)) (omega (arith, m.counters, l1.0)) (omega (arith, l2.0))))
    ]
