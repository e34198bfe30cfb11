-- ===== src/ReadSlice/Rounds.antt =====
-- src/area.rs: what a reader's loop over `read_with_check` hears, round by round.
use market_square.Base.{
  ℕ, zero, suc, ◌+◌, ◌-◌, ◌%◌, ◌^◌, ◌≤◌, ◌<◌, ◌≡◌, sym, ap, ◌∙◌, inl, inr, Bool, true, List, [],
  ◌∷◌, refl, arith,
}
use market_square.Arithmetics.Window.{generation_of}
use market_square.State.{World, Result, ok, err, Outcome, shared, returned, panicked, spinning}
use market_square.Map.{capacity}
use market_square.Area.Cleanup.{CleanupError, CleanupResult, try_cleanup_old_slots}
use market_square.Area.Invariant.{
  Counts, Later, Moment, Later-trans, Later-refl, Ensures, Ensures-mono, Ensures-bind,
}
use market_square.Area.Reader.Moves.{home, home-lt, home-same, Kept}
use market_square.ReadSlice.{ReadSlice, ReadError, read_error, len, read_with_check, drop_slice}
use market_square.ReadSlice.Dropped.{Stands}
use market_square.ReadSlice.Checked.{Checked}
use market_square.ReadSlice.Listen.{
  listen, Heard, Heard-∷, Contiguous, AllRead, At, LookedAt, dropped, looked, cleaned_up,
}

abbrev Loop : Type 0 → Type 0
Loop T = Outcome ((List ReadSlice × ℕ × Bool) × World T)

abbrev after_rest : {T : Type 0} → ReadSlice → Loop T → Loop T
after_rest s o = elim o [
  | panicked ↦ panicked
  | spinning ↦ spinning
  | returned ((slices, total, done), w4) ↦ returned ((s ∷ slices, total, done), w4)
]

-- The rest of a round, after each of its calls.
module _ {T : Type 0} (fuel : ℕ) (needs_drop : Bool) (rounds reader_id count : ℕ) where
  abbrev after_drop : ReadSlice → Outcome (World T) → Loop T
  after_drop s o = elim o [
    | panicked ↦ panicked
    | spinning ↦ spinning
    | returned w3 ↦
        after_rest s (listen fuel needs_drop rounds reader_id ((count + len s) % 2 ^ 64) w3)
  ]

  abbrev after_cleanup : ReadSlice → Outcome (Result CleanupError CleanupResult × World T) → Loop T
  after_cleanup s o = elim o [
    | panicked ↦ panicked
    | spinning ↦ spinning
    | returned (_, w2) ↦ after_drop s (drop_slice s w2)
  ]

  abbrev after_check : Result ReadError ReadSlice × World T → Loop T
  after_check r = elim r.0 [
    | err _ ↦ returned (([], count, true), r.1)
    | ok s ↦ after_cleanup s (try_cleanup_old_slots shared needs_drop fuel r.1)
  ]

-- The same, and the reader got past all messages that were published at `c0`.
abbrev HeardSince :
    {T : Type 0} → Counts → ℕ → ℕ → ℕ → Counts → World T → List ReadSlice × ℕ × Bool → Type 0
HeardSince c0 x count idx c w r = Heard x count idx c w r × (c0.read ≤ c.held idx)

-- A slice takes the reader past what was published when the check began.
reaches :
    {T : Type 0} {limit : ℕ} {c0 c : Counts} {w w' : World T} (idx : ℕ) (s : ReadSlice)
    → Later c0 w.mem c w'.mem
    → Checked limit c0 w idx c w' (ok s)
    → c0.read ≤ c.held idx + len s
reaches idx s l k = elim k.4 [
  | inl all ↦ omega (arith, all, l.0)
  | inr none_new ↦ let n = none_new.1 in omega (arith, n.all_read, n.since.0, n.until.1 idx)
]

module _ {T : Type 0} (limit fuel : ℕ) (needs_drop : Bool) (rounds idx reader_id x count : ℕ) where
  -- The rounds after the one that dealt `s`.
  remaining_rounds :
      (s : ReadSlice) (c : Counts) {d : Counts} (w v : World T)
      → Later c w.mem d v.mem
      → s.start_gen ≡ generation_of x
      → s.end_gen ≡ generation_of (x + len s)
      → c.read ≤ x + len s
      → let n = (count + len s) % 2 ^ 64 in
        Ensures
          (Kept limit d v (Heard (x + len s) n idx))
          (listen fuel needs_drop rounds reader_id n v)
        → Ensures
            (Kept limit c w (HeardSince c x count idx))
            (after_rest s (listen fuel needs_drop rounds reader_id n v))
  remaining_rounds s c {d} w v l starts ends reach h =
      let n = (count + len s) % 2 ^ 64 in
      Ensures-bind (Kept limit d v (Heard (x + len s) n idx))
        (Kept limit c w (HeardSince c x count idx)) (listen fuel needs_drop rounds reader_id n v)
        (λ (r : (List ReadSlice × ℕ × Bool) × World T). returned ((s ∷ r.0.0, r.0.1, r.0.2), r.1)) h
        (λ (r : (List ReadSlice × ℕ × Bool) × World T) k. record {
          after = k.after;
          moment = k.moment;
          later = Later-trans l k.later;
          result = (
            Heard-∷ x count s idx k.after r.1 r.0 starts ends k.result,
            omega (arith, reach, k.result.2),
          );
        })

  -- One round, after its check.
  round :
      {c : Counts} (w : World T)
      → ((d : Counts) (u : World T) (y n : ℕ)
          → n < 2 ^ 64
          → Moment limit d u
          → home u reader_id ≡ idx
          → At idx reader_id y d u
          → Ensures (Kept limit d u (Heard y n idx)) (listen fuel needs_drop rounds reader_id n u))
      → count < 2 ^ 64
      → home w reader_id ≡ idx
      → (r : Result ReadError ReadSlice × World T)
      → Kept limit c w (LookedAt limit c w idx reader_id x) r
      → Ensures
          (Kept limit c w (HeardSince c x count idx))
          (after_check fuel needs_drop rounds reader_id count r)
  round {c} w next small e (err read_error, w1) k = record {
    after = k.after;
    moment = k.moment;
    later = k.later;
    result = (
      (
        sym k.result.1.0,
        omega (arith, small, k.result.1.0),
        omega (arith, k.result.1.0),
        k.result.0.1,
      ),
      omega (arith, k.later.0, k.result.0.1),
    );
  }
  round {c} w next small e (ok s, w1) k =
      let there : home w1 reader_id ≡ idx = home-same w w1 reader_id k.later.0.mask ∙ e in
      let at = k.result.1 in
      let starts = k.result.0.0 ∙ ap generation_of at.0 in
      let ends = k.result.0.1 ∙ ap (λ y. generation_of (y + len s)) at.0 in
      let b : idx < capacity w1.mem.reader_gens = omega (arith, home-lt w1 reader_id, there) in
      Ensures-bind _ _ (try_cleanup_old_slots shared needs_drop fuel w1) _
        (cleaned_up fuel needs_drop idx reader_id x w1 k.moment b at)
        (λ (q : Result CleanupError CleanupResult × World T) z.
          let w2 = q.1 in
          let there2 = home-same w1 w2 reader_id z.later.0.mask ∙ there in
          Ensures-bind _ _ (drop_slice s w2) _
            (dropped x idx reader_id s w2 z.moment there2 z.result starts ends
              (omega (arith, k.result.0.2, at.0, z.later.0)) k.result.2)
            (λ (w3 : World T) d.
              remaining_rounds s c w w3 (Later-trans k.later (Later-trans z.later d.later)) starts
                ends (omega (arith, reaches idx s k.later k.result.0, at.0))
                (next d.after w3 (x + len s) ((count + len s) % 2 ^ 64) (omega arith) d.moment
                  (home-same w2 w3 reader_id d.later.0.mask ∙ there2) d.result)))

-- The rounds of `listen`, at least one, after its first check.
first_round :
    {T : Type 0} {limit : ℕ} (fuel : ℕ) (needs_drop : Bool) (rounds x count idx reader_id : ℕ)
    {c : Counts} (w : World T)
    → ((d : Counts) (u : World T) (y n : ℕ)
        → n < 2 ^ 64
        → Moment limit d u
        → home u reader_id ≡ idx
        → At idx reader_id y d u
        → Ensures (Kept limit d u (Heard y n idx)) (listen fuel needs_drop rounds reader_id n u))
    → count < 2 ^ 64
    → Moment limit c w
    → home w reader_id ≡ idx
    → At idx reader_id x c w
    → Ensures
        (Kept limit c w (HeardSince c x count idx))
        (listen fuel needs_drop (suc rounds) reader_id count w)
unfolding listen
first_round {T} {limit} fuel needs_drop rounds x count idx reader_id {c} w next small m e at =
    Ensures-bind (Kept limit c w (LookedAt limit c w idx reader_id x))
      (Kept limit c w (HeardSince c x count idx)) (read_with_check reader_id w) _
      (looked idx reader_id x w m e at)
      (λ (r : Result ReadError ReadSlice × World T) k.
        round limit fuel needs_drop rounds idx reader_id x count w next small e r k)

heard :
    {T : Type 0} {limit : ℕ} (fuel : ℕ) (needs_drop : Bool) (rounds x count idx reader_id : ℕ)
    {c : Counts} (w : World T)
    → count < 2 ^ 64
    → Moment limit c w
    → home w reader_id ≡ idx
    → At idx reader_id x c w
    → Ensures (Kept limit c w (Heard x count idx)) (listen fuel needs_drop rounds reader_id count w)
unfolding listen
heard fuel needs_drop zero x count idx reader_id {c} w small m e at = record {
  after = c;
  moment = m;
  later = Later-refl;
  result = (sym at.0, omega (arith, at.0, small), omega (arith, at.0), tt);
}
heard {T} {limit} fuel needs_drop (suc rounds) x count idx reader_id {c} w small m e at =
    Ensures-mono _ _ (listen fuel needs_drop (suc rounds) reader_id count w)
      (λ (r : (List ReadSlice × ℕ × Bool) × World T) k. record {
        after = k.after;
        moment = k.moment;
        later = k.later;
        result = k.result.0;
      })
      (first_round fuel needs_drop rounds x count idx reader_id w
        (λ d u y n h m' e' at'. heard fuel needs_drop rounds y n idx reader_id u h m' e' at') small
        m e at)

-- The slices cover the messages from `x` to where the reader stands, past those published at `c0`,
-- and `total` is their number; an error left nothing unread.
abbrev pub HearsAll :
    {T : Type 0} → Counts → ℕ → ℕ → Counts → World T → List ReadSlice × ℕ × Bool → Type 0
HearsAll c0 x idx c w (slices, total, done) =
    Contiguous x slices (c.held idx)
    × (total ≡ c.held idx - x)
    × AllRead done (c.held idx) c.read
    × (c0.read ≤ c.held idx)

-- Whatever disciplined other threads do that leave the reader's key and its active slot alone: one or
-- more rounds of reading with a check, cleaning up and dropping the slice never panic and keep the
-- invariant. When they return, the slices cover the messages from where the reader stood up to where
-- it stands, each message once and in order, with all messages that were published at the start
-- among them, and `count`, which begins at 0, is their number. When the check ended the loop, the
-- reader stands past the last published message.
pub listen-Heard :
    {T : Type 0} {limit : ℕ} (fuel : ℕ) (needs_drop : Bool) (rounds reader_id x : ℕ) {c : Counts}
    (w : World T)
    → Moment limit c w
    → Stands (home w reader_id) reader_id (generation_of x) w
    → c.held (home w reader_id) ≡ x
    → Ensures
        (Kept limit c w (HearsAll c x (home w reader_id)))
        (listen fuel needs_drop (suc rounds) reader_id 0 w)
listen-Heard {T} {limit} fuel needs_drop rounds reader_id x {c} w m stands held =
    let idx = home w reader_id in
    let here = m.readers idx (home-lt w reader_id) in
    Ensures-mono _ _ (listen fuel needs_drop (suc rounds) reader_id 0 w)
      (λ (r : (List ReadSlice × ℕ × Bool) × World T) (k : Kept limit c w (HeardSince c x 0 idx) r).
        let there = k.moment.readers idx (omega (arith, home-lt w reader_id, k.later.0)) in
        record {
          after = k.after;
          moment = k.moment;
          later = k.later;
          result = (
            k.result.0.0,
            omega (
              arith, k.result.0.1, k.result.0.2, here, there, held, m.counters, m.fits,
              k.moment.counters, k.moment.fits,
            ),
            k.result.0.3,
            k.result.1,
          );
        })
      (first_round fuel needs_drop rounds x 0 idx reader_id w
        (λ d u y n h m' e' at'. heard fuel needs_drop rounds y n idx reader_id u h m' e' at')
        (omega arith) m refl (held, stands))
