-- ===== src/ReadSlice/Checked.antt =====
-- src/area.rs: `read_with_check`, which tells an empty slice from the end of the writers.
use mathlib.Core.Path.{subst}
use market_square.Base.{
  ℕ, ◌+◌, ◌-◌, ◌≤◌, ◌<◌, ◌⊎◌, false, ◌≡◌, ◌≢◌, refl, sym, ap, ap₂, ◌∙◌, inl, inr, true, ◌==◌,
  Bool-cases, ==_iff, arith,
}
use market_square.Arithmetics.{clear_msb, gen_dist_msb_masked, gen_without_suspended_bit}
use market_square.Arithmetics.Window.{generation_of, dist-generation_of}
use market_square.State.{World, tick, Result, ok, err, returned}
use market_square.Area.Invariant.{
  Counts, Explains, Later, Moment, tick-Moment, Later-trans, Ensures, Ensures-mono,
}
use market_square.Area.Reader.Moves.{home, home-same, home-lt, Kept}
use market_square.ReadSlice.{
  ReadSlice, ReadError, read_error, len, new_disarmed, read, last_read, read_with_check,
}
use market_square.ReadSlice.Dropped.{Stands, tick-Stands, get_gen-value}

abbrev pub tick3 : {T : Type 0} → World T → World T
tick3 w = tick (tick (tick w))

-- The slice starts where the reader stands and has all published messages.
abbrev pub ReadsAll : {T : Type 0} → ℕ → Counts → World T → ReadSlice → Type 0
ReadsAll idx c w s =
    (s.start_gen ≡ generation_of (c.held idx))
    × (s.end_gen ≡ generation_of c.read)
    × (len s ≡ c.read - c.held idx)
    × (c.held idx ≤ c.read)
    × (c.last_valid ≤ c.held idx)

-- The slice of a reader that stands at `v`, over the publication count that it loads.
abbrev pub slice_of : {T : Type 0} → ℕ → ℕ → World T → ReadSlice
slice_of reader_id v w = record {
  reader_id = reader_id;
  start_gen = clear_msb v;
  end_gen = (tick3 w).mem.read_gen;
  armed = true;
}

pub tick3-Stands :
    {T : Type 0} {idx reader_id v : ℕ} {w : World T}
    → Stands idx reader_id v w
    → Stands idx reader_id v (tick3 w)
tick3-Stands s = tick-Stands (tick-Stands (tick-Stands s))

module _ {T : Type 0} (reader_id v : ℕ) (w : World T)
    (s : Stands (home w reader_id) reader_id v w) where
  pub read-value : read reader_id w ≡ returned (slice_of reader_id v w, tick3 w)
  unfolding read gen_without_suspended_bit
  read-value = rw (get_gen-value reader_id v w s, read) refl

  read-ReadsAll :
      {limit : ℕ} {c : Counts}
      → Moment limit c w
      → Kept limit c w (ReadsAll (home w reader_id)) (slice_of reader_id v w, tick3 w)
  unfolding len
  read-ReadsAll m =
      let idx = home w reader_id in
      let (c1, m1, l1) = tick-Moment m in
      let (c2, m2, l2) = tick-Moment m1 in
      let (c3, m3, l3) = tick-Moment m2 in
      let l = Later-trans l1 (Later-trans l2 l3) in
      let here = m3.readers idx (omega (arith, home-lt w reader_id, l.0)) in
      let stands = tick3-Stands s in
      let starts : clear_msb v ≡ generation_of (c3.held idx) =
        ap clear_msb (sym stands.value) ∙ here.value in
      record {
        after = c3;
        moment = m3;
        later = l;
        result = (
          starts,
          m3.counters.read,
          ap₂ gen_dist_msb_masked m3.counters.read starts
              ∙ dist-generation_of c3.read (c3.held idx) here.seen
                  (omega (arith, here, m3.counters, m3.fits)),
          here.seen,
          here.kept,
        );
      }

-- At the first look of a call that began at `c` in `w` and ended at `c'` in `w'`, the slot stood past
-- the last published message; at the second access after it a writer was counted.
pub record NothingNew {T : Type 0} (limit : ℕ) (c : Counts) (w : World T) (idx : ℕ) (c' : Counts)
    (w' : World T) : Type 0 where
  pub at : Counts
  pub explains : Explains at (tick3 w).mem
  pub below : at.write ≤ limit
  pub since : Later c w.mem at (tick3 w).mem
  pub until : Later at (tick3 w).mem c' w'.mem
  pub all_read : at.held idx ≡ at.read
  pub has_writers : (tick (tick3 w)).mem.writers_count ≢ 0

-- What `read_with_check` tells. An error: no writer was counted at its second look, and afterwards
-- all published messages were read. A slice: all unread messages, or none because there were none.
abbrev pub Checked :
    {T : Type 0} → ℕ → Counts → World T → ℕ → Counts → World T → Result ReadError ReadSlice → Type 0
Checked limit c0 w idx c w' (ok s) =
    (s.start_gen ≡ generation_of (c.held idx))
    × (s.end_gen ≡ generation_of (c.held idx + len s))
    × (c.held idx + len s ≤ c.read)
    × (c.last_valid ≤ c.held idx)
    × ((c.held idx + len s ≡ c.read) ⊎ ((len s ≡ 0) × NothingNew limit c0 w idx c w'))
Checked limit c0 w idx c w' (err read_error) =
    ((tick (tick3 w)).mem.writers_count ≡ 0) × (c.held idx ≡ c.read)

-- A slice of all unread messages answers the check.
ReadsAll-Checked :
    {T : Type 0} (limit : ℕ) (c0 : Counts) (w : World T) (idx : ℕ) (c : Counts) (w' : World T)
    (s : ReadSlice)
    → ReadsAll idx c w' s
    → Checked limit c0 w idx c w' (ok s)
ReadsAll-Checked limit c0 w idx c w' s r =
    let all : c.held idx + len s ≡ c.read = omega (arith, r.2, r.3) in
    (r.0, r.1 ∙ ap generation_of (sym all), omega (arith, all), r.4, inl all)

empty-Checked :
    {T : Type 0} (limit : ℕ) (c0 : Counts) (w : World T) (reader_id idx g : ℕ) (c : Counts)
    (w' : World T)
    → g ≡ generation_of (c.held idx)
    → c.held idx ≤ c.read
    → c.last_valid ≤ c.held idx
    → NothingNew limit c0 w idx c w'
    → Checked limit c0 w idx c w' (ok (new_disarmed reader_id g g))
unfolding len
empty-Checked limit c0 w reader_id idx g c w' starts seen kept none_new =
    let zero_long : gen_dist_msb_masked g g ≡ 0 =
      ap₂ gen_dist_msb_masked starts starts
      ∙ (dist-generation_of (c.held idx) (c.held idx) (omega arith) (omega arith) ∙ omega arith) in
    let same : c.held idx + gen_dist_msb_masked g g ≡ c.held idx = omega (arith, zero_long) in
    (
      starts,
      starts ∙ ap generation_of (sym same),
      omega (arith, same, seen),
      kept,
      inr (zero_long, none_new),
    )

-- The slice is the reader's, and armed exactly when there is something in it.
abbrev pub Dealt : ℕ → Result ReadError ReadSlice → Type 0
Dealt reader_id (ok s) =
    (s.reader_id ≡ reader_id)
    × (((s.armed ≡ true) × (0 < len s)) ⊎ ((s.armed ≡ false) × (len s ≡ 0)))
Dealt reader_id (err read_error) = Unit {0}

-- What a client of the check relies on besides: the reader stands where it stood.
abbrev pub Looked :
    {T : Type 0}
    → ℕ
    → Counts
    → World T
    → ℕ
    → ℕ
    → Counts
    → World T
    → Result ReadError ReadSlice
    → Type 0
Looked limit c0 w reader_id v c w' r =
    Checked limit c0 w (home w reader_id) c w' r
    × Stands (home w reader_id) reader_id v w'
    × Dealt reader_id r

slice_of-Dealt :
    {T : Type 0} (reader_id v : ℕ) (w : World T)
    → (len (slice_of reader_id v w) == 0) ≡ false
    → Dealt reader_id (ok (slice_of reader_id v w))
slice_of-Dealt reader_id v w e = (refl, inl (refl, ground (arith, e)))

new_disarmed-Dealt : (reader_id g : ℕ) → Dealt reader_id (ok (new_disarmed reader_id g g))
unfolding len gen_dist_msb_masked
new_disarmed-Dealt reader_id g = (refl, inr (refl, omega arith))

pub read_with_check-Looked :
    {T : Type 0} {limit : ℕ} (reader_id v : ℕ) {c : Counts} (w : World T)
    → Moment limit c w
    → Stands (home w reader_id) reader_id v w
    → Ensures (Kept limit c w (Looked limit c w reader_id v)) (read_with_check reader_id w)
unfolding read_with_check last_read
read_with_check-Looked {T} {limit} reader_id v {c} w m stands =
    let idx = home w reader_id in
    let s1 = slice_of reader_id v w in
    let x = read-ReadsAll reader_id v w stands m in
    let first = read-value reader_id v w stands in
    let w2 = tick (tick3 w) in
    let (c4, m4, l4) = tick-Moment x.moment in
    let l = Later-trans x.later l4 in
    let same : home w2 reader_id ≡ idx = home-same w w2 reader_id l.0.mask in
    let stands4 = tick-Stands (tick3-Stands stands) in
    let stands2 = subst (λ i. Stands i reader_id v w2) (sym same) stands4 in
    let s2 = slice_of reader_id v w2 in
    let second = read-value reader_id v w2 stands2 in
    let y = read-ReadsAll reader_id v w2 stands2 m4 in
    let all = subst (λ i. ReadsAll i y.after (tick3 w2) s2) same y.result in
    elim (Bool-cases (len s1 == 0)) [
      | inr some_left ↦
          rw (first, some_left, read_with_check)
            (record {
              after = x.after;
              moment = x.moment;
              later = x.later;
              result = (
                ReadsAll-Checked limit c w idx x.after (tick3 w) s1 x.result,
                tick3-Stands stands,
                slice_of-Dealt reader_id v w some_left,
              );
            })
      | inl nothing ↦ elim (Bool-cases (w2.mem.writers_count == 0)) [
        | inr writers ↦
            let here = m4.readers idx (omega (arith, home-lt w reader_id, l.0)) in
            let starts = ap clear_msb (sym stands4.value) ∙ here.value in
            rw (first, nothing, writers, read_with_check)
              (record {
                after = c4;
                moment = m4;
                later = l;
                result = (
                  empty-Checked limit c w reader_id idx (clear_msb v) c4 w2 starts here.seen
                      here.kept
                      (record {
                        at = x.after;
                        explains = (x.moment.counters, x.moment.readers);
                        below = x.moment.fits.below;
                        since = x.later;
                        until = l4;
                        all_read = ground (arith, (==_iff _ _).0 nothing, x.result.2, x.result.3);
                        has_writers = ground (arith, writers);
                      }),
                  stands4,
                  new_disarmed-Dealt reader_id (clear_msb v),
                );
              })
        | inl no_writers ↦ elim (Bool-cases (len s2 == 0)) [
          | inr more ↦
              rw (first, nothing, no_writers, second, more, read_with_check, last_read)
                (record {
                  after = y.after;
                  moment = y.moment;
                  later = Later-trans l y.later;
                  result = (
                    ReadsAll-Checked limit c w idx y.after (tick3 w2) s2 all,
                    tick3-Stands stands4,
                    slice_of-Dealt reader_id v w2 more,
                  );
                })
          | inl done ↦
              rw (first, nothing, no_writers, second, done, read_with_check, last_read)
                (record {
                  after = y.after;
                  moment = y.moment;
                  later = Later-trans l y.later;
                  result = (
                    ((==_iff _ _).0 no_writers, ground (arith, (==_iff _ _).0 done, all.2, all.3)),
                    tick3-Stands stands4,
                    tt,
                  );
                })
        ]
      ]
    ]

-- Whatever disciplined other threads do that leave the reader's key and its active slot alone, a
-- checked read of an active registered reader does not panic and keeps the invariant. A slice
-- starts where the reader stands. It has all messages that are published at the end of the call, or
-- it is empty because all were read at the first look, with a writer counted after it. An error says that no writer was counted after a first look found nothing to read, and that nothing
-- was left to read after that.
pub read_with_check-Checked :
    {T : Type 0} {limit : ℕ} (reader_id v : ℕ) {c : Counts} (w : World T)
    → Moment limit c w
    → Stands (home w reader_id) reader_id v w
    → Ensures (Kept limit c w (Checked limit c w (home w reader_id))) (read_with_check reader_id w)
read_with_check-Checked {limit} reader_id v {c} w m stands =
    Ensures-mono _ _ (read_with_check reader_id w)
      (λ r k. record { after = k.after; moment = k.moment; later = k.later; result = k.result.0 })
      (read_with_check-Looked reader_id v w m stands)
