-- ===== src/ReadSlice/Listen.antt =====
-- src/area.rs: a reader's loop over `read_with_check` and the drop of each slice, as the callers of
-- the crate write it.
use market_square.Base.{
  ℕ, zero, suc, ◌+◌, ◌-◌, ◌%◌, ◌^◌, ◌≤◌, ◌<◌, ◌≡◌, sym, ap, ◌∙◌, inl, inr, Bool, true, false, List,
  [], ◌∷◌, refl, arith,
}
use mathlib.Core.Path.{subst}
use market_square.Arithmetics.{clear_msb}
use market_square.Arithmetics.Window.{generation_of}
use market_square.State.{World, Result, ok, err, Outcome, returned, panicked, spinning, shared}
use market_square.Map.{capacity}
use market_square.Area.Invariant.{
  Counts, Later, Moment, Later-refl, Ensures, Ensures-and, Ensures-mono,
}
use market_square.Area.Reader.Moves.{home, home-lt, Kept}
use market_square.Area.Cleanup.{CleanupError, CleanupResult, try_cleanup_old_slots}
use market_square.Area.Cleanup.Advance.{Cleaned}
use market_square.Area.Cleanup.Safety.{try_cleanup_old_slots-Cleaned}
use market_square.ReadSlice.Stays.{StaysIn, try_cleanup_old_slots-StaysIn}
use market_square.ReadSlice.{ReadSlice, ReadError, len, read_with_check, drop_slice}
use market_square.ReadSlice.Dropped.{Stands, drop_slice-Moved}
use market_square.ReadSlice.Checked.{Checked, Dealt, Looked, read_with_check-Looked}

module _ {T : Type 0} where
  -- At most `rounds` rounds of a reader's loop: the slices that it was dealt, `count` with their
  -- lengths added, and whether an error ended the loop. `fuel` is that of each cleanup.
  unfoldable pub listen :
      ℕ → Bool → ℕ → ℕ → ℕ → World T → Outcome ((List ReadSlice × ℕ × Bool) × World T)
  unfolding read_with_check try_cleanup_old_slots len drop_slice
  listen fuel needs_drop zero reader_id count w = returned (([], count, false), w)
  listen fuel needs_drop (suc rounds) reader_id count w = elim (read_with_check reader_id w) [
    | panicked ↦ panicked
    | spinning ↦ spinning
    | returned (r, w1) ↦ elim r [
      | err _ ↦ returned (([], count, true), w1)
      | ok s ↦ elim (try_cleanup_old_slots shared needs_drop fuel w1) [
        | panicked ↦ panicked
        | spinning ↦ spinning
        | returned (_, w2) ↦ elim (drop_slice s w2) [
          | panicked ↦ panicked
          | spinning ↦ spinning
          | returned w3 ↦
              elim (listen fuel needs_drop rounds reader_id ((count + len s) % 2 ^ 64) w3) [
                | panicked ↦ panicked
                | spinning ↦ spinning
                | returned ((slices, total, done), w4) ↦ returned ((s ∷ slices, total, done), w4)
              ]
        ]
      ]
    ]
  ]

-- The slices cover the messages from `x` to `e`, each once and in order.
abbrev pub Contiguous : ℕ → List ReadSlice → ℕ → Type 0
Contiguous x [] e = x ≡ e
Contiguous x (s ∷ slices) e =
    (s.start_gen ≡ generation_of x)
    × (s.end_gen ≡ generation_of (x + len s))
    × Contiguous (x + len s) slices e

-- The error of a check says that the reader stands past the last published message.
abbrev pub AllRead : Bool → ℕ → ℕ → Type 0
AllRead true held read = held ≡ read
AllRead false held read = Unit {0}

-- After a loop that began at message `x` with `count`: the slices cover the messages up to where
-- the reader stands, and were counted; an error left nothing unread.
abbrev pub Heard : {T : Type 0} → ℕ → ℕ → ℕ → Counts → World T → List ReadSlice × ℕ × Bool → Type 0
Heard x count idx c w (slices, total, done) =
    Contiguous x slices (c.held idx)
    × (total ≡ (count + (c.held idx - x)) % 2 ^ 64)
    × (x ≤ c.held idx)
    × AllRead done (c.held idx) c.read

pub Heard-∷ :
    {T : Type 0} (x count : ℕ) (s : ReadSlice) (idx : ℕ) (c : Counts) (w : World T)
    (r : List ReadSlice × ℕ × Bool)
    → s.start_gen ≡ generation_of x
    → s.end_gen ≡ generation_of (x + len s)
    → Heard (x + len s) ((count + len s) % 2 ^ 64) idx c w r
    → Heard x count idx c w (s ∷ r.0, r.1, r.2)
Heard-∷ x count s idx c w (slices, total, done) starts ends h =
    ((starts, ends, h.0), omega (arith, h.1, h.2), omega (arith, h.2), h.3)

module _ {T : Type 0} {limit : ℕ} {c c' : Counts} {w w' : World T} (idx reader_id v : ℕ) where
  -- A slot with the same generation at two moments holds the same message.
  still :
      Moment limit c w
      → Moment limit c' w'
      → Later c w.mem c' w'.mem
      → idx < capacity w.mem.reader_gens
      → Stands idx reader_id v w
      → Stands idx reader_id v w'
      → c'.held idx ≡ c.held idx
  still m m' l b s s' =
      let here = m.readers idx b in
      let there = m'.readers idx (omega (arith, b, l.0)) in
      omega (
        arith,
        ap clear_msb (s.value ∙ sym s'.value),
        here,
        there,
        l.1 idx,
        m.counters,
        m'.counters,
        m.fits,
        m'.fits,
      )

-- The reader stands at message `n`.
abbrev pub At : {T : Type 0} → ℕ → ℕ → ℕ → Counts → World T → Type 0
At idx reader_id n c w = (c.held idx ≡ n) × Stands idx reader_id (generation_of n) w

drop_slice-disarmed :
    {T : Type 0} (s : ReadSlice) (w : World T) → s.armed ≡ false → drop_slice s w ≡ returned w
unfolding drop_slice
drop_slice-disarmed s w e = rw (e, drop_slice) refl

-- The drop of a slice that was dealt advances the reader by its length, empty or not.
pub dropped :
    {T : Type 0} {limit : ℕ} {c : Counts} (x idx reader_id : ℕ) (s : ReadSlice) (w : World T)
    → Moment limit c w
    → home w reader_id ≡ idx
    → At idx reader_id x c w
    → s.start_gen ≡ generation_of x
    → s.end_gen ≡ generation_of (x + len s)
    → x + len s ≤ c.read
    → Dealt reader_id (ok s)
    → Ensures
        (λ w'. Kept limit c w (λ c' v u. At idx reader_id (x + len s) c' v) (tt, w'))
        (drop_slice s w)
dropped {limit} {c} x idx reader_id s w m e at starts ends seen (same, inr (disarmed, nothing)) =
    let here : x ≡ x + len s = omega (arith, nothing) in
    subst (Ensures (λ w'. Kept limit c w (λ c' v u. At idx reader_id (x + len s) c' v) (tt, w')))
      (sym (drop_slice-disarmed s w disarmed))
      (record {
        after = c;
        moment = m;
        later = Later-refl;
        result = subst (λ n. At idx reader_id n c w) here at;
      })
dropped {limit} {c} x idx reader_id s w m e at starts ends seen (same, inl (armed, some_messages)) =
    let h : home w s.reader_id ≡ idx = ap (home w) same ∙ e in
    let b : idx < capacity w.mem.reader_gens = omega (arith, home-lt w reader_id, e) in
    let here = m.readers idx b in
    let stands =
      subst (λ i. Stands i s.reader_id (generation_of x) w) (sym h)
        (subst (λ i. Stands idx i (generation_of x) w) (sym same) at.1) in
    Ensures-mono _ _ (drop_slice s w)
      (λ w' k. record {
        after = k.after;
        moment = k.moment;
        later = k.later;
        result =
            subst (λ i. At idx i (x + len s) k.after w') same
              (subst (λ i. At i s.reader_id (x + len s) k.after w') h (k.result.0.1, k.result.1));
      })
      (drop_slice-Moved x (len s) s w m stands armed starts ends some_messages
        (omega (arith, seen, m.fits, m.counters, here, at.0)) seen
        (omega (arith, m.fits, m.counters, here, at.0)))

-- What a check tells a reader that stands at message `x`, where it then still stands.
abbrev pub LookedAt :
    {T : Type 0}
    → ℕ
    → Counts
    → World T
    → ℕ
    → ℕ
    → ℕ
    → Counts
    → World T
    → Result ReadError ReadSlice
    → Type 0
LookedAt limit c0 w idx reader_id x c v r =
    Checked limit c0 w idx c v r × At idx reader_id x c v × Dealt reader_id r

pub looked :
    {T : Type 0} {limit : ℕ} (idx reader_id x : ℕ) {c : Counts} (w : World T)
    → Moment limit c w
    → home w reader_id ≡ idx
    → At idx reader_id x c w
    → Ensures (Kept limit c w (LookedAt limit c w idx reader_id x)) (read_with_check reader_id w)
looked {T} {limit} idx reader_id x {c} w m e at =
    let b : idx < capacity w.mem.reader_gens = omega (arith, home-lt w reader_id, e) in
    Ensures-mono _ _ (read_with_check reader_id w)
      (λ (r : Result ReadError ReadSlice × World T)
          (k : Kept limit c w (Looked limit c w reader_id (generation_of x)) r).
        let stands = subst (λ i. Stands i reader_id (generation_of x) r.1) e k.result.1 in
        record {
          after = k.after;
          moment = k.moment;
          later = k.later;
          result = (
            subst (λ i. Checked limit c w i k.after r.1 r.0) e k.result.0,
            (still idx reader_id (generation_of x) m k.moment k.later b at.1 stands ∙ at.0, stands),
            k.result.2,
          );
        })
      (read_with_check-Looked reader_id (generation_of x) w m
        (subst (λ i. Stands i reader_id (generation_of x) w) (sym e) at.1))

-- A cleanup on the slice's behalf leaves the reader at its message.
pub cleaned_up :
    {T : Type 0} {limit : ℕ} (fuel : ℕ) (needs_drop : Bool) (idx reader_id x : ℕ) {c : Counts}
    (w : World T)
    → Moment limit c w
    → idx < capacity w.mem.reader_gens
    → At idx reader_id x c w
    → Ensures
        (Kept limit c w (λ c' v u. At idx reader_id x c' v))
        (try_cleanup_old_slots shared needs_drop fuel w)
cleaned_up {T} {limit} fuel needs_drop idx reader_id x {c} w m b at =
    Ensures-mono _ _ (try_cleanup_old_slots shared needs_drop fuel w)
      (λ (r : Result CleanupError CleanupResult × World T)
          (k : Cleaned limit c w r × StaysIn idx reader_id (generation_of x) r).
        record {
          after = k.0.after;
          moment = k.0.moment;
          later = k.0.later;
          result =
              (still idx reader_id (generation_of x) m k.0.moment k.0.later b at.1 k.1 ∙ at.0, k.1);
        })
      (Ensures-and (Cleaned limit c w) (StaysIn idx reader_id (generation_of x))
        (try_cleanup_old_slots shared needs_drop fuel w)
        (try_cleanup_old_slots-Cleaned needs_drop fuel w m)
        (try_cleanup_old_slots-StaysIn needs_drop fuel w at.1))
