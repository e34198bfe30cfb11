-- ===== src/Reservation/Spin.antt =====
-- src/area.rs: `Reservation::publish_spin`, among disciplined other threads.
use mathlib.Core.Path.{subst}
use market_square.Base.{
  ℕ, zero, suc, ◌+◌, ◌^◌, ◌≤◌, ◌<◌, ◌≡◌, refl, ap, ◌∙◌, ap₂, sym, inl, inr, true, false, ◌==◌,
  Bool-cases, ==_iff, arith,
}
use market_square.Arithmetics.Window.{generation_of}
use market_square.State.{
  AreaInner, World, tick, Outcome, returned, panicked, Result, ok, err, shared,
}
use market_square.Area.Invariant.{
  Counts, Explains, Fits, Later, Moment, tick-Moment, Later-trans, Later-refl, Ensures,
  Ensures-mono,
}
use market_square.Area.Reader.Moves.{Kept}
use market_square.Area.Writer.{
  PublishError, publish_slots, cas_failed, out_of_order_publish_attempt, set_read_gen,
}
use market_square.Area.Writer.Publish.{not_empty, published, move_read, EndsAt, looked}
use market_square.Reservation.{Reservation, len, publish, publish_spin}
use market_square.Reservation.Split.{Guards}

-- The other threads publish nothing from message `x` on, which is reserved here.
abbrev pub LeavesRange : {T : Type 0} → ℕ → ℕ → World T → Type 0
LeavesRange {T} limit x w =
    (k : ℕ) (c c' : Counts) (a : AreaInner T)
    → Fits limit c
    → Fits limit c'
    → Explains c a
    → Explains c' (w.others k a)
    → Later c a c' (w.others k a)
    → c.read ≤ x
    → c'.read ≤ x

-- The memory after the messages `[x, y)` were published.
abbrev pub with_read : {T : Type 0} → ℕ → World T → World T
with_read y w = record (tick w) { mem = set_read_gen (generation_of y) (tick w).mem }

module _ {T : Type 0} (x n : ℕ) (w : World T) (some_slots : 0 < n) (few : n < 2 ^ 62) where
  pub slots-won :
      ((tick w).mem.read_gen == generation_of x) ≡ true
      → publish_slots shared (generation_of x) (generation_of (x + n)) w
        ≡ (ok tt, with_read (x + n) w)
  unfolding publish_slots
  slots-won e =
      rw (not_empty x (x + n) (omega (arith, some_slots)) (omega (arith, few)), publish_slots)
        (rw e refl)

  slots-lost :
      ((tick w).mem.read_gen == generation_of x) ≡ false
      → publish_slots shared (generation_of x) (generation_of (x + n)) w ≡ (err cas_failed, tick w)
  unfolding publish_slots
  slots-lost e =
      rw (not_empty x (x + n) (omega (arith, some_slots)) (omega (arith, few)), publish_slots)
        (rw e refl)

module _ {T : Type 0} (x n : ℕ) (r : Reservation) (w : World T) (g : Guards x n r)
    {result : Result PublishError (Unit {0}) × World T}
    (ran : publish_slots shared (generation_of x) (generation_of (x + n)) w ≡ result) where
  publish-ran : publish shared r w ≡ (
    elim result.0 [
      | ok _ ↦ ok (record r { published = true })
      | err e ↦ err (record r { published = false }, e)
    ],
    result.1,
  )
  unfolding publish
  publish-ran =
      ap
        (λ (q : Result PublishError (Unit {0}) × World T).
          let p : Result (Reservation × PublishError) Reservation × World T = (
            elim q.0 [
              | ok _ ↦ ok (record r { published = true })
              | err e ↦ err (record r { published = false }, e)
            ],
            q.1,
          ) in
          p)
        (ap₂ (λ s e. publish_slots shared s e w) g.starts g.ends ∙ ran)

module _ {T : Type 0} (x n : ℕ) (r : Reservation) (w : World T) (g : Guards x n r)
    (some_slots : 0 < n) (few : n < 2 ^ 62) (fuel : ℕ) where
  -- One round of the loop, by what it finds in `read_gen`.
  spin-won :
      ((tick w).mem.read_gen == generation_of x) ≡ true
      → publish_spin (suc fuel) r w ≡ returned (with_read (x + n) w)
  unfolding publish_spin
  spin-won e =
      ap
        (λ (q : Result (Reservation × PublishError) Reservation × World T).
          let o : Outcome (World T) = elim q.0 [
            | ok _ ↦ returned q.1
            | err (r', e) ↦ elim e [
              | cas_failed ↦ publish_spin fuel r' q.1
              | out_of_order_publish_attempt ↦ panicked
            ]
          ] in
          o)
        (publish-ran x n r w g (slots-won x n w some_slots few e))

  spin-lost :
      ((tick w).mem.read_gen == generation_of x) ≡ false
      → publish_spin (suc fuel) r w ≡ publish_spin fuel (record r { published = false }) (tick w)
  unfolding publish_spin
  spin-lost e =
      ap
        (λ (q : Result (Reservation × PublishError) Reservation × World T).
          let o : Outcome (World T) = elim q.0 [
            | ok _ ↦ returned q.1
            | err (r', e) ↦ elim e [
              | cas_failed ↦ publish_spin fuel r' q.1
              | out_of_order_publish_attempt ↦ panicked
            ]
          ] in
          o)
        (publish-ran x n r w g (slots-lost x n w some_slots few e))

-- The world after `k` accesses that change nothing.
abbrev pub ticks : {T : Type 0} → ℕ → World T → World T
ticks zero w = w
ticks (suc k) w = ticks k (tick w)

-- A spinning publication of `[x, y)` from `w` returned `w'`: `k` accesses only looked, at the next
-- one the published messages ended at `x`, and that one write made them end at `y`.
pub record Spun {T : Type 0} (limit : ℕ) (c : Counts) (w : World T) (x y : ℕ) (after : Counts)
    (w' : World T) (u : Unit {0}) : Type 0 where
  pub k : ℕ
  pub before : Counts
  pub at_start : EndsAt limit before x (ticks k w)
  pub later : Later c w.mem before (ticks k w).mem
  pub one_write : w' ≡ with_read y (ticks k w)
  pub at_end : after.read ≡ y

module _ {T : Type 0} {limit : ℕ} {c d : Counts} {w : World T} {x y : ℕ} where
  -- What is spun from the next access on is spun from here.
  tick-Spun :
      {after : Counts} {w' : World T}
      → Later c w.mem d (tick w).mem
      → Spun limit d (tick w) x y after w' tt
      → Spun limit c w x y after w' tt
  tick-Spun l s = record {
    k = suc s.k;
    before = s.before;
    at_start = s.at_start;
    later = Later-trans l s.later;
    one_write = s.one_write;
    at_end = s.at_end;
  }

module _ {T : Type 0} {limit : ℕ} {c : Counts} (x y : ℕ) (w : World T) where
  with_read-Kept :
      Moment limit c w
      → LeavesRange limit x w
      → x ≤ y
      → y ≤ c.write
      → c.free ≤ x
      → c.read ≤ x
      → ((tick w).mem.read_gen == generation_of x) ≡ true
      → Kept limit c w (Spun limit c w x y) (tt, with_read y w)
  with_read-Kept m leaves h k f unpublished e =
      let (c1, m1, l1) = tick-Moment m in
      let still : c1.read ≤ x =
        leaves 0 c c1 w.mem m.fits m1.fits (m.counters, m.readers) (m1.counters, m1.readers) l1
          unpublished in
      let p =
        published x y m1 h (omega (arith, k, l1.0)) (omega (arith, still))
          (omega (arith, m.counters, m.fits, l1.0, k, h, f)) ((==_iff _ _).0 e) in
      record {
        after = move_read c1 y;
        moment = record {
          counters = p.1.0;
          readers = p.1.1;
          fits = record { below = m1.fits.below; window = m1.fits.window };
          disciplined = m1.disciplined;
        };
        later = (omega (arith, l1.0, p.0, h), l1.1);
        result = record {
          k = 0;
          before = c;
          at_start = looked m1 l1 p.0;
          later = Later-refl;
          one_write = refl;
          at_end = refl;
        };
      }

-- Whatever disciplined other threads do that publish nothing from message `x` on: spinning on the
-- publication of a non-empty reserved range of `n` messages from `x` on never panics and keeps the
-- invariant. When it returns, it wrote once, at an access at which exactly the messages before `x`
-- were published, and the published messages end where the range ends.
pub publish_spin-Spun :
    {T : Type 0} {limit : ℕ} (fuel x n : ℕ) (r : Reservation) {c : Counts} (w : World T)
    → Moment limit c w
    → LeavesRange limit x w
    → Guards x n r
    → 0 < n
    → x + n ≤ c.write
    → c.read ≤ x
    → Ensures (λ w'. Kept limit c w (Spun limit c w x (x + n)) (tt, w')) (publish_spin fuel r w)
unfolding publish_spin len
publish_spin-Spun zero x n r w m leaves g some_slots k unpublished = tt
publish_spin-Spun {T} {limit} (suc fuel) x n r {c} w m leaves g some_slots k unpublished =
    let Ends = Ensures (λ (w' : World T). Kept limit c w (Spun limit c w x (x + n)) (tt, w')) in
    let few : n < 2 ^ 62 = omega (arith, m.fits, m.counters, k, unpublished) in
    let (c1, m1, l1) = tick-Moment m in
    elim (Bool-cases ((tick w).mem.read_gen == generation_of x)) [
      | inl e ↦ subst Ends (sym (spin-won x n r w g some_slots few fuel e)) (
          with_read-Kept x (x + n) w m leaves (omega arith) k
            (omega (arith, m.counters, unpublished)) unpublished e)
      | inr e ↦
          let still : c1.read ≤ x =
            leaves 0 c c1 w.mem m.fits m1.fits (m.counters, m.readers) (m1.counters, m1.readers) l1
              unpublished in
          subst Ends (sym (spin-lost x n r w g some_slots few fuel e)) (
            Ensures-mono _ _ (publish_spin fuel (record r { published = false }) (tick w))
              (λ (w' : World T) p. record {
                after = p.after;
                moment = p.moment;
                later = Later-trans l1 p.later;
                result = tick-Spun l1 p.result;
              })
              (publish_spin-Spun fuel x n (record r { published = false }) (tick w) m1
                (λ j. leaves (suc j))
                (record { starts = g.starts; ends = g.ends; counted = g.counted }) some_slots
                (omega (arith, k, l1.0)) still))
    ]

-- With fuel for more than `k` rounds, spinning on the publication of a non-empty range returns if
-- the other threads, left alone by it, publish all earlier messages by its access `k`: by then it
-- has made one write, which makes the published messages end where the range ends.
pub publish_spin-returns :
    {T : Type 0} (fuel k x n : ℕ) (r : Reservation) (w : World T)
    → Guards x n r
    → 0 < n
    → n < 2 ^ 62
    → k < fuel
    → (ticks (suc k) w).mem.read_gen ≡ generation_of x
    → (j : ℕ) × (j ≤ k) × (publish_spin fuel r w ≡ returned (with_read (x + n) (ticks j w)))
unfolding len
publish_spin-returns zero k x n r w g some_slots few h e = absurd (omega (arith, h))
publish_spin-returns (suc fuel) zero x n r w g some_slots few h e =
    (0, omega arith, spin-won x n r w g some_slots few fuel ((==_iff _ _).1 e))
publish_spin-returns (suc fuel) (suc k) x n r w g some_slots few h e =
    elim (Bool-cases ((tick w).mem.read_gen == generation_of x)) [
      | inl now ↦ (0, omega arith, spin-won x n r w g some_slots few fuel now)
      | inr later ↦
          let (j, early, ran) =
            publish_spin-returns fuel k x n (record r { published = false }) (tick w)
              (record { starts = g.starts; ends = g.ends; counted = g.counted }) some_slots few
              (omega (arith, h)) e in
          (suc j, omega (arith, early), spin-lost x n r w g some_slots few fuel later ∙ ran)
    ]
