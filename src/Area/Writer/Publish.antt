-- ===== src/Area/Writer/Publish.antt =====
-- What publishing does to the counts.
use market_square.Base.{
  ℕ, ◌+◌, ◌^◌, ◌≤◌, ◌<◌, ◌≡◌, ◌≢◌, refl, ◌∙◌, inl, inr, false, ◌==◌, Bool-cases, ==_iff, arith,
}
use market_square.Arithmetics.{gen_gte_msb_masked}
use market_square.Arithmetics.Window.{generation_of, gte-generation_of}
use market_square.State.{AreaInner, World, tick, Result, ok, err, Mode, shared, exclusive}
use market_square.Area.Invariant.{Counts, Explains, Later, Moment, tick-Moment, Later-trans}
use market_square.Area.Writer.{
  PublishError, cas_failed, out_of_order_publish_attempt, publish_slots, set_read_gen,
}

-- In exclusive mode no other thread moves `read_gen`.
abbrev pub SolePublisher : {T : Type 0} → Mode → World T → Type 0
SolePublisher shared w = Unit {0}
SolePublisher {T} exclusive w = (k : ℕ) (a : AreaInner T) → (w.others k a).read_gen ≡ a.read_gen

-- At the next access of `w` the published messages end at `x`.
pub record EndsAt {T : Type 0} (limit : ℕ) (c : Counts) (x : ℕ) (w : World T) : Type 0 where
  pub at : Counts
  pub explains : Explains at (tick w).mem
  pub later : Later c w.mem at (tick w).mem
  pub below : at.write ≤ limit
  pub ends : at.read ≡ x

-- Publishing the messages `[x, y)`: on success the published ones ended at `x` when the call looked
-- and now end at `y`; each mode has its own error for a range that does not come next.
abbrev pub Published :
    {T : Type 0}
    → ℕ
    → Mode
    → Counts
    → World T
    → Counts
    → ℕ
    → ℕ
    → Result PublishError (Unit {0})
    → Type 0
Published limit mode c w c' x y (ok _) = EndsAt limit c x w × (c'.read ≡ y) × (c'.write ≤ limit)
Published limit shared c w c' x y (err cas_failed) = (c'.read ≢ x) × (c'.write ≤ limit)
Published limit exclusive c w c' x y (err cas_failed) = ⊥
Published limit shared c w c' x y (err out_of_order_publish_attempt) = ⊥
Published limit exclusive c w c' x y (err out_of_order_publish_attempt) =
    (c'.read ≢ x) × (c'.write ≤ limit)

abbrev pub move_read : Counts → ℕ → Counts
move_read c y = record c { read = y }

pub not_empty :
    (x y : ℕ)
    → x < y
    → y < x + 2 ^ 62
    → gen_gte_msb_masked (generation_of x) (generation_of y) ≡ false
not_empty x y h k = ground (arith, gte-generation_of x y)

module _ {T : Type 0} {limit : ℕ} {c : Counts} {w : World T} where
  -- The write of `read_gen` that follows when it still reads as the start of the range.
  pub published :
      (x y : ℕ)
      → Moment limit c w
      → x ≤ y
      → y ≤ c.write
      → c.read < x + 2 ^ 62
      → x < c.read + 2 ^ 62
      → w.mem.read_gen ≡ generation_of x
      → (c.read ≡ x) × Explains (move_read c y) (set_read_gen (generation_of y) w.mem)
  published x y m h k f g e =
      let same : c.read ≡ x = omega (arith, m.counters, e, f, g) in
      (same, (ground (arith, m.counters, same), λ j b. ground (arith, m.readers j b, same)))

module _ {T : Type 0} {limit x : ℕ} {c c1 : Counts} {w : World T} where
  pub looked :
      Moment limit c1 (tick w) → Later c w.mem c1 (tick w).mem → c1.read ≡ x → EndsAt limit c x w
  looked m l e = record {
    at = c1;
    explains = (m.counters, m.readers);
    later = l;
    below = m.fits.below;
    ends = e;
  }

-- What a call of `publish_slots` on `[x, y)` does from the counts `c`.
record Step {T : Type 0} (limit : ℕ) (mode : Mode) (c : Counts) (x y : ℕ) (w : World T)
    (r : Result PublishError (Unit {0})) (a' : AreaInner T) : Type 0 where
  after : Counts
  explains : Explains after a'
  later : Later c w.mem after a'
  published : Published limit mode c w after x y r

module _ {T : Type 0} {limit : ℕ} {c : Counts} {w : World T} where
  publish_slots-Step :
      (mode : Mode) (x y : ℕ)
      → Moment limit c w
      → SolePublisher mode w
      → x < y
      → y ≤ c.write
      → c.free ≤ x
      → let (r, w') = publish_slots mode (generation_of x) (generation_of y) w in
        Step limit mode c x y w r w'.mem
  unfolding publish_slots
  publish_slots-Step shared x y m sole h k f =
      let (c1, m1, l1) = tick-Moment m in
      let some_slots = not_empty x y h (omega (arith, m.fits, k, f)) in
      elim (Bool-cases ((tick w).mem.read_gen == generation_of x)) [
        | inl e ↦
            let p =
              published x y m1 (omega arith) (omega (arith, k, l1.0))
                (omega (arith, m1.counters, m1.fits, m.fits, f))
                (omega (arith, m.counters, m.fits, l1.0, k, h)) ((==_iff _ _).0 e) in
            rw (some_slots, e, publish_slots)
              (record {
                after = move_read c1 y;
                explains = p.1;
                later = (omega (arith, l1.0, p.0, h), l1.1);
                published = (looked m1 l1 p.0, refl, m1.fits.below);
              })
        | inr e ↦
            rw (some_slots, e, publish_slots)
              (record {
                after = c1;
                explains = (m1.counters, m1.readers);
                later = l1;
                published = (ground (arith, e, m1.counters), m1.fits.below);
              })
      ]
  publish_slots-Step exclusive x y m sole h k f =
      let (c1, m1, l1) = tick-Moment m in
      let (c2, m2, l2) = tick-Moment m1 in
      let l = Later-trans l1 l2 in
      let some_slots = not_empty x y h (omega (arith, m.fits, k, f)) in
      elim (Bool-cases ((tick w).mem.read_gen == generation_of x)) [
        | inl e ↦
            let p =
              published x y m2 (omega arith) (omega (arith, k, l.0))
                (omega (arith, m2.counters, m2.fits, m.fits, f))
                (omega (arith, m.counters, m.fits, l.0, k, h))
                (sole 1 (tick w).mem ∙ (==_iff _ _).0 e) in
            rw (some_slots, e, publish_slots)
              (record {
                after = move_read c2 y;
                explains = p.1;
                later = (omega (arith, l.0, p.0, h), l.1);
                published = (
                  looked m1 l1 (
                      omega (
                        arith,
                        m1.counters,
                        m1.fits,
                        m.fits,
                        m.counters,
                        l.0,
                        l2.0,
                        k,
                        h,
                        f,
                        p.0,
                        (==_iff _ _).0 e,
                      )),
                  refl,
                  m2.fits.below,
                );
              })
        | inr e ↦
            rw (some_slots, e, publish_slots)
              (record {
                after = c1;
                explains = (m1.counters, m1.readers);
                later = l1;
                published = (ground (arith, e, m1.counters), m1.fits.below);
              })
      ]

-- In any mode and whatever disciplined other threads do between its accesses, publishing a
-- non-empty range `[x, y)` of written messages that are not freed keeps the invariant and moves no
-- count back. On success the published messages ended at exactly `x` at the call's first access and
-- end at `y` after it: ranges are published in order, without a gap. An error is the one of the mode, and says that the range is
-- not the next. In exclusive mode no other thread may move `read_gen`.
pub publish_slots-Published :
    {T : Type 0} {limit : ℕ} {c : Counts} {w : World T} (mode : Mode) (x y : ℕ)
    → Moment limit c w
    → SolePublisher mode w
    → x < y
    → y ≤ c.write
    → c.free ≤ x
    → let (r, w') = publish_slots mode (generation_of x) (generation_of y) w in
      (c' : Counts) × Explains c' w'.mem
      × Later c w.mem c' w'.mem
      × Published limit mode c w c' x y r
publish_slots-Published mode x y m sole h k f =
    let s = publish_slots-Step mode x y m sole h k f in (s.after, s.explains, s.later, s.published)
