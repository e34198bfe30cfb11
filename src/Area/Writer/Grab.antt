-- ===== src/Area/Writer/Grab.antt =====
-- The write of `write_gen` that grants a reservation, whatever disciplined other threads do.
use market_square.Base.{
  ℕ, ◌+◌, ◌-◌, ◌^◌, ◌≤◌, ◌<◌, ◌≡◌, refl, sym, ap, ◌∙◌, inl, inr, false, ◌==◌, Bool-cases, ==_iff,
  arith,
}
use market_square.Arithmetics.{gen_add_msb_masked}
use market_square.Arithmetics.Window.{generation_of, dist-generation_of, add-generation_of}
use market_square.State.{AreaInner, World, tick, Result, ok, err, Mode, shared, exclusive}
use market_square.Area.Invariant.{Counts, Counters, Explains, Later, Fits, Moment, tick-Moment}
use market_square.Area.Writer.{ReserveError, no_space, failed_grab, available, grab, set_write_gen}

-- In exclusive mode no other thread moves `write_gen`.
abbrev pub SoleWriter : {T : Type 0} → Mode → World T → Type 0
SoleWriter shared w = Unit {0}
SoleWriter {T} exclusive w = (k : ℕ) (a : AreaInner T) → (w.others k a).write_gen ≡ a.write_gen

-- A granted range starts at `x`, no earlier than `write` stood and within the messages of the
-- others, and is the last `n` of the count after the call.
pub record Granted (limit : ℕ) (c c' : Counts) (n s e : ℕ) : Type 0 where
  pub x : ℕ
  pub below : x ≤ limit
  pub fresh : c.write ≤ x
  pub last : x + n ≡ c'.write
  pub starts : s ≡ generation_of x
  pub ends : e ≡ generation_of (x + n)

-- A refusal for lack of space says that the counts had no room, and a failed grab that some other
-- writer's reservation succeeded; `limit` bounds the counts at which it says so.
abbrev pub Reserved : ℕ → Counts → Counts → ℕ → ℕ → Result ReserveError (ℕ × ℕ) → Type 0
Reserved limit c c' buffer_capacity n (ok (s, e)) = Granted limit c c' n s e
Reserved limit c c' buffer_capacity n (err no_space) =
    (c.free + buffer_capacity < c'.write + n) × (c'.write ≤ limit)
Reserved limit c c' buffer_capacity n (err failed_grab) = (c.write < c'.write) × (c'.write ≤ limit)

abbrev move_write : Counts → ℕ → Counts
move_write c n = record c { write = c.write + n }

module _ {T : Type 0} {limit : ℕ} {c : Counts} {w : World T} (m : Moment limit c w) where
  -- Moving `write_gen` by `n` within the room.
  move_write-Explains :
      (n v : ℕ)
      → c.write + n ≤ c.free + w.mem.buffer_capacity
      → v ≡ generation_of (c.write + n)
      → Explains (move_write c n) (set_write_gen v w.mem)
  move_write-Explains n v h e = (ground (arith, m.counters), λ j k. ground (arith, m.readers j k))

  pub available-eq :
      (f : ℕ)
      → f ≤ c.free
      → c.write ≤ f + 2 ^ 62
      → available w.mem.buffer_capacity w.mem.write_gen (generation_of f)
        ≡ f + w.mem.buffer_capacity - c.write
  unfolding available
  available-eq f h k = rw m.counters.write (
      omega
        (arith, m.counters, dist-generation_of c.write f (omega (arith, m.counters)) (omega arith)))

  -- A counter of the others' making that reads as before has not moved.
  same_write :
      {c' : Counts} {a : AreaInner T}
      → Later c w.mem c' a
      → Fits limit c'
      → Counters c' a
      → a.write_gen ≡ w.mem.write_gen
      → c'.write ≡ c.write
  same_write l f k e = omega (arith, m.counters, m.fits, l.0, f, k, e)

-- What a reservation of `n` does from the counts `c`.
pub record Step {T : Type 0} (limit : ℕ) (c : Counts) (n : ℕ) (a : AreaInner T)
    (r : Result ReserveError (ℕ × ℕ)) (a' : AreaInner T) : Type 0 where
  pub after : Counts
  pub explains : Explains after a'
  pub later : Later c a after a'
  pub reserved : Reserved limit c after a.buffer_capacity n r

module _ {T : Type 0} {limit : ℕ} {c : Counts} {w : World T} where
  -- A compare-exchange on `write_gen` fails only if the count has moved.
  overtaken :
      {c' : Counts} {a : AreaInner T}
      → Moment limit c w
      → Later c w.mem c' a
      → Counters c' a
      → (a.write_gen == w.mem.write_gen) ≡ false
      → c.write < c'.write
  overtaken {c'} m l k e = ground (arith, m.counters, l.0, k)

  -- The write that follows when `write_gen` still reads as it was loaded.
  moved-Step :
      (n : ℕ)
      → Moment limit c w
      → c.write + n ≤ c.free + w.mem.buffer_capacity
      → (tick w).mem.write_gen ≡ w.mem.write_gen
      → let v = gen_add_msb_masked w.mem.write_gen n in
        Step limit c n w.mem (ok (w.mem.write_gen, v)) (set_write_gen v (tick w).mem)
  moved-Step n m h e =
      let (c', m', l) = tick-Moment m in
      let same = same_write m l m'.fits m'.counters e in
      let starts = sym e ∙ m'.counters.write in
      let sum : gen_add_msb_masked w.mem.write_gen n ≡ generation_of (c'.write + n) =
        ap (λ v. gen_add_msb_masked v n) starts ∙ add-generation_of c'.write n in
      record {
        after = move_write c' n;
        explains = move_write-Explains m' n _ (omega (arith, same, l.0, h)) sum;
        later = (omega (arith, l.0), l.1);
        reserved = record {
          x = c'.write;
          below = m'.fits.below;
          fresh = l.0.write;
          last = refl;
          starts = starts;
          ends = sum;
        };
      }

  pub grab-Step :
      (mode : Mode) (n : ℕ)
      → Moment limit c w
      → SoleWriter mode w
      → c.write + n ≤ c.free + w.mem.buffer_capacity
      → let (r, w') = grab mode w.mem.write_gen n w in Step limit c n w.mem r w'.mem
  unfolding grab
  grab-Step shared n m sole h =
      let (c', m', l) = tick-Moment m in
      elim (Bool-cases ((tick w).mem.write_gen == w.mem.write_gen)) [
        | inl e ↦ rw (e, grab) (moved-Step n m h ((==_iff _ _).0 e))
        | inr e ↦
            rw (e, grab)
              (record {
                after = c';
                explains = (m'.counters, m'.readers);
                later = l;
                reserved = (overtaken m l m'.counters e, m'.fits.below);
              })
      ]
  grab-Step exclusive n m sole h = moved-Step n m h (sole 0 w.mem)
