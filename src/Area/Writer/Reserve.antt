-- ===== src/Area/Writer/Reserve.antt =====
-- What a reservation does to the counts, whatever disciplined other threads do in between.
use market_square.Base.{ℕ, suc, ◌+◌, ◌-◌, ◌≡◌, ap, ◌∙◌, inl, inr, ltb, Bool-cases, arith}
use market_square.State.{AreaInner, World, tick, Result, ok, err, Mode, shared, exclusive}
use market_square.Area.Invariant.{Counts, Explains, Later, Moment, tick-Moment, Later-trans}
use market_square.Area.Writer.{ReserveError, no_space, failed_grab, available, try_reserve_slots}
use market_square.Area.Writer.Grab.{SoleWriter, Reserved, Step, available-eq, grab-Step}

-- A step from later counts is one from earlier counts.
Reserved-mono :
    {T : Type 0} (limit : ℕ) {c d : Counts} (e : Counts) {a b : AreaInner T} (n : ℕ)
    (r : Result ReserveError (ℕ × ℕ))
    → Later c a d b
    → Reserved limit d e b.buffer_capacity n r
    → Reserved limit c e a.buffer_capacity n r
Reserved-mono limit e n (ok (s, t)) l g = record {
  x = g.x;
  below = g.below;
  fresh = omega (arith, l.0.write, g.fresh);
  last = g.last;
  starts = g.starts;
  ends = g.ends;
}
Reserved-mono limit e n (err no_space) l g = (omega (arith, l.0, g.0), g.1)
Reserved-mono limit e n (err failed_grab) l g = (omega (arith, l.0, g.0), g.1)

pub Step-mono :
    {T : Type 0} {limit : ℕ} {c d : Counts} {a b a' : AreaInner T} {n : ℕ}
    {r : Result ReserveError (ℕ × ℕ)}
    → Later c a d b
    → Step limit d n b r a'
    → Step limit c n a r a'
Step-mono {limit} {n} {r} l s = record {
  after = s.after;
  explains = s.explains;
  later = Later-trans l s.later;
  reserved = Reserved-mono limit s.after n r l s.reserved;
}

pub tick-SoleWriter :
    {T : Type 0} (mode : Mode) (w : World T) → SoleWriter mode w → SoleWriter mode (tick w)
tick-SoleWriter shared w s = tt
tick-SoleWriter exclusive w s = λ k. s (suc k)

module _ {T : Type 0} {limit : ℕ} {c : Counts} (w : World T) where
  -- The room that a reservation computes from its two loads.
  pub loaded_room :
      {c1 c2 : Counts}
      → Moment limit c1 (tick w)
      → Moment limit c2 (tick (tick w))
      → Later c w.mem c1 (tick w).mem
      → Later c1 (tick w).mem c2 (tick (tick w)).mem
      → let a = (tick (tick w)).mem in
        available a.buffer_capacity a.write_gen (tick w).mem.free_gen
        ≡ c1.free + w.mem.buffer_capacity - c2.write
  loaded_room {c1} {c2} m1 m2 l1 l2 =
      let a = (tick (tick w)).mem in
      ap (available a.buffer_capacity a.write_gen) m1.counters.free
      ∙ (available-eq m2 c1.free l2.0.free (omega (arith, m1.fits, m2.fits))
          ∙ omega (arith, l1.0, l2.0))

module _ {T : Type 0} {limit : ℕ} {c : Counts} {w : World T} where
  try_reserve_slots-Step :
      (mode : Mode) (n : ℕ)
      → Moment limit c w
      → SoleWriter mode w
      → let (r, w') = try_reserve_slots mode n w in Step limit c n w.mem r w'.mem
  unfolding try_reserve_slots
  try_reserve_slots-Step mode n m sole =
      let (c1, m1, l1) = tick-Moment m in
      let (c2, m2, l2) = tick-Moment m1 in
      let l = Later-trans l1 l2 in
      let a = (tick (tick w)).mem in
      let room = loaded_room w m1 m2 l1 l2 in
      elim (Bool-cases (ltb (available a.buffer_capacity a.write_gen (tick w).mem.free_gen) n)) [
        | inl full ↦
            rw (full, try_reserve_slots)
              (record {
                after = c2;
                explains = (m2.counters, m2.readers);
                later = l;
                reserved = (ground (arith, full, room, l1.0), m2.fits.below);
              })
        | inr fits ↦
            rw (fits, try_reserve_slots)
              (Step-mono l (
                grab-Step mode n m2 (tick-SoleWriter mode (tick w) (tick-SoleWriter mode w sole))
                  (ground (arith, fits, room, l1.0, l2.0, m2.counters))))
      ]

-- In any mode and whatever disciplined other threads do between its accesses, a reservation keeps
-- the invariant and moves no count back. A granted range is the `n` messages that the call added to
-- the written ones, so that it lies within the buffer's room and overlaps no range granted before.
-- It is refused for lack of space only where the room that was free at the call, less what other
-- writers reserved meanwhile, is smaller than `n`, and a failed grab means that another writer
-- reserved meanwhile. The counts behind this stay within `limit`, apart from the granted messages.
-- In exclusive mode no other thread may move `write_gen`.
pub try_reserve_slots-Reserved :
    {T : Type 0} {limit : ℕ} {c : Counts} {w : World T} (mode : Mode) (n : ℕ)
    → Moment limit c w
    → SoleWriter mode w
    → (c' : Counts) × Explains c' (try_reserve_slots mode n w).1.mem
      × Later c w.mem c' (try_reserve_slots mode n w).1.mem
      × Reserved limit c c' w.mem.buffer_capacity n (try_reserve_slots mode n w).0
try_reserve_slots-Reserved mode n m sole =
    let s = try_reserve_slots-Step mode n m sole in (s.after, s.explains, s.later, s.reserved)
