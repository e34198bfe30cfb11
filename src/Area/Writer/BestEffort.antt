-- ===== src/Area/Writer/BestEffort.antt =====
-- What a best-effort reservation does to the counts.
use market_square.Base.{
  ℕ, zero, suc, ◌+◌, ◌≤◌, ◌<◌, ◌≡◌, ◌≢◌, ◌⊎◌, refl, inl, inr, false, ◌==◌, min, Bool-cases, arith,
}
use market_square.State.{AreaInner, World, tick, Result, ok, err, Mode, shared, exclusive}
use market_square.Area.Invariant.{
  Counts, Explains, Later, Moment, tick-Moment, Later-trans, Later-refl,
}
use market_square.Area.Writer.{
  ReserveError, no_space, failed_grab, available, grab, try_reserve_slots_best_effort,
}
use market_square.Area.Writer.Grab.{SoleWriter, Granted, Reserved, grab-Step}
use market_square.Area.Writer.Reserve.{tick-SoleWriter, loaded_room}

-- A best-effort range is empty, or granted; it has fewer slots than asked for only where no more
-- were free.
abbrev pub Taken : ℕ → Counts → Counts → ℕ → ℕ → ℕ → Type 0
Taken limit c c' zero s e = (s ≡ 0) × (e ≡ 0)
Taken limit c c' (suc k) s e = Granted limit c c' (suc k) s e

abbrev pub ReservedSome : ℕ → Counts → Counts → ℕ → ℕ → Result ReserveError (ℕ × ℕ × ℕ) → Type 0
ReservedSome limit c c' buffer_capacity n (ok (s, e, k)) =
    (k ≤ n)
    × ((k ≡ n) ⊎ (c.free + buffer_capacity ≤ c'.write))
    × (c'.write ≤ limit + k)
    × Taken limit c c' k s e
ReservedSome limit c c' buffer_capacity n (err no_space) = ⊥
ReservedSome limit c c' buffer_capacity n (err failed_grab) =
    (c.write < c'.write) × (c'.write ≤ limit)

record SomeStep {T : Type 0} (limit : ℕ) (c : Counts) (n : ℕ) (a : AreaInner T)
    (r : Result ReserveError (ℕ × ℕ × ℕ)) (a' : AreaInner T) : Type 0 where
  after : Counts
  explains : Explains after a'
  later : Later c a after a'
  reserved : ReservedSome limit c after a.buffer_capacity n r

-- A grab of `k` slots within a request for `n`.
abbrev counted : ℕ → Result ReserveError (ℕ × ℕ) → Result ReserveError (ℕ × ℕ × ℕ)
counted k r = elim r [ ok (s, e) ↦ ok (s, e, k) | err x ↦ err x ]

counted-ReservedSome :
    {T : Type 0} (limit : ℕ) {c d : Counts} (e : Counts) {a b : AreaInner T} (n k : ℕ)
    (r : Result ReserveError (ℕ × ℕ))
    → k ≢ 0
    → k ≤ n
    → (k ≡ n) ⊎ (c.free + a.buffer_capacity ≤ d.write + k)
    → r ≢ err no_space
    → Later c a d b
    → Reserved limit d e b.buffer_capacity k r
    → ReservedSome limit c e a.buffer_capacity n (counted k r)
counted-ReservedSome limit e n zero r z h full ne l g = absurd (z refl)
counted-ReservedSome limit e n (suc k) (ok (s, t)) z h full ne l g = (
  h,
  ground (arith, full, g.last, g.fresh),
  omega (arith, g.below, g.last),
  record {
    x = g.x;
    below = g.below;
    fresh = omega (arith, l.0.write, g.fresh);
    last = g.last;
    starts = g.starts;
    ends = g.ends;
  },
)
counted-ReservedSome limit e n (suc k) (err no_space) z h full ne l g = absurd (ne refl)
counted-ReservedSome limit e n (suc k) (err failed_grab) z h full ne l g =
    (omega (arith, l.0, g.0), g.1)

grab-ne-no_space :
    {T : Type 0} (mode : Mode) (current n : ℕ) (w : World T)
    → (grab mode current n w).0 ≢ err no_space
unfolding grab
grab-ne-no_space shared current n w = ground arith
grab-ne-no_space exclusive current n w = ground arith

module _ {T : Type 0} {limit : ℕ} {c : Counts} {w : World T} where
  -- The branch in which some slots are asked for.
  asking-SomeStep :
      (mode : Mode) (n : ℕ)
      → (n == 0) ≡ false
      → Moment limit c w
      → SoleWriter mode w
      → let (r, w') = try_reserve_slots_best_effort mode n w in SomeStep limit c n w.mem r w'.mem
  unfolding try_reserve_slots_best_effort
  asking-SomeStep mode n some_asked m sole =
      let (c1, m1, l1) = tick-Moment m in
      let (c2, m2, l2) = tick-Moment m1 in
      let l = Later-trans l1 l2 in
      let w2 = tick (tick w) in
      let a = w2.mem in
      let room = loaded_room w m1 m2 l1 l2 in
      let k = min n (available a.buffer_capacity a.write_gen (tick w).mem.free_gen) in
      elim (Bool-cases (k == 0)) [
        | inl none_left ↦
            rw (some_asked, none_left, try_reserve_slots_best_effort)
              (record {
                after = c2;
                explains = (m2.counters, m2.readers);
                later = l;
                reserved = (
                  omega arith,
                  inr (ground (arith, some_asked, none_left, room, l1.0)),
                  omega (arith, m2.fits.below),
                  (refl, refl),
                );
              })
        | inr some_left ↦
            let s =
              grab-Step mode k m2 (tick-SoleWriter mode (tick w) (tick-SoleWriter mode w sole))
                (ground (arith, some_left, room, l1.0, l2.0, m2.counters)) in
            rw (some_asked, some_left, try_reserve_slots_best_effort)
              (record {
                after = s.after;
                explains = s.explains;
                later = Later-trans l s.later;
                reserved =
                    counted-ReservedSome limit s.after n k _ (ground (arith, some_left))
                      (omega arith) (ground (arith, room, l1.0, some_left))
                      (grab-ne-no_space mode a.write_gen k w2) l s.reserved;
              })
      ]

-- In any mode and whatever disciplined other threads do between its accesses, a best-effort
-- reservation keeps the invariant, moves no count back and never reports a lack of space. It
-- returns the empty range (0, 0) or the messages that it added to the written ones, no more than
-- asked for, and fewer only if they used up all the room that the counts had at the call. A failed
-- grab means that another writer reserved meanwhile. The counts behind this stay within `limit`,
-- apart from the messages of this reservation. In exclusive mode no other thread may move
-- `write_gen`.
pub try_reserve_slots_best_effort-ReservedSome :
    {T : Type 0} {limit : ℕ} {c : Counts} {w : World T} (mode : Mode) (n : ℕ)
    → Moment limit c w
    → SoleWriter mode w
    → (c' : Counts) × Explains c' (try_reserve_slots_best_effort mode n w).1.mem
      × Later c w.mem c' (try_reserve_slots_best_effort mode n w).1.mem
      × ReservedSome limit c c' w.mem.buffer_capacity n (try_reserve_slots_best_effort mode n w).0
unfolding try_reserve_slots_best_effort
try_reserve_slots_best_effort-ReservedSome {c} mode n m sole = elim (Bool-cases (n == 0)) [
  | inl nothing ↦
      rw (nothing, try_reserve_slots_best_effort)
        (
          c,
          (m.counters, m.readers),
          Later-refl,
          (omega arith, inl (ground (arith, nothing)), omega (arith, m.fits.below), (refl, refl)),
        )
  | inr something ↦
      let s = asking-SomeStep mode n something m sole in (s.after, s.explains, s.later, s.reserved)
]
