-- ===== src/Destruction/Progress.antt =====
-- No drop is stuck: from every reachable state the drops can run to their end.
use market_square.Base.{
  ℕ, zero, suc, ◌+◌, ◌-◌, ◌≤◌, ◌<◌, ◌≡◌, inl, inr, refl, false, ◌==◌, Bool-cases, ==_iff, change,
  sum, sum-change, weight-le-sum, positive_index, arith,
}
use market_square.Destruction.{
  Counters, System, ReaderPc, reading, ticketed, scanning, yielding, attempting, waiting, decided,
  ReaderMove, WriterPc, writing, WriterMove, Step, reader, writer, IsInitial, Reach, here, later,
}
use market_square.Destruction.Defs.{keeps, reader_uses, writer_uses, frees, Inv}
use market_square.Destruction.Runs.{Reach-Inv, Step-Inv}
use market_square.Destruction.Once.{IsQuiet, IsQuiet-frees}

-- The accesses that a drop has left, not counting rounds of its waiting loop.
abbrev remaining : ℕ → ReaderPc → ℕ
remaining capacity reading = capacity + 7
remaining capacity ticketed = capacity + 6
remaining capacity (scanning q) = capacity - q + 5
remaining capacity attempting = 4
remaining capacity waiting = 3
remaining capacity decided = 2
remaining capacity yielding = 1
remaining capacity ReaderPc.leaving = 1
remaining capacity _ = 0

abbrev writer_remaining : WriterPc → ℕ
writer_remaining writing = 2
writer_remaining WriterPc.leaving = 1
writer_remaining _ = 0

abbrev measure : ℕ → ℕ → System → ℕ
measure capacity n s =
    sum (remaining capacity) capacity s.readers + sum writer_remaining n s.writers

-- A move of reader `i` that brings its drop nearer to the end.
record ReaderNext (capacity i : ℕ) (m : Counters) (p : ReaderPc) : Type 0 where
  m' : Counters
  p' : ReaderPc
  move : ReaderMove capacity i m p m' p'
  nearer : remaining capacity p' < remaining capacity p

record WriterNext (m : Counters) (p : WriterPc) : Type 0 where
  m' : Counters
  p' : WriterPc
  move : WriterMove m p m' p'
  nearer : writer_remaining p' < writer_remaining p

scanning_next :
    (capacity i : ℕ) (m : Counters) (q : ℕ) → q ≤ capacity → ReaderNext capacity i m (scanning q)
scanning_next capacity i m q h = elim (Bool-cases (q == capacity)) [
  | inl last ↦
      rw ((==_iff q capacity).0 last)
        (record { m' = _; p' = _; move = ReaderMove.attempt; nearer = omega arith })
  | inr before ↦
      let b : q < capacity = ground (arith, before, h) in
      elim (Bool-cases (m.occupied q)) [
        | inl e ↦ record { m' = _; p' = _; move = ReaderMove.see_reader b e; nearer = omega arith }
        | inr e ↦ record {
          m' = _;
          p' = _;
          move = ReaderMove.see_empty b e;
          nearer = omega (arith, b);
        }
      ]
]

-- Every reader that uses the area can move, but for one that waits for a ticket.
reader_next :
    (capacity i : ℕ) (m : Counters) (p : ReaderPc)
    → 0 < reader_uses p
    → ((q : ℕ) → p ≡ scanning q → q ≤ capacity)
    → (p ≡ waiting → m.reader_keep_alloc_tickets ≡ 0)
    → ReaderNext capacity i m p
reader_next capacity i m reading u b w = record {
  m' = _;
  p' = _;
  move = ReaderMove.take_ticket;
  nearer = omega arith;
}
reader_next capacity i m ticketed u b w = record {
  m' = _;
  p' = _;
  move = ReaderMove.unregister;
  nearer = omega arith;
}
reader_next capacity i m (scanning q) u b w = scanning_next capacity i m q (b q refl)
reader_next capacity i m yielding u b w = record {
  m' = _;
  p' = _;
  move = ReaderMove.yield;
  nearer = omega arith;
}
reader_next capacity i m attempting u b w = record {
  m' = _;
  p' = _;
  move = ReaderMove.stand;
  nearer = omega arith;
}
reader_next capacity i m waiting u b w = record {
  m' = _;
  p' = _;
  move = ReaderMove.pass (w refl);
  nearer = omega arith;
}
reader_next capacity i m decided u b w = elim (Bool-cases (m.reader_stage_tickets == 1)) [
  | inl e ↦ record {
    m' = _;
    p' = _;
    move = ReaderMove.win ((==_iff _ _).0 e);
    nearer = omega arith;
  }
  | inr e ↦ record {
    m' = _;
    p' = _;
    move = ReaderMove.lose (ground (arith, e));
    nearer = omega arith;
  }
]
reader_next capacity i m ReaderPc.leaving u b w = elim (Bool-cases (m.destroy_stages == 1)) [
  | inl e ↦ record {
    m' = _;
    p' = _;
    move = ReaderMove.free ((==_iff _ _).0 e);
    nearer = omega arith;
  }
  | inr e ↦ record {
    m' = _;
    p' = _;
    move = ReaderMove.leave (ground (arith, e));
    nearer = omega arith;
  }
]
reader_next capacity i m ReaderPc.absent u b w = absurd (omega (arith, u))
reader_next capacity i m ReaderPc.gone u b w = absurd (omega (arith, u))
reader_next capacity i m ReaderPc.left u b w = absurd (omega (arith, u))
reader_next capacity i m ReaderPc.freed u b w = absurd (omega (arith, u))

writer_next : (m : Counters) (p : WriterPc) → 0 < writer_uses p → WriterNext m p
writer_next m writing u = elim (Bool-cases (m.writers_count == 1)) [
  | inl e ↦ record {
    m' = _;
    p' = _;
    move = WriterMove.release_last ((==_iff _ _).0 e);
    nearer = omega arith;
  }
  | inr e ↦ record {
    m' = _;
    p' = _;
    move = WriterMove.release (ground (arith, e));
    nearer = omega arith;
  }
]
writer_next m WriterPc.leaving u = elim (Bool-cases (m.destroy_stages == 1)) [
  | inl e ↦ record {
    m' = _;
    p' = _;
    move = WriterMove.free ((==_iff _ _).0 e);
    nearer = omega arith;
  }
  | inr e ↦ record {
    m' = _;
    p' = _;
    move = WriterMove.leave (ground (arith, e));
    nearer = omega arith;
  }
]
writer_next m WriterPc.absent u = absurd (omega (arith, u))
writer_next m WriterPc.gone u = absurd (omega (arith, u))
writer_next m WriterPc.left u = absurd (omega (arith, u))
writer_next m WriterPc.freed u = absurd (omega (arith, u))

record Next (capacity n : ℕ) (s : System) : Type 0 where
  after : System
  step : Step false capacity n s after
  nearer : measure capacity n after < measure capacity n s

module _ {capacity n : ℕ} {s : System} (v : Inv capacity n s) where
  by_reader :
      (i : ℕ)
      → i < capacity
      → 0 < reader_uses (s.readers i)
      → (s.readers i ≡ waiting → s.counters.reader_keep_alloc_tickets ≡ 0)
      → Next capacity n s
  by_reader i h u w =
      let x = reader_next capacity i s.counters (s.readers i) u (λ q. v.readers.within i q) w in
      record {
        after = record s { counters = x.m'; readers = change s.readers i x.p' };
        step = reader i h x.move;
        nearer =
            omega (arith, x.nearer, sum-change (remaining capacity) capacity s.readers i x.p' h);
      }

  by_writer : (i : ℕ) → i < n → 0 < writer_uses (s.writers i) → Next capacity n s
  by_writer i h u =
      let x = writer_next s.counters (s.writers i) u in
      record {
        after = record s { counters = x.m'; writers = change s.writers i x.p' };
        step = writer i h x.move;
        nearer = omega (arith, x.nearer, sum-change writer_remaining n s.writers i x.p' h);
      }

  -- A reader that waits has one to wait for that can move.
  some_reader : (i : ℕ) → i < capacity → 0 < reader_uses (s.readers i) → Next capacity n s
  some_reader i h u = elim (Bool-cases (s.counters.reader_keep_alloc_tickets == 0)) [
    | inl free ↦ by_reader i h u (λ e. (==_iff _ _).0 free)
    | inr held ↦
        let (k, hk, pk) =
          positive_index keeps capacity s.readers (ground (arith, held, v.readers.tallies.keep)) in
        by_reader k hk (ground (arith, pk)) (λ e. ground (arith, pk, e))
  ]

  go_on : 0 < measure capacity n s → Next capacity n s
  go_on h = elim (Bool-cases (sum (remaining capacity) capacity s.readers == 0)) [
    | inl none_reading ↦
        let (i, hi, pi) =
          positive_index writer_remaining n s.writers (ground (arith, none_reading, h)) in
        by_writer i hi (ground (arith, pi))
    | inr some_reading ↦
        let (i, hi, pi) =
          positive_index (remaining capacity) capacity s.readers (ground (arith, some_reading)) in
        some_reader i hi (ground (arith, pi))
  ]

  ended : measure capacity n s ≡ 0 → IsQuiet capacity n s
  ended e = record {
    readers = λ i h. ground (arith, e, weight-le-sum (remaining capacity) capacity s.readers i h);
    writers = λ i h. ground (arith, e, weight-le-sum writer_remaining n s.writers i h);
  }

-- A run from `t` of which every state satisfies the invariant.
finish :
    {capacity n : ℕ} (k : ℕ) {t u : System}
    → Reach false capacity n t u
    → Inv capacity n u
    → measure capacity n u ≤ k
    → (e : System) × Reach false capacity n t e × Inv capacity n e × IsQuiet capacity n e
finish {capacity} {n} zero {u} r v h = (u, r, v, ended v (omega (arith, h)))
finish {capacity} {n} (suc k) {u} r v h = elim (Bool-cases (measure capacity n u == 0)) [
  | inl done ↦ (u, r, v, ended v ((==_iff _ _).0 done))
  | inr more ↦
      let x = go_on v (ground (arith, more)) in
      finish k (later r x.step) (Step-Inv v x.step) (omega (arith, x.nearer, h))
]

-- No drop is ever stuck: from every reachable state some run of the drops, without the creation of
-- a reader, ends with every handle dropped and the area freed once.
pub Reach-finishes :
    {capacity n : ℕ} {s t : System}
    → IsInitial capacity n s
    → Reach false capacity n s t
    → (u : System) × Reach false capacity n t u × IsQuiet capacity n u × (frees capacity n u ≡ 1)
Reach-finishes {capacity} {n} {t} start r =
    let (u, run, v, quiet) = finish (measure capacity n t) here (Reach-Inv start r) (omega arith) in
    (u, run, quiet, IsQuiet-frees v quiet)
