-- ===== src/Destruction/Runs.antt =====
-- Every reachable state of the destruction protocol, when no reader is created, satisfies `Inv`.
use market_square.Base.{
  ℕ, ◌+◌, ◌≤◌, ◌<◌, ◌≡◌, ◌⊎◌, refl, false, change, sum, sum-change, weight-le-sum, sum-eq-zero,
  sum-le, arith,
}
use market_square.Destruction.{
  Counters, System, ReaderPc, reading, ReaderMove, WriterPc, writing, WriterMove, living, Step,
  reader, writer, create_writer, create_reader, IsInitial, Reach, here, later,
}
use market_square.Destruction.Defs.{
  keeps, stages, registers, decides, elected, reader_done, reader_frees, acts, writer_done,
  writer_frees, Readers, Writers, frees, sides, Inv,
}
use market_square.Destruction.Readers.{ReaderMove-Readers}
use market_square.Destruction.Writers.{WriterMove-Writers, create_writer-Writers}

module _ {capacity n : ℕ} {s : System} (start : IsInitial capacity n s) where
  idle_readers :
      (w : ReaderPc → ℕ) → w ReaderPc.absent ≡ 0 → w reading ≡ 0 → sum w capacity s.readers ≡ 0
  idle_readers w a b =
      sum-eq-zero w capacity s.readers (λ i h. ground (arith, start.readers i, a, b))

  idle_writers : (w : WriterPc → ℕ) → w WriterPc.absent ≡ 0 → w writing ≡ 0 → sum w n s.writers ≡ 0
  idle_writers w a b = sum-eq-zero w n s.writers (λ i h. ground (arith, start.writers i, a, b))

  some_reader : 0 < sum registers capacity s.readers
  some_reader =
      let (i, h, e) = start.reader in
      ground (arith, weight-le-sum registers capacity s.readers i h, e)

  some_writer : 0 < sum living n s.writers
  some_writer =
      let (i, h, e) = start.writer in ground (arith, weight-le-sum living n s.writers i h, e)

  pub IsInitial-Inv : Inv capacity n s
  IsInitial-Inv =
      let kept = idle_readers keeps refl refl in
      let staged = idle_readers stages refl refl in
      let decided = idle_readers decides refl refl in
      let elect = idle_readers elected refl refl in
      let rdone = idle_readers reader_done refl refl in
      let rfrees = idle_readers reader_frees refl refl in
      let act = idle_writers acts refl refl in
      let wdone = idle_writers writer_done refl refl in
      let wfrees = idle_writers writer_frees refl refl in
      record {
        readers = record {
          few = start.few_readers;
          tallies = ground (arith, start.keep_alloc, start.stage_tickets, some_reader);
          keys = start.keys;
          seen = λ i p q e h. ground (arith, start.readers i);
          within = λ i p e. ground (arith, start.readers i);
        };
        writers = ground (arith, start.few_writers, start.writers_count, some_writer);
        stages = ground (arith, start.destroy_stages);
        last = ground (arith, start.destroy_stages);
      }

-- The sides that are done, against the elections.
pub record Elections (capacity n : ℕ) (r : ℕ → ReaderPc) (w : ℕ → WriterPc) : Type 0 where
  pub reader : sum reader_done capacity r ≤ sum elected capacity r
  pub writer : sum writer_done n w ≤ sum acts n w
  pub reader_free : sum reader_frees capacity r ≤ sum reader_done capacity r
  pub writer_free : sum writer_frees n w ≤ sum writer_done n w

pub elections : (capacity n : ℕ) (r : ℕ → ReaderPc) (w : ℕ → WriterPc) → Elections capacity n r w
elections capacity n r w = record {
  reader = sum-le reader_done elected (λ p. ground arith) capacity r;
  writer = sum-le writer_done acts (λ p. ground arith) n w;
  reader_free = sum-le reader_frees reader_done (λ p. ground arith) capacity r;
  writer_free = sum-le writer_frees writer_done (λ p. ground arith) n w;
}

-- The last two fields of `Inv`.
record Ends (capacity n : ℕ) (s : System) : Type 0 where
  stages : s.counters.destroy_stages + sides capacity n s ≡ 2
  last :
      ((0 < s.counters.destroy_stages) × (frees capacity n s ≡ 0))
      ⊎ ((s.counters.destroy_stages ≡ 0) × (frees capacity n s ≡ 1))

reader-Ends :
    {capacity n : ℕ} {s : System} (i : ℕ) {m : Counters} {p p' : ReaderPc}
    → Inv capacity n s
    → ReaderMove capacity i s.counters p m p'
    → sum reader_done capacity (change s.readers i p') + reader_done p
      ≡ sum reader_done capacity s.readers + reader_done p'
    → sum reader_frees capacity (change s.readers i p') + reader_frees p
      ≡ sum reader_frees capacity s.readers + reader_frees p'
    → sum elected capacity (change s.readers i p') ≤ 1
    → Ends capacity n (record s { counters = m; readers = change s.readers i p' })
reader-Ends {capacity} {n} {s} i {p'} v (ReaderMove.leave g) d f o =
    ground
      (arith, v.stages, v.last, v.writers, elections capacity n (change s.readers i p') s.writers)
reader-Ends {capacity} {n} {s} i {p'} v (ReaderMove.free g) d f o =
    ground
      (arith, v.stages, v.last, v.writers, elections capacity n (change s.readers i p') s.writers)
reader-Ends i v mv d f o = ground (arith, v.stages, v.last)

writer-Ends :
    {capacity n : ℕ} {s : System} {m : Counters} {p p' : WriterPc} (i : ℕ)
    → Inv capacity n s
    → WriterMove s.counters p m p'
    → sum writer_done n (change s.writers i p') + writer_done p
      ≡ sum writer_done n s.writers + writer_done p'
    → sum writer_frees n (change s.writers i p') + writer_frees p
      ≡ sum writer_frees n s.writers + writer_frees p'
    → sum acts n (change s.writers i p') ≤ 1
    → Ends capacity n (record s { counters = m; writers = change s.writers i p' })
writer-Ends {capacity} {n} {s} {p'} i v (WriterMove.leave g) d f o = ground (
  arith,
  v.stages,
  v.last,
  v.readers.tallies.one,
  elections capacity n s.readers (change s.writers i p'),
)
writer-Ends {capacity} {n} {s} {p'} i v (WriterMove.free g) d f o = ground (
  arith,
  v.stages,
  v.last,
  v.readers.tallies.one,
  elections capacity n s.readers (change s.writers i p'),
)
writer-Ends i v mv d f o = ground (arith, v.stages, v.last)

create-Ends :
    {capacity n : ℕ} {s : System} {p : WriterPc} (j : ℕ)
    → Inv capacity n s
    → p ≡ WriterPc.absent
    → sum writer_done n (change s.writers j writing) + writer_done p ≡ sum writer_done n s.writers
    → sum writer_frees n (change s.writers j writing) + writer_frees p
      ≡ sum writer_frees n s.writers
    → (c : ℕ)
    → Ends capacity n (record s {
      counters = record s.counters { writers_count = c };
      writers = change s.writers j writing;
    })
create-Ends j v e d f c = ground (arith, v.stages, v.last, e)

-- Neither side's moves touch what the other's tallies are about.
kept-Writers :
    {capacity n : ℕ} {w : ℕ → WriterPc} (i : ℕ) {m m' : Counters} {p p' : ReaderPc}
    → ReaderMove capacity i m p m' p'
    → Writers n m w
    → Writers n m' w
kept-Writers i ReaderMove.take_ticket v = ground (arith, v)
kept-Writers i mv v = ground (arith, v)

recounted :
    {capacity : ℕ} {r : ℕ → ReaderPc} {m : Counters} {c d : ℕ}
    → Readers capacity m r
    → Readers capacity (record m { writers_count = c; destroy_stages = d }) r
recounted v = record {
  few = v.few;
  tallies = ground (arith, v.tallies);
  keys = v.keys;
  seen = v.seen;
  within = v.within;
}

kept-Readers :
    {capacity : ℕ} {r : ℕ → ReaderPc} {m m' : Counters} {p p' : WriterPc}
    → WriterMove m p m' p'
    → Readers capacity m r
    → Readers capacity m' r
kept-Readers (WriterMove.release g) v = recounted v
kept-Readers (WriterMove.release_last g) v = recounted v
kept-Readers (WriterMove.leave g) v = recounted v
kept-Readers (WriterMove.free g) v = recounted v

-- Each step keeps the invariant.
pub Step-Inv :
    {capacity n : ℕ} {s t : System}
    → Inv capacity n s
    → Step false capacity n s t
    → Inv capacity n t
Step-Inv {capacity} {n} {s} v (reader i {p} h mv) =
    let r = ReaderMove-Readers i v.readers h mv in
    let e =
      reader-Ends i v mv (sum-change reader_done capacity s.readers i p h)
        (sum-change reader_frees capacity s.readers i p h) r.tallies.one in
    record { readers = r; writers = kept-Writers i mv v.writers; stages = e.stages; last = e.last }
Step-Inv {capacity} {n} {s} v (writer i {p} h mv) =
    let w = WriterMove-Writers v.writers i h mv in
    let e =
      writer-Ends i v mv (sum-change writer_done n s.writers i p h)
        (sum-change writer_frees n s.writers i p h) w.one in
    record { readers = kept-Readers mv v.readers; writers = w; stages = e.stages; last = e.last }
Step-Inv {capacity} {n} {s} v (create_writer i j h k living_i absent_j) =
    let e =
      create-Ends j v absent_j (ground (arith, sum-change writer_done n s.writers j writing k))
        (ground (arith, sum-change writer_frees n s.writers j writing k)) 0 in
    record {
      readers = recounted v.readers;
      writers = create_writer-Writers v.writers j i k h living_i absent_j;
      stages = e.stages;
      last = e.last;
    }
Step-Inv v (create_reader i j c h k e f) = ground (arith, c)

pub Reach-Inv :
    {capacity n : ℕ} {s t : System}
    → IsInitial capacity n s
    → Reach false capacity n s t
    → Inv capacity n t
Reach-Inv start here = IsInitial-Inv start
Reach-Inv start (later r st) = Step-Inv (Reach-Inv start r) st
