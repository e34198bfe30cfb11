-- ===== src/Destruction/Readers.antt =====
-- A reader's move keeps the tallies of the readers.
use market_square.Base.{
  ℕ, ◌+◌, ◌≤◌, ◌<◌, ◌≡◌, ◌≢◌, inl, inr, refl, true, false, ◌==◌, Bool-cases, ==_iff, change, sum,
  sum-change, weight-le-sum, sum-le, sum-le-count, sum-eq-zero, arith,
}
use market_square.Destruction.{
  Counters, ReaderPc, scanning, registered, ReaderMove, take_ticket, see_reader, see_empty, attempt,
  pass, lose, win,
}
use market_square.Destruction.Defs.{
  keeps, stages, registers, decides, elected, hopes, Tallies, Readers,
}

-- What a move of one reader from `p` to `p'` does to the sum of a weight.
record Turn (weight : ReaderPc → ℕ) (capacity : ℕ) (pc : ℕ → ReaderPc) (i : ℕ) (p p' : ReaderPc)
    : Type 0 where
  moved : sum weight capacity (change pc i p') + weight p ≡ sum weight capacity pc + weight p'
  own : weight p ≤ sum weight capacity pc

turn :
    (weight : ReaderPc → ℕ) (capacity : ℕ) (pc : ℕ → ReaderPc) (i : ℕ) (p' : ReaderPc)
    → i < capacity
    → Turn weight capacity pc i (pc i) p'
turn weight capacity pc i p' h = record {
  moved = sum-change weight capacity pc i p' h;
  own = weight-le-sum weight capacity pc i h;
}

record Turns (capacity : ℕ) (pc : ℕ → ReaderPc) (i : ℕ) (p p' : ReaderPc) : Type 0 where
  at : pc i ≡ p
  keep : Turn keeps capacity pc i p p'
  stage : Turn stages capacity pc i p p'
  register : Turn registers capacity pc i p p'
  decide : Turn decides capacity pc i p p'
  elect : Turn elected capacity pc i p p'
  hope : Turn hopes capacity pc i p p'

turns :
    (capacity : ℕ) (pc : ℕ → ReaderPc) (i : ℕ) (p' : ReaderPc)
    → i < capacity
    → Turns capacity pc i (pc i) p'
turns capacity pc i p' h = record {
  at = refl;
  keep = turn keeps capacity pc i p' h;
  stage = turn stages capacity pc i p' h;
  register = turn registers capacity pc i p' h;
  decide = turn decides capacity pc i p' h;
  elect = turn elected capacity pc i p' h;
  hope = turn hopes capacity pc i p' h;
}

-- The bounds of the sums, whatever the readers do.
record Bounds (capacity : ℕ) (pc : ℕ → ReaderPc) : Type 0 where
  keep : sum keeps capacity pc ≤ capacity
  stage : sum stages capacity pc ≤ capacity
  decide : sum decides capacity pc ≤ sum stages capacity pc
  hope : sum stages capacity pc ≤ sum hopes capacity pc

bounds : (capacity : ℕ) (pc : ℕ → ReaderPc) → Bounds capacity pc
bounds capacity pc = record {
  keep = sum-le-count keeps (λ p. ground arith) capacity pc;
  stage = sum-le-count stages (λ p. ground arith) capacity pc;
  decide = sum-le decides stages (λ p. ground arith) capacity pc;
  hope = sum-le stages hopes (λ p. ground arith) capacity pc;
}

module _ {capacity : ℕ} {m : Counters} {pc : ℕ → ReaderPc} (r : Readers capacity m pc) (i : ℕ) where
  -- A scan that has seen every slot empty.
  none_registered : pc i ≡ scanning capacity → sum registers capacity pc ≡ 0
  none_registered e =
      sum-eq-zero registers capacity pc (λ q h. ground (arith, r.keys q h, r.seen i capacity q e h))

  some_registered : (p : ℕ) → p < capacity → m.occupied p ≡ true → 0 < sum registers capacity pc
  some_registered p h e = ground (arith, r.keys p h, e, weight-le-sum registers capacity pc p h)

  -- What a move's premises say of the sums.
  abbrev Guard : {p p' : ReaderPc} {m' : Counters} → ReaderMove capacity i m p m' p' → Type 0
  Guard (pass _) = m.reader_keep_alloc_tickets ≡ 0
  Guard (win _) = m.reader_stage_tickets ≡ 1
  Guard (lose _) = m.reader_stage_tickets ≢ 1
  Guard (see_reader _ _) = 0 < sum registers capacity pc
  Guard attempt = sum registers capacity pc ≡ 0
  Guard _ = Unit

  guard :
      {p p' : ReaderPc} {m' : Counters} (mv : ReaderMove capacity i m p m' p') → pc i ≡ p → Guard mv
  guard (pass g) e = g
  guard (win g) e = g
  guard (lose g) e = g
  guard (see_reader {p} h g) e = some_registered p h g
  guard attempt e = none_registered e
  guard _ e = tt

  ReaderMove-Tallies :
      {p p' : ReaderPc} {m' : Counters}
      → ReaderMove capacity i m p m' p'
      → Turns capacity pc i p p'
      → Tallies capacity m' (change pc i p')
  ReaderMove-Tallies {p'} take_ticket t =
      ground (arith, r.few, r.tallies, bounds capacity pc, bounds capacity (change pc i p'))
  ReaderMove-Tallies {p'} mv t =
      ground (
        arith,
        guard mv t.at,
        r.few,
        r.tallies,
        bounds capacity pc,
        bounds capacity (change pc i p'),
      )

  ReaderMove-keys :
      {p p' : ReaderPc} {m' : Counters}
      → ReaderMove capacity i m p m' p'
      → pc i ≡ p
      → (j : ℕ) → j < capacity
      → m'.occupied j ≡ registered (change pc i p' j)
  ReaderMove-keys take_ticket e j h = ground (arith, r.keys j h)
  ReaderMove-keys mv e j h = ground (arith, r.keys j h)

  -- A scanning reader saw each slot before its place empty, and no move fills one.
  ReaderMove-seen :
      {p p' : ReaderPc} {m' : Counters}
      → ReaderMove capacity i m p m' p'
      → pc i ≡ p
      → (j q k : ℕ) → change pc i p' j ≡ scanning q
      → k < q
      → m'.occupied k ≡ false
  ReaderMove-seen take_ticket e j q k s h = ground (arith, r.seen j q k)
  ReaderMove-seen (see_empty {p} b g) e j q k s h = elim (Bool-cases (k == p)) [
    | inl here ↦ rw ((==_iff k p).0 here) g
    | inr before ↦ ground (arith, before, r.seen i p k, r.seen j q k)
  ]
  ReaderMove-seen mv e j q k s h = ground (arith, r.seen j q k)

  ReaderMove-within :
      {p p' : ReaderPc} {m' : Counters}
      → ReaderMove capacity i m p m' p'
      → (j q : ℕ) → change pc i p' j ≡ scanning q
      → q ≤ capacity
  ReaderMove-within take_ticket j q s = ground (arith, r.within j q)
  ReaderMove-within (see_empty b g) j q s = ground (arith, r.within j q)
  ReaderMove-within mv j q s = ground (arith, r.within j q)

-- A move of a reader keeps what holds of the readers.
pub ReaderMove-Readers :
    {capacity : ℕ} {m m' : Counters} {pc : ℕ → ReaderPc} {p' : ReaderPc} (i : ℕ)
    → Readers capacity m pc
    → i < capacity
    → ReaderMove capacity i m (pc i) m' p'
    → Readers capacity m' (change pc i p')
ReaderMove-Readers {capacity} {pc} {p'} i r h mv = record {
  few = r.few;
  tallies = ReaderMove-Tallies r i mv (turns capacity pc i p' h);
  keys = ReaderMove-keys r i mv refl;
  seen = ReaderMove-seen r i mv refl;
  within = ReaderMove-within r i mv;
}
