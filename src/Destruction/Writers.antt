-- ===== src/Destruction/Writers.antt =====
-- A writer's move, and the creation of a writer, keep the tallies of the writers.
use market_square.Base.{
  ℕ, ◌+◌, ◌≤◌, ◌<◌, ◌≡◌, change, sum, sum-change, weight-le-sum, sum-le-count, arith,
}
use market_square.Destruction.{
  Counters, WriterPc, writing, WriterMove, release, release_last, plus_one, living,
}
use market_square.Destruction.Defs.{acts, Writers}

-- What a change of one writer from `p` to `p'` does to the sums.
record Turns (n : ℕ) (pc : ℕ → WriterPc) (i : ℕ) (p p' : WriterPc) : Type 0 where
  write : sum living n (change pc i p') + living p ≡ sum living n pc + living p'
  act : sum acts n (change pc i p') + acts p ≡ sum acts n pc + acts p'
  bound : sum living n pc ≤ n
  bound' : sum living n (change pc i p') ≤ n

turns : (n : ℕ) (pc : ℕ → WriterPc) (i : ℕ) (p' : WriterPc) → i < n → Turns n pc i (pc i) p'
turns n pc i p' h = record {
  write = sum-change living n pc i p' h;
  act = sum-change acts n pc i p' h;
  bound = sum-le-count living (λ p. ground arith) n pc;
  bound' = sum-le-count living (λ p. ground arith) n (change pc i p');
}

module _ {n : ℕ} {m : Counters} {pc : ℕ → WriterPc} (r : Writers n m pc) (i : ℕ) where
  moved :
      {p p' : WriterPc} {m' : Counters}
      → WriterMove m p m' p'
      → Turns n pc i p p'
      → Writers n m' (change pc i p')
  moved (release g) t = ground (arith, r, g)
  moved (release_last g) t = ground (arith, r, g)
  moved mv t = ground (arith, r)

  -- A move of a writer keeps what holds of the writers.
  pub WriterMove-Writers :
      {p' : WriterPc} {m' : Counters}
      → i < n
      → WriterMove m (pc i) m' p'
      → Writers n m' (change pc i p')
  WriterMove-Writers {p'} h mv = moved mv (turns n pc i p' h)

  created :
      {p : WriterPc}
      → p ≡ WriterPc.absent
      → (j : ℕ) → j < n
      → pc j ≡ writing
      → Turns n pc i p writing
      → Writers n (record m { writers_count = plus_one m.writers_count }) (change pc i writing)
  created e j h w t = ground (arith, r, e, weight-le-sum living n pc j h, w)

  -- So does the creation of a writer by another.
  pub create_writer-Writers :
      (j : ℕ)
      → i < n
      → j < n
      → pc j ≡ writing
      → pc i ≡ WriterPc.absent
      → Writers n (record m { writers_count = plus_one m.writers_count }) (change pc i writing)
  create_writer-Writers j h k w e = created e j k w (turns n pc i writing h)
