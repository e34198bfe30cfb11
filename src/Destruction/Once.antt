-- ===== src/Destruction/Once.antt =====
-- The area is freed by one thread, when no other thread uses it any more.
use market_square.Base.{
  ℕ, ◌≤◌, ◌<◌, ◌≡◌, ◌↔◌, inl, inr, sym, ap, ◌∙◌, false, ◌==◌, ltb, Bool-cases, ==_iff, sum,
  weight-le-sum, two-le-sum, positive_index, sum-eq-zero, arith,
}
use market_square.Destruction.{System, ReaderPc, living, IsInitial, Reach}
use market_square.Destruction.Defs.{
  registers, elected, hopes, reader_done, reader_uses, acts, writer_done, writer_uses, keeps,
  stages, frees, sides, Inv,
}
use market_square.Destruction.Runs.{elections, Reach-Inv}

-- No thread will access the area again.
pub record IsQuiet (capacity n : ℕ) (s : System) : Type 0 where
  pub readers : (i : ℕ) → i < capacity → reader_uses (s.readers i) ≡ 0
  pub writers : (i : ℕ) → i < n → writer_uses (s.writers i) ≡ 0

-- Two indices cannot both be counted by a sum of one.
same_index :
    {A : Type 0} (w : A → ℕ) (n : ℕ) (f : ℕ → A) (i j : ℕ)
    → i < n
    → j < n
    → sum w n f ≤ 1
    → 0 < w (f i)
    → 0 < w (f j)
    → i ≡ j
same_index w n f i j hi hj one pi pj = elim (Bool-cases (ltb i j)) [
  | inl less ↦ absurd (ground (arith, less, two-le-sum w n f i j))
  | inr more ↦ elim (Bool-cases (ltb j i)) [
    | inl less ↦ absurd (ground (arith, less, two-le-sum w n f j i))
    | inr equal ↦ ground (arith, more, equal)
  ]
]

-- A thread that is done is in a state that does not use the area.
reader_done-uses : (p : ReaderPc) → 0 < reader_done p → reader_uses p ≡ 0
reader_done-uses p h = ground (arith, h)

reader_done-elected : (p : ReaderPc) → 0 < reader_done p → 0 < elected p
reader_done-elected p h = ground (arith, h)

-- A reader that uses the area holds something that the tallies count.
reader_uses-counted :
    (p : ReaderPc)
    → registers p ≡ 0
    → keeps p ≡ 0
    → stages p ≡ 0
    → elected p ≡ 0
    → reader_uses p ≡ 0
reader_uses-counted p a b c d = ground (arith, a, b, c, d)

module _ {capacity n : ℕ} {s : System} (v : Inv capacity n s) where
  quiet_reader :
      (i k : ℕ)
      → i < capacity
      → k < capacity
      → 0 < reader_done (s.readers k)
      → reader_uses (s.readers i) ≡ 0
  quiet_reader i k h hk dk =
      let t = v.readers.tallies in
      let ek = reader_done-elected (s.readers k) dk in
      let there = weight-le-sum elected capacity s.readers k hk in
      elim (Bool-cases (elected (s.readers i) == 0)) [
        | inl not_elected ↦
            reader_uses-counted (s.readers i)
              (ground (arith, t.last, ek, there, weight-le-sum registers capacity s.readers i h))
              (ground (arith, t.passed, ek, there, weight-le-sum keeps capacity s.readers i h))
              (ground (arith, t.alone, ek, there, weight-le-sum stages capacity s.readers i h))
              ((==_iff _ _).0 not_elected)
        | inr is_elected ↦
            let e =
              same_index elected capacity s.readers k i hk h t.one ek
                (ground (arith, is_elected)) in
            ap (λ j. reader_uses (s.readers j)) (sym e) ∙ reader_done-uses (s.readers k) dk
      ]

  quiet_writer :
      (i l : ℕ) → i < n → l < n → 0 < writer_done (s.writers l) → writer_uses (s.writers i) ≡ 0
  quiet_writer i l h hl dl =
      let t = v.writers in
      let el : 0 < acts (s.writers l) = ground (arith, dl) in
      let there = weight-le-sum acts n s.writers l hl in
      elim (Bool-cases (acts (s.writers i) == 0)) [
        | inl not_elected ↦
            ground (arith, not_elected, t.alone, el, there, weight-le-sum living n s.writers i h)
        | inr is_elected ↦
            let e = same_index acts n s.writers l i hl h t.one el (ground (arith, is_elected)) in
            ap (λ j. writer_uses (s.writers j)) (sym e) ∙ ground (arith, dl)
      ]

  -- Where both sides are done, nobody uses the area.
  done-IsQuiet : sides capacity n s ≡ 2 → IsQuiet capacity n s
  done-IsQuiet both =
      let e = elections capacity n s.readers s.writers in
      let (k, hk, dk) =
        positive_index reader_done capacity s.readers
          (omega (arith, both, e, v.readers.tallies.one, v.writers.one)) in
      let (l, hl, dl) =
        positive_index writer_done n s.writers
          (omega (arith, both, e, v.readers.tallies.one, v.writers.one)) in
      record {
        readers = λ i h. quiet_reader i k h hk dk;
        writers = λ i h. quiet_writer i l h hl dl;
      }

  -- Where nobody uses the area, both sides are done.
  IsQuiet-done : IsQuiet capacity n s → sides capacity n s ≡ 2
  IsQuiet-done q =
      let e = elections capacity n s.readers s.writers in
      let no_readers =
        sum-eq-zero registers capacity s.readers (λ i h. ground (arith, q.readers i h)) in
      let no_writers = sum-eq-zero living n s.writers (λ i h. ground (arith, q.writers i h)) in
      let (k, hk, pk) =
        positive_index hopes capacity s.readers
          (ground (arith, no_readers, v.readers.tallies.someone)) in
      let (l, hl, pl) =
        positive_index acts n s.writers (ground (arith, no_writers, v.writers.either)) in
      let dk : 0 < reader_done (s.readers k) = ground (arith, pk, q.readers k hk) in
      let dl : 0 < writer_done (s.writers l) = ground (arith, pl, q.writers l hl) in
      omega (
        arith,
        e,
        v.readers.tallies.one,
        v.writers.one,
        dk,
        dl,
        weight-le-sum reader_done capacity s.readers k hk,
        weight-le-sum writer_done n s.writers l hl,
      )

-- Where nobody uses the area, one thread has freed it.
pub IsQuiet-frees :
    {capacity n : ℕ} {s : System} → Inv capacity n s → IsQuiet capacity n s → frees capacity n s ≡ 1
IsQuiet-frees v q = ground (arith, v.stages, v.last, IsQuiet-done v q)

-- However the drops of any number of readers and writers are interleaved, as long as no reader is
-- created meanwhile, the area is freed at most once, and it is freed exactly when no thread will
-- access it any more: never while it is in use, and always in the end.
pub Reach-frees_once :
    {capacity n : ℕ} {s t : System}
    → IsInitial capacity n s
    → Reach false capacity n s t
    → (frees capacity n t ≤ 1) × ((frees capacity n t ≡ 1) ↔ IsQuiet capacity n t)
Reach-frees_once start r =
    let v = Reach-Inv start r in
    (
      ground (arith, v.last),
      (λ f. done-IsQuiet v (ground (arith, v.stages, v.last, f)), IsQuiet-frees v),
    )
