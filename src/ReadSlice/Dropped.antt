-- ===== src/ReadSlice/Dropped.antt =====
-- src/area.rs: the `Drop` of a `ReadSlice`, which advances its reader.
use mathlib.Core.Path.{subst}
use market_square.Base.{
  ℕ, suc, ◌+◌, ◌^◌, ◌≤◌, ◌<◌, ◌≡◌, refl, sym, ap, ◌∙◌, true, false, Option, some, none, ◌==◌,
  if◌then◌else◌, ==_iff, arith,
}
use market_square.Arithmetics.{
  clear_msb, is_suspended, gen_lte_msb_masked, gen_without_suspended_bit,
}
use market_square.Arithmetics.Window.{generation_of, comparisons-generation_of}
use market_square.State.{World, tick, Result, ok, err, Outcome, returned, panicked}
use market_square.Map.{capacity, slot_at, key_bits}
use market_square.Area.{load_value, store_value}
use market_square.Area.Invariant.{Counts, Moment, tick-Moment, Later-trans, Ensures, Ensures-mono}
use market_square.Area.Reader.{
  SetGenError, reader_suspended, invalid_generation, get_reader_ptr_boilerplate, get_reader_gen,
  set_reader_gen,
}
use market_square.Area.Reader.Moves.{
  home, home-same, home-lt, Kept, get_reader_ptr_boilerplate-home,
}
use market_square.Area.Reader.Enter.{IsActiveAt, value-with_value}
use market_square.Area.Reader.Own.{IsOwner, Advanced, set_reader_gen-Advanced}
use market_square.Area.Reader.Leave.{Named, tick-Named, key-with_value}
use market_square.ReadSlice.{ReadSlice, get_gen, drop_slice}

-- The reader's slot names it and is active with the generation `v`, and nobody else changes that.
pub record Stands {T : Type 0} (idx reader_id v : ℕ) (w : World T) : Type 0 where
  pub named : Named idx reader_id w
  pub value : (slot_at w.mem.reader_gens idx).value ≡ v
  pub active : is_suspended v ≡ false
  pub own : IsOwner idx w

pub tick-Stands :
    {T : Type 0} {idx reader_id v : ℕ} {w : World T}
    → Stands idx reader_id v w
    → Stands idx reader_id v (tick w)
tick-Stands {w} s = record {
  named = tick-Named s.named;
  value = s.own 0 w.mem (ap is_suspended s.value ∙ s.active) ∙ s.value;
  active = s.active;
  own = λ k. s.own (suc k);
}

module _ {T : Type 0} (reader_id v : ℕ) (w : World T)
    (s : Stands (home w reader_id) reader_id v w) where
  found : get_reader_ptr_boilerplate reader_id w ≡ (some (home w reader_id), tick w)
  found =
      get_reader_ptr_boilerplate-home w reader_id
      ∙ ap (λ b. (if b then some (home w reader_id) else none, tick w))
          ((==_iff _ _).1 (tick-Stands s).named.names)

  pub get_gen-value : get_gen reader_id w ≡ returned (v, tick (tick w))
  unfolding get_gen get_reader_gen
  get_gen-value =
      subst
        (λ (r : Option ℕ × World T).
          let g : Option ℕ × World T = elim r.0 [
            | none ↦ (none, r.1)
            | some i ↦ let (generation, w2) = load_value i r.1 in (some generation, w2)
          ] in
          let got : Outcome (ℕ × World T) = elim g.0 [
            | none ↦ panicked
            | some v ↦ returned (v, g.1)
          ] in
          got ≡ returned (v, tick (tick w)))
        (sym found)
        (ap (λ (x : ℕ). returned (x, tick (tick w))) (tick-Stands (tick-Stands s)).value)

  set_reader_gen-ok :
      (n : ℕ)
      → gen_lte_msb_masked n v ≡ false
      → set_reader_gen reader_id n w ≡ (ok tt, store_value (home w reader_id) n (tick (tick w)))
  unfolding set_reader_gen
  set_reader_gen-ok n later =
      let here = (tick-Stands (tick-Stands s)).value in
      subst
        (λ (r : Option ℕ × World T).
          let q : Result SetGenError (Unit {0}) × World T = elim r.0 [
            | none ↦ (err SetGenError.reader_not_found, r.1)
            | some idx ↦
                let (current, w2) = load_value idx r.1 in
                if is_suspended current
                then (err reader_suspended, w2)
                else if gen_lte_msb_masked n current
                then (err invalid_generation, w2)
                else (ok tt, store_value idx n w2)
          ] in
          q ≡ (ok tt, store_value (home w reader_id) n (tick (tick w))))
        (sym found) (rw (here, s.active, later) refl)

-- After the store of an active generation the reader stands there.
store_value-Stands :
    {T : Type 0} {limit : ℕ} {c : Counts} {idx reader_id v : ℕ} (n : ℕ) (w : World T)
    → Moment limit c w
    → idx < capacity w.mem.reader_gens
    → Stands idx reader_id v w
    → is_suspended n ≡ false
    → Stands idx reader_id n (store_value idx n w)
store_value-Stands {idx} n w m b s active =
    let (c1, m1, l1) = tick-Moment m in
    let s1 = tick-Stands s in
    let b1 : idx < capacity (tick w).mem.reader_gens = omega (arith, b, l1.0) in
    record {
      named = record {
        names =
            ap key_bits (key-with_value (tick w).mem idx n (omega (arith, b1, m1.counters.shape)))
            ∙ s1.named.names;
        keeps = s1.named.keeps;
      };
      value = value-with_value (tick w).mem idx n b1 m1.counters.shape;
      active = active;
      own = s1.own;
    }

-- The reader's slot is active at message `n`.
abbrev pub Stopped : {T : Type 0} → ℕ → ℕ → Counts → World T → Unit {0} → Type 0
Stopped idx n c w u = IsActiveAt c idx w × (c.held idx ≡ n)

-- And nobody else will move it from there.
abbrev pub Moved : {T : Type 0} → ℕ → ℕ → ℕ → Counts → World T → Unit {0} → Type 0
Moved idx reader_id n c w u = Stopped idx n c w u × Stands idx reader_id (generation_of n) w

pub drop_slice-Moved :
    {T : Type 0} {limit : ℕ} (x n : ℕ) (s : ReadSlice) {c : Counts} (w : World T)
    → Moment limit c w
    → Stands (home w s.reader_id) s.reader_id (generation_of x) w
    → s.armed ≡ true
    → s.start_gen ≡ generation_of x
    → s.end_gen ≡ generation_of (x + n)
    → 0 < n
    → n < 2 ^ 62
    → x + n ≤ c.read
    → limit ≤ x + n + 2 ^ 61
    → Ensures
        (λ w'. Kept limit c w (Moved (home w s.reader_id) s.reader_id (x + n)) (tt, w'))
        (drop_slice s w)
unfolding drop_slice gen_without_suspended_bit is_suspended
drop_slice-Moved {T} {limit} x n s {c} w m stands armed starts ends some_messages few seen win =
    let idx = home w s.reader_id in
    let (c1, m1, l1) = tick-Moment m in
    let (c2, m2, l2) = tick-Moment m1 in
    let l = Later-trans l1 l2 in
    let w2 = tick (tick w) in
    let (c3, m3, l3) = tick-Moment m2 in
    let (c4, m4, l4) = tick-Moment m3 in
    let b4 : idx < capacity (tick (tick w2)).mem.reader_gens =
      omega (arith, home-lt w s.reader_id, l.0, l3.0, l4.0) in
    let active : is_suspended (generation_of (x + n)) ≡ false = ground arith in
    let same : home w2 s.reader_id ≡ idx = home-same w w2 s.reader_id (l.0.mask) in
    let there =
      subst (λ i. Stands i s.reader_id (generation_of x) w2) (sym same)
        (tick-Stands (tick-Stands stands)) in
    let got = get_gen-value s.reader_id (generation_of x) w stands in
    let matches : (clear_msb (generation_of x) == s.start_gen) ≡ true = ground (arith, starts) in
    let later : gen_lte_msb_masked (generation_of (x + n)) (generation_of x) ≡ false =
      (comparisons-generation_of (x + n) x (omega (arith, few)) (omega arith)).1
      ∙ ground (arith, some_messages) in
    let moved =
      set_reader_gen-Advanced s.reader_id (x + n) w2 m2 there.own (omega (arith, seen, l.0)) win in
    let fine =
      set_reader_gen-ok s.reader_id (generation_of x) w2 there (generation_of (x + n)) later in
    let ended : set_reader_gen s.reader_id s.end_gen w2
        ≡ set_reader_gen s.reader_id (generation_of (x + n)) w2 =
      ap (λ g. set_reader_gen s.reader_id g w2) ends in
    let result =
      subst
        (Advanced c2 w2 s.reader_id (x + n) (home w2 s.reader_id) moved.after
          (set_reader_gen s.reader_id (generation_of (x + n)) w2).1)
        (ap (λ (r : Result SetGenError (Unit {0}) × World T). r.0) fine) moved.result in
    let stopped =
      subst
        (λ i.
          Stopped i (x + n) moved.after (set_reader_gen s.reader_id (generation_of (x + n)) w2).1
            tt)
        same (result.0, result.1) in
    let stands3 =
      subst (λ (u : World T). Stands idx s.reader_id (generation_of (x + n)) u)
        (ap (λ (i : ℕ). store_value i (generation_of (x + n)) (tick (tick w2))) (sym same)
          ∙ ap (λ (r : Result SetGenError (Unit {0}) × World T). r.1) (sym fine))
        (store_value-Stands (generation_of (x + n)) (tick (tick w2)) m4 b4
          (tick-Stands (tick-Stands (tick-Stands (tick-Stands stands)))) active) in
    rw (armed, got, matches, drop_slice)
      (subst
        (λ (r : Result SetGenError (Unit {0}) × World T).
          Kept limit c w (Moved idx s.reader_id (x + n)) (tt, r.1))
        (sym ended)
        (record {
          after = moved.after;
          moment = moved.moment;
          later = Later-trans l moved.later;
          result = (stopped, stands3);
        }))

-- Whatever disciplined other threads do that leave the reader's key and its active slot alone:
-- dropping an armed slice of `n` messages that starts where its registered reader stands does not
-- panic, keeps the invariant, and leaves the reader active at the end of the slice.
pub drop_slice-Kept :
    {T : Type 0} {limit : ℕ} (x n : ℕ) (s : ReadSlice) {c : Counts} (w : World T)
    → Moment limit c w
    → Stands (home w s.reader_id) s.reader_id (generation_of x) w
    → s.armed ≡ true
    → s.start_gen ≡ generation_of x
    → s.end_gen ≡ generation_of (x + n)
    → 0 < n
    → n < 2 ^ 62
    → x + n ≤ c.read
    → limit ≤ x + n + 2 ^ 61
    → Ensures
        (λ w'. Kept limit c w (Stopped (home w s.reader_id) (x + n)) (tt, w'))
        (drop_slice s w)
drop_slice-Kept x n s w m stands armed starts ends some_messages few seen win =
    Ensures-mono _ _ (drop_slice s w)
      (λ w' k. record { after = k.after; moment = k.moment; later = k.later; result = k.result.0 })
      (drop_slice-Moved x n s w m stands armed starts ends some_messages few seen win)
