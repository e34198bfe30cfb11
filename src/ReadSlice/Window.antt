-- ===== src/ReadSlice/Window.antt =====
-- src/area.rs: what `read_at_most` lets an active reader see, among disciplined other threads.
use mathlib.Core.Path.{subst}
use market_square.Base.{
  ℕ, Option, true, ==_iff, none, some, ◌+◌, ◌-◌, ◌≤◌, ◌<◌, ◌≡◌, ◌⊎◌, sym, ap, ap₂, ◌∙◌, false, min,
  arith,
}
use market_square.Arithmetics.{
  clear_msb, is_suspended, gen_without_suspended_bit, gen_dist_msb_masked, gen_add_msb_masked,
}
use market_square.Arithmetics.Window.{generation_of, dist-generation_of, add-generation_of}
use market_square.State.{World, tick, Outcome, returned, panicked, spinning}
use market_square.Map.{capacity, slot_at, key_bits}
use market_square.Area.{load_value, load_read_gen}
use market_square.Area.Invariant.{Counts, Moment, tick-Moment, Later-trans, Ensures}
use market_square.Area.Reader.{get_reader_ptr_boilerplate, get_reader_gen}
use market_square.Area.Reader.Moves.{home, Kept, home-lt, get_reader_ptr_boilerplate-home}
use market_square.Area.Reader.Own.{IsOwner}
use market_square.ReadSlice.{ReadSlice, len, get_gen, read_at_most}

-- The slice starts at the message `h` that the reader's slot holds, and ends at a published one.
pub record Views (idx n : ℕ) (c : Counts) (s : ReadSlice) : Type 0 where
  pub starts : s.start_gen ≡ generation_of (c.held idx)
  pub ends : s.end_gen ≡ generation_of (c.held idx + len s)
  pub published : c.held idx + len s ≤ c.read
  pub valid : c.last_valid ≤ c.held idx
  pub at_most : len s ≤ n
  pub whole : (len s ≡ n) ⊎ (c.held idx + len s ≡ c.read)

module _ {T : Type 0} (w : World T) (idx reader_id n : ℕ) where
  -- The slice that `read_at_most` makes of the two values that it loads.
  abbrev slice : ReadSlice
  slice =
      let start = gen_without_suspended_bit (slot_at (tick (tick w)).mem.reader_gens idx).value in
      let end_generation = (tick (tick (tick w))).mem.read_gen in
      record {
        reader_id = reader_id;
        start_gen = start;
        end_gen = gen_add_msb_masked start (min (gen_dist_msb_masked end_generation start) n);
        armed = true;
      }

  slice-Views :
      {limit : ℕ} {c : Counts}
      → Moment limit c w
      → IsOwner idx w
      → is_suspended (slot_at w.mem.reader_gens idx).value ≡ false
      → idx < capacity w.mem.reader_gens
      → Kept limit c w (λ c' w' s. Views idx n c' s) (slice, tick (tick (tick w)))
  unfolding len gen_without_suspended_bit
  slice-Views m own active b =
      let (c1, m1, l1) = tick-Moment m in
      let (c2, m2, l2) = tick-Moment m1 in
      let (c3, m3, l3) = tick-Moment m2 in
      let v = (slot_at w.mem.reader_gens idx).value in
      let e1 = own 0 w.mem active in
      let active1 = ap is_suspended e1 ∙ active in
      let e2 = own 1 (tick w).mem active1 in
      let active2 = ap is_suspended e2 ∙ active1 in
      let e3 = own 2 (tick (tick w)).mem active2 in
      let w3 = tick (tick (tick w)) in
      let l = Later-trans l1 (Later-trans l2 l3) in
      let here = m3.readers idx (omega (arith, b, l.0)) in
      let h = c3.held idx in
      let start : gen_without_suspended_bit (slot_at (tick (tick w)).mem.reader_gens idx).value
          ≡ generation_of h =
        ap clear_msb (sym e3) ∙ here.value in
      let reach : gen_dist_msb_masked w3.mem.read_gen
            (clear_msb (slot_at (tick (tick w)).mem.reader_gens idx).value)
          ≡ c3.read - h =
        ap₂ gen_dist_msb_masked m3.counters.read start
        ∙ dist-generation_of c3.read h (omega (arith, here))
            (omega (arith, here, m3.counters, m3.fits)) in
      let k = min (c3.read - h) n in
      let end_at : slice.end_gen ≡ generation_of (h + k) =
        ap₂ (λ x y. gen_add_msb_masked x (min y n)) start reach ∙ add-generation_of h k in
      let count : len slice ≡ k =
        ap₂ gen_dist_msb_masked end_at start
        ∙ (dist-generation_of (h + k) h (omega arith) (omega (arith, here, m3.counters, m3.fits))
            ∙ omega arith) in
      record {
        after = c3;
        moment = m3;
        later = l;
        result = record {
          starts = start;
          ends = end_at ∙ ap (λ x. generation_of (h + x)) (sym count);
          published = omega (arith, count, here);
          valid = here.kept;
          at_most = omega (arith, count);
          whole = ground (arith, count, here);
        };
      }

-- Whatever disciplined other threads do that leave the active slot alone, `read_at_most` on an
-- active, registered reader does not panic and keeps the invariant. Its slice starts at the message
-- that the reader's slot holds, so that all of it is still valid, ends at a published one, and has
-- the `n` messages asked for, or fewer if it reaches the last published message.
pub read_at_most-Views :
    {T : Type 0} {limit : ℕ} (reader_id n : ℕ) {c : Counts} (w : World T)
    → Moment limit c w
    → IsOwner (home w reader_id) w
    → is_suspended (slot_at w.mem.reader_gens (home w reader_id)).value ≡ false
    → key_bits (slot_at (tick w).mem.reader_gens (home w reader_id)).key ≡ reader_id
    → Ensures
        (Kept limit c w (λ c' w' s. Views (home w reader_id) n c' s))
        (read_at_most reader_id n w)
unfolding read_at_most get_gen get_reader_gen
read_at_most-Views {T} {limit} reader_id n {c} w m own active key =
    let idx = home w reader_id in
    let found : get_reader_ptr_boilerplate reader_id w ≡ (some idx, tick w) =
      get_reader_ptr_boilerplate-home w reader_id ∙ simp ((==_iff _ _).1 key) in
    subst
      (λ (r : Option ℕ × World T).
        let g : Option ℕ × World T = elim r.0 [
          | none ↦ (none, r.1)
          | some i ↦ let (generation, w2) = load_value i r.1 in (some generation, w2)
        ] in
        let got : Outcome (ℕ × World T) = elim g.0 [
          | none ↦ panicked
          | some v ↦ returned (v, g.1)
        ] in
        Ensures (Kept limit c w (λ c' w' s. Views idx n c' s)) (elim got [
          | returned (v, w1) ↦
              let start_generation = gen_without_suspended_bit v in
              let (end_generation, w2) = load_read_gen w1 in
              let actual = min (gen_dist_msb_masked end_generation start_generation) n in
              returned (
                record {
                  reader_id = reader_id;
                  start_gen = start_generation;
                  end_gen = gen_add_msb_masked start_generation actual;
                  armed = true;
                },
                w2,
              )
          | panicked ↦ panicked
          | spinning ↦ spinning
        ]))
      (sym found) (slice-Views w idx reader_id n m own active (home-lt w reader_id))
