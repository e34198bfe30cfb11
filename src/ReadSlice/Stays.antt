-- ===== src/ReadSlice/Stays.antt =====
-- src/area.rs: a coordinated cleanup leaves an active reader where it stands.
use market_square.Base.{
  ℕ, zero, suc, ◌+◌, ◌≡◌, ◌≢◌, refl, sym, ap, ◌∙◌, inl, inr, none, Bool, true, ◌==◌, if◌then◌else◌,
  get_or-set_ne, Bool-cases, ==_iff, arith,
}
use market_square.Arithmetics.{
  set_msb, is_suspended, gen_add_msb_masked, gen_gte_msb_masked, gen_gt_msb_masked,
  gen_lte_msb_masked, gen_without_suspended_bit, gen_dist_msb_masked,
}
use market_square.State.{Slot, AreaInner, World, tick, Result, ok, err, returned, shared}
use market_square.Map.{capacity, slot_at, key_bits}
use market_square.Area.{with_value, write_slot}
use market_square.Area.Invariant.{Ensures, Ensures-bind}
use market_square.Area.Slots.{
  compare_exchange-exchanged, compare_exchange-changed, compare_exchange_value-exchanged,
  compare_exchange_value-changed,
}
use market_square.Area.Cleanup.{
  CleanupError, set_last_valid_gen, set_free_gen, scan_slot, scan_from, claim_range, drop_range,
  release_range, clean_range, advance_to, try_cleanup_old_slots,
}
use market_square.ReadSlice.Dropped.{Stands, tick-Stands}

module _ {T : Type 0} {idx reader_id v : ℕ} (w : World T) where
  -- A write to anything but the reader map.
  elsewhere :
      (a : AreaInner T)
      → a.reader_gens ≡ w.mem.reader_gens
      → Stands idx reader_id v w
      → Stands idx reader_id v (record w { mem = a })
  elsewhere a e s = record {
    named = record {
      names = ap (λ m. key_bits (slot_at m idx).key) e ∙ s.named.names;
      keeps = s.named.keeps;
    };
    value = ap (λ m. (slot_at m idx).value) e ∙ s.value;
    active = s.active;
    own = s.own;
  }

  -- A write to another slot.
  beside :
      (j g : ℕ)
      → j ≢ idx
      → Stands idx reader_id v w
      → Stands idx reader_id v (record w { mem = with_value w.mem j g })
  beside j g away s =
      let same = get_or-set_ne w.mem.reader_gens.slots j idx _ _ away in
      record {
        named = record {
          names = ap (λ (x : Slot). key_bits x.key) same ∙ s.named.names;
          keeps = s.named.keeps;
        };
        value = ap (λ (x : Slot). x.value) same ∙ s.value;
        active = s.active;
        own = s.own;
      }

  -- A suspended slot is not the reader's.
  other_slot :
      (j g : ℕ)
      → Stands idx reader_id v w
      → (slot_at w.mem.reader_gens j).value ≡ g
      → is_suspended g ≡ true
      → j ≢ idx
  other_slot j g s e suspended same =
      let here = sym s.value ∙ (ap (λ i. (slot_at w.mem.reader_gens i).value) (sym same) ∙ e) in
      ground (arith, s.active, suspended, ap is_suspended here)

-- Whatever a call returns, the reader stands where it stood.
abbrev pub StaysIn : {T A : Type 0} → ℕ → ℕ → ℕ → A × World T → Type 0
StaysIn idx reader_id v r = Stands idx reader_id v r.1

scan_slot-StaysIn :
    {T : Type 0} {idx reader_id v : ℕ} (fuel j least g : ℕ) (w : World T)
    → Stands idx reader_id v w
    → Ensures (StaysIn idx reader_id v) (scan_slot fuel j least g w)
unfolding scan_slot
scan_slot-StaysIn zero j least g w s = tt
scan_slot-StaysIn {T} {idx} {reader_id} {v} (suc fuel) j least g w s =
    let s1 = tick-Stands s in
    let found = (slot_at (tick w).mem.reader_gens j).value in
    elim (Bool-cases (is_suspended g)) [
      | inr active ↦ rw (active, scan_slot) s
      | inl suspended ↦ elim (Bool-cases (gen_gt_msb_masked least (gen_without_suspended_bit g))) [
        | inr far ↦ rw (suspended, far, scan_slot) s
        | inl behind ↦ elim (Bool-cases (found == g)) [
          | inl same ↦
              let e = (==_iff found g).0 same in
              let won = compare_exchange_value-exchanged j g (set_msb least) w e in
              rw (suspended, behind, won, scan_slot)
                (rw won
                  (beside (tick w) j (set_msb least) (other_slot (tick w) j g s1 e suspended) s1))
          | inr other ↦
              let lost = compare_exchange_value-changed j g (set_msb least) w other in
              rw (suspended, behind, lost, scan_slot)
                (rw lost (scan_slot-StaysIn fuel j least found (tick w) s1))
        ]
      ]
    ]

scan_from-StaysIn :
    {T : Type 0} {idx reader_id v : ℕ} (fuel n j least : ℕ) (w : World T)
    → Stands idx reader_id v w
    → Ensures (StaysIn idx reader_id v) (scan_from fuel n j least w)
unfolding scan_from
scan_from-StaysIn fuel zero j least w s = s
scan_from-StaysIn {T} {idx} {reader_id} {v} fuel (suc n) j least w s =
    let g = (slot_at (tick w).mem.reader_gens j).value in
    Ensures-bind (StaysIn idx reader_id v) (StaysIn idx reader_id v)
      (scan_slot fuel j least g (tick w)) _
      (scan_slot-StaysIn fuel j least g (tick w) (tick-Stands s))
      (λ (r : ℕ × World T) t. scan_from-StaysIn fuel n (suc j) r.0 r.1 t)

drop_range-StaysIn :
    {T : Type 0} {idx reader_id v : ℕ} (last_valid n offset : ℕ) (w : World T)
    → Stands idx reader_id v w
    → Stands idx reader_id v (drop_range last_valid n offset w)
unfolding drop_range write_slot
drop_range-StaysIn last_valid zero offset w s = s
drop_range-StaysIn last_valid (suc n) offset w s =
    let w' = write_slot (gen_add_msb_masked last_valid offset) none w in
    drop_range-StaysIn last_valid n (offset + 1) w' (elsewhere (tick w) w'.mem refl (tick-Stands s))

claim_range-StaysIn :
    {T : Type 0} {idx reader_id v : ℕ} (fuel last_valid new : ℕ) (w : World T)
    → Stands idx reader_id v w
    → Ensures (StaysIn idx reader_id v) (claim_range shared fuel last_valid new w)
unfolding claim_range
claim_range-StaysIn zero last_valid new w s = tt
claim_range-StaysIn (suc fuel) last_valid new w s =
    let s1 = tick-Stands s in
    let field = λ (a : AreaInner _). a.last_valid_gen in
    elim (Bool-cases (gen_lte_msb_masked new last_valid)) [
      | inl nothing ↦ rw (nothing, claim_range) s
      | inr something ↦ elim (Bool-cases ((tick w).mem.last_valid_gen == last_valid)) [
        | inl same ↦
            let won =
              compare_exchange-exchanged field (set_last_valid_gen new) last_valid w
                ((==_iff _ _).0 same) in
            rw (something, won, claim_range)
              (rw won (elsewhere (tick w) (set_last_valid_gen new (tick w).mem) refl s1))
        | inr other ↦
            let lost = compare_exchange-changed field (set_last_valid_gen new) last_valid w other in
            rw (something, lost, claim_range)
              (rw lost (claim_range-StaysIn fuel (tick w).mem.last_valid_gen new (tick w) s1))
      ]
    ]

release_range-StaysIn :
    {T : Type 0} {idx reader_id v : ℕ} (fuel last_valid new : ℕ) (w : World T)
    → Stands idx reader_id v w
    → Ensures (StaysIn idx reader_id v) (release_range shared fuel last_valid new w)
unfolding release_range
release_range-StaysIn zero last_valid new w s = tt
release_range-StaysIn (suc fuel) last_valid new w s =
    let s1 = tick-Stands s in
    let field = λ (a : AreaInner _). a.free_gen in
    elim (Bool-cases ((tick w).mem.free_gen == last_valid)) [
      | inl same ↦
          let won =
            compare_exchange-exchanged field (set_free_gen new) last_valid w
              ((==_iff _ _).0 same) in
          rw (won, release_range)
            (rw won (elsewhere (tick w) (set_free_gen new (tick w).mem) refl s1))
      | inr other ↦
          let lost = compare_exchange-changed field (set_free_gen new) last_valid w other in
          rw (lost, release_range) (rw lost (release_range-StaysIn fuel last_valid new (tick w) s1))
    ]

module _ {T : Type 0} {idx reader_id v : ℕ} (needs_drop : Bool) (fuel : ℕ) where
  clean_range-StaysIn :
      (last_valid new : ℕ) (w : World T)
      → Stands idx reader_id v w
      → Ensures (StaysIn idx reader_id v) (clean_range shared needs_drop fuel last_valid new w)
  unfolding clean_range
  clean_range-StaysIn last_valid new w s =
      let n = gen_dist_msb_masked new last_valid in
      let w1 = if needs_drop then drop_range last_valid n 0 w else w in
      let s1 : Stands idx reader_id v w1 = elim (Bool-cases needs_drop) [
        | inl drops ↦ rw drops (drop_range-StaysIn last_valid n 0 w s)
        | inr plain ↦ rw plain s
      ] in
      Ensures-bind (StaysIn idx reader_id v) (StaysIn idx reader_id v)
        (release_range shared fuel last_valid new w1) _
        (release_range-StaysIn fuel last_valid new w1 s1) (λ (r : Unit {0} × World T) t. t)

  advance_to-StaysIn :
      (last_valid new : ℕ) (w : World T)
      → Stands idx reader_id v w
      → Ensures (StaysIn idx reader_id v) (advance_to shared needs_drop fuel last_valid new w)
  unfolding advance_to
  advance_to-StaysIn last_valid new w s =
      Ensures-bind (StaysIn idx reader_id v) (StaysIn idx reader_id v)
        (claim_range shared fuel last_valid new w) _ (claim_range-StaysIn fuel last_valid new w s)
        (λ (r : Result CleanupError ℕ × World T) t. after_claim r.0 r.1 t)
    where
      after_claim :
          (claim : Result CleanupError ℕ) (w1 : World T)
          → Stands idx reader_id v w1
          → Ensures (StaysIn idx reader_id v) (elim claim [
            | ok from ↦ clean_range shared needs_drop fuel from new w1
            | err e ↦ returned (err e, w1)
          ])
      after_claim (ok from) w1 t = clean_range-StaysIn from new w1 t
      after_claim (err e) w1 t = t

  -- Whatever other threads do that leave the reader's key and its active slot alone: when a
  -- coordinated cleanup, in which the drop of messages and the fuel are arbitrary, returns, with any
  -- result, the reader is still registered in its slot and active at the same generation. The
  -- cleanup does not panic.
  pub try_cleanup_old_slots-StaysIn :
      (w : World T)
      → Stands idx reader_id v w
      → Ensures (StaysIn idx reader_id v) (try_cleanup_old_slots shared needs_drop fuel w)
  unfolding try_cleanup_old_slots
  try_cleanup_old_slots-StaysIn w s =
      let s2 = tick-Stands (tick-Stands s) in
      let w2 = tick (tick w) in
      let last_valid = (tick w).mem.last_valid_gen in
      elim (Bool-cases (gen_gte_msb_masked last_valid w2.mem.read_gen)) [
        | inl nothing ↦ rw nothing s2
        | inr something ↦ rw something (
            Ensures-bind (StaysIn idx reader_id v) (StaysIn idx reader_id v)
              (scan_from fuel (capacity w2.mem.reader_gens) 0 w2.mem.read_gen w2) _
              (scan_from-StaysIn fuel (capacity w2.mem.reader_gens) 0 w2.mem.read_gen w2 s2)
              (λ (r : ℕ × World T) t. advance_to-StaysIn last_valid r.0 r.1 t))
      ]
