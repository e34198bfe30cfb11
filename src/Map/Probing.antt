-- ===== src/Map/Probing.antt =====
-- src/map.rs: what a folding insertion finds when no other thread touches the map.
use native.Mathlib.Nat.{mod-lt, mod-eq_of_lt, mod-add-mod, add-mod_right}
use market_square.Base.{
  ℕ, zero, suc, ◌+◌, ◌-◌, ◌%◌, ◌<◌, ◌≡◌, ◌≢◌, ◌⊎◌, refl, sym, ap, ap₂, ◌∙◌, inl, inr, some, none,
  true, false, ◌==◌, leb, Bool-cases, ==_iff, arith,
}
use market_square.State.{AreaInner, World, alone}
use market_square.Map.{
  Probe, capacity, slot_at, empty_key, max_probes, new_key_for, with_key, load_key,
  compare_exchange_key, try_claim, probe_slot, probe_from,
}

-- The slot at probe distance `j` from slot `idx`.
abbrev pub at_distance : {T : Type 0} → AreaInner T → ℕ → ℕ → ℕ
at_distance a idx j = (idx + j) % capacity a.reader_gens

abbrev pub key_at : {T : Type 0} → AreaInner T → ℕ → ℕ
key_at a idx = (slot_at a.reader_gens idx).key

-- The probe that claimed slot `idx` at distance `i`.
abbrev pub claim_of : ℕ → ℕ → ℕ → Probe
claim_of idx i k = record {
  ptr = some idx;
  is_new = true;
  placement_offset_delta = i;
  k = k;
  index = idx;
}

abbrev pub nothing_found : Probe
nothing_found = record {
  ptr = none;
  is_new = false;
  placement_offset_delta = max_probes;
  k = empty_key;
  index = max_probes;
}

-- All of `n` slots from `idx` on are taken, or the first free one of them is claimed.
pub record Claims {T : Type 0} (key offset n i idx : ℕ) (a : AreaInner T) (r : Probe × World T)
    : Type 0 where
  pub distance : ℕ
  pub near : distance < n
  pub free : key_at a (at_distance a idx distance) ≡ empty_key
  pub result :
      let k = new_key_for a.reader_gens true key offset (i + distance) in
      let slot = at_distance a idx distance in
      r ≡ (claim_of slot (i + distance) k, alone (with_key a slot k))

pub record Full {T : Type 0} (n idx : ℕ) (a : AreaInner T) (r : Probe × World T) : Type 0 where
  pub taken : (j : ℕ) → j < n → key_at a (at_distance a idx j) ≢ empty_key
  pub result : r ≡ (nothing_found, alone a)

module _ {T : Type 0} (key offset : ℕ) (a : AreaInner T) where
  probe_slot-free :
      (i idx : ℕ)
      → key_at a idx ≡ empty_key
      → let k = new_key_for a.reader_gens true key offset i in
        probe_slot key offset true true i idx (alone a)
        ≡ (some (claim_of idx i k), alone (with_key a idx k))
  unfolding probe_slot try_claim load_key compare_exchange_key
  probe_slot-free i idx e =
      let free = (==_iff _ _).1 e in
      rw (free, probe_slot, load_key, try_claim, compare_exchange_key)
        (rw (free, load_key, try_claim, compare_exchange_key)
          (rw (free, compare_exchange_key) refl))

  probe_slot-taken :
      (i idx : ℕ)
      → (key_at a idx == empty_key) ≡ false
      → probe_slot key offset true true i idx (alone a) ≡ (none, alone a)
  unfolding probe_slot load_key
  probe_slot-taken i idx e = rw (e, probe_slot, load_key) (rw (e, load_key) refl)

  abbrev claimed_at : ℕ → ℕ → Probe × World T
  claimed_at slot i =
      let k = new_key_for a.reader_gens true key offset i in
      (claim_of slot i k, alone (with_key a slot k))

  -- A round on a taken slot leaves the rest to the rounds after it.
  further :
      (n i idx : ℕ) (r : Probe × World T)
      → (key_at a idx == empty_key) ≡ false
      → at_distance a idx 0 ≡ idx
      → let next = (idx + 1) % capacity a.reader_gens in
        Full n next a r ⊎ Claims key offset n (i + 1) next a r
        → Full (suc n) idx a r ⊎ Claims key offset (suc n) i idx a r
  further n i idx r taken here (inl full) = inl (record {
    taken = λ j h. elim (Bool-cases (j == 0)) [
      | inl first ↦
          let now : at_distance a idx j ≡ idx =
            ap (at_distance a idx) ((==_iff j 0).0 first) ∙ here in
          λ e. ground (arith, taken, ap (key_at a) (sym now) ∙ e)
      | inr later ↦
          let place : (idx + 1) + (j - 1) ≡ idx + j = ground (arith, later) in
          let same : at_distance a ((idx + 1) % capacity a.reader_gens) (j - 1)
              ≡ at_distance a idx j =
            mod-add-mod (idx + 1) (capacity a.reader_gens) (j - 1)
            ∙ ap (λ k. k % capacity a.reader_gens) place in
          λ e. full.taken (j - 1) (ground (arith, h, later)) (ap (key_at a) same ∙ e)
    ];
    result = full.result;
  })
  further n i idx r taken here (inr c) =
      let place : (idx + 1) + c.distance ≡ idx + suc c.distance = omega arith in
      let same : at_distance a ((idx + 1) % capacity a.reader_gens) c.distance
          ≡ at_distance a idx (suc c.distance) =
        mod-add-mod (idx + 1) (capacity a.reader_gens) c.distance
        ∙ ap (λ k. k % capacity a.reader_gens) place in
      let count : (i + 1) + c.distance ≡ i + suc c.distance = omega arith in
      inr (record {
        distance = suc c.distance;
        near = omega (arith, c.near);
        free = ap (key_at a) (sym same) ∙ c.free;
        result = c.result ∙ ap₂ claimed_at same count;
      })

  pub probe_from-first :
      (n i idx : ℕ)
      → idx < capacity a.reader_gens
      → let r = probe_from key offset true true n i idx (alone a) in
        Full n idx a r ⊎ Claims key offset n i idx a r
  unfolding probe_from
  probe_from-first zero i idx b =
      inl (record { taken = λ j h. absurd (omega (arith, h)); result = refl })
  probe_from-first (suc n) i idx b =
      let here : at_distance a idx 0 ≡ idx =
        ap (λ k. k % capacity a.reader_gens) (omega arith) ∙ mod-eq_of_lt b in
      let next = (idx + 1) % capacity a.reader_gens in
      elim (Bool-cases (key_at a idx == empty_key)) [
        | inl free ↦
            let e = (==_iff _ _).0 free in
            let now : i ≡ i + 0 = omega arith in
            inr (record {
              distance = 0;
              near = omega arith;
              free = ap (key_at a) here ∙ e;
              result =
                  rw (probe_slot-free i idx e, probe_from)
                    (rw (probe_slot-free i idx e) (ap₂ claimed_at (sym here) now));
            })
        | inr taken ↦
            rw (probe_slot-taken i idx taken, probe_from)
              (rw (probe_slot-taken i idx taken) (
                further n i idx (probe_from key offset true true n (i + 1) next (alone a)) taken
                  here (probe_from-first n (i + 1) next (mod-lt (idx + 1) (omega (arith, b))))))
      ]

-- The probe sequence of an insertion passes every slot.
pub passes_all :
    {T : Type 0} (a : AreaInner T) (idx j : ℕ)
    → idx < capacity a.reader_gens
    → j < capacity a.reader_gens
    → (d : ℕ) × (d < capacity a.reader_gens) × (at_distance a idx d ≡ j)
passes_all a idx j b h =
    let cap = capacity a.reader_gens in
    elim (Bool-cases (leb idx j)) [
      | inl after ↦
          let place : idx + (j - idx) ≡ j = ground (arith, after) in
          (j - idx, omega (arith, h), ap (λ k. k % cap) place ∙ mod-eq_of_lt h)
      | inr before ↦
          let place : idx + (j + cap - idx) ≡ j + cap = omega (arith, b) in
          (
            j + cap - idx,
            ground (arith, before, b, h),
            ap (λ k. k % cap) place ∙ (add-mod_right j cap ∙ mod-eq_of_lt h),
          )
    ]
