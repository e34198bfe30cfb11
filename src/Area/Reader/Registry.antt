-- ===== src/Area/Reader/Registry.antt =====
-- src/area.rs and src/map.rs: the reader map as a set of ids.
use mathlib.Core.Path.{subst}
use mathlib.Core.Option.{some-injective, none-ne-some}
use market_square.Base.{
  ℕ, suc, ◌%◌, ◌<◌, ◌≡◌, ◌≢◌, ◌⊎◌, ◌↔◌, inl, inr, refl, sym, ap, ◌∙◌, Option, none, some, Bool,
  true, false, ◌==◌, if◌then◌else◌, Bool-cases, ==_iff, arith,
}
use market_square.State.{
  Slot, AreaInner, World, alone, Result, ok, err, Outcome, returned, panicked, spinning,
}
use market_square.Map.{zero_offset, capacity, key_bits, empty_key}
use market_square.Map.Home.{IsSized, new_key_for-home}
use market_square.Map.Keys.{IsHome, Homes}
use market_square.Map.Probing.{key_at}
use market_square.Area.Invariant.{Ensures}
use market_square.Area.Reader.{
  RegisterError, reader_capacity_reached, usable_seed, register_reader_with_seed,
  get_reader_ptr_boilerplate,
}
use market_square.Area.Reader.Moves.{home, home-lt, get_reader_ptr_boilerplate-home}
use market_square.Area.Reader.Register.{home-eq}
use market_square.Area.Reader.Vacancy.{
  RegisteredAlone, IsFolded, register_reader_with_seed-IsFolded,
}
use market_square.Area.Reader.Ids.{EndsHoused, registrations-Housed}

-- Slot `j` is the one of reader `id`.
abbrev pub IsSlotOf : {T : Type 0} → AreaInner T → ℕ → ℕ → Type 0
IsSlotOf a id j = (j < capacity a.reader_gens) × (key_bits (key_at a j) ≡ id)

key_bits_idem : (k : ℕ) → key_bits (key_bits k) ≡ key_bits k
unfolding key_bits
key_bits_idem k = omega arith

-- The set of ids that the reader map stands for.
abbrev pub IsRegistered : {T : Type 0} → AreaInner T → ℕ → Type 0
IsRegistered a id = (j : ℕ) × IsSlotOf a id j

empty-key_bits : (k : ℕ) → k ≡ empty_key → key_bits k ≡ 0
unfolding key_bits
empty-key_bits k e = omega (arith, e)

-- A key that is at home stands where its id says.
placed : (cap j k id : ℕ) → id ≢ 0 → IsHome cap j k → key_bits k ≡ id → j ≡ id % cap
placed cap j k id some_id (inl empty) e = absurd (some_id (sym e ∙ empty-key_bits k empty))
placed cap j k id some_id (inr (named, at)) e = sym at ∙ ap (λ n. n % cap) e

-- What a lookup finds, from whether the home slot has the id.
found : ℕ → Bool → Option ℕ
found i b = if b then some i else none

found_at : (i j : ℕ) (b : Bool) → found i b ≡ some j → (b ≡ true) × (i ≡ j)
unfolding found
found_at i j true e = (refl, some-injective i j e)
found_at i j false e = absurd (none-ne-some j e)

-- While every key is at home and the capacity is a power of two: a lookup of an id finds a slot
-- exactly if that slot is the one of the id. An id has one slot at most.
pub lookup-IsSlotOf :
    {T : Type 0} (a : AreaInner T) (id j : ℕ)
    → IsSized (capacity a.reader_gens)
    → Homes (capacity a.reader_gens) a.reader_gens
    → id ≢ 0
    → ((get_reader_ptr_boilerplate id (alone a)).0 ≡ some j) ↔ IsSlotOf a id j
unfolding found
lookup-IsSlotOf {T} a id j s h some_id =
    let w = alone a in
    let at = home w id in
    let looked : (get_reader_ptr_boilerplate id w).0 ≡ found at (key_bits (key_at a at) == id) =
      ap (λ (r : Option ℕ × World T). r.0) (get_reader_ptr_boilerplate-home w id) in
    (
      λ e.
          let (named, here) = found_at at j (key_bits (key_at a at) == id) (sym looked ∙ e) in
          subst (IsSlotOf a id) here (home-lt w id, (==_iff _ _).0 named),
      λ p.
          let here =
            placed (capacity a.reader_gens) j (key_at a j) id some_id (h.keys j p.0) p.1
            ∙ sym (home-eq w id s) in
          let named = (==_iff _ _).1 (subst (λ i. key_bits (key_at a i) ≡ id) here p.1) in
          looked ∙ (ap (found at) named ∙ ap some (sym here)),
    )

abbrev pub Registers :
    {T : Type 0} → AreaInner T → Outcome (Result RegisterError ℕ × World T) → Type 0
Registers a (returned (ok id, w)) =
    (id ≢ 0)
    × ¬ IsRegistered a id
    × ((other : ℕ) → other ≢ 0 → IsRegistered w.mem other ↔ (IsRegistered a other ⊎ (other ≡ id)))
Registers a (returned (err reader_capacity_reached, w)) =
    (w ≡ alone a) × ((j : ℕ) → j < capacity a.reader_gens → key_at a j ≢ empty_key)
Registers a panicked = ⊥
Registers a spinning = ⊥

-- The registered ids after one was written to an empty slot.
module _ {T : Type 0} (a : AreaInner T) (s : IsSized (capacity a.reader_gens))
    (h : Homes (capacity a.reader_gens) a.reader_gens) where
  added :
      (fuel seed : ℕ) (o : Outcome (Result RegisterError ℕ × World T))
      → RegisteredAlone a o × IsFolded (usable_seed seed) a o
      → Ensures (EndsHoused (capacity a.reader_gens)) o
      → Registers a o
  added fuel seed (returned (ok id, w)) ((idx, b, empty, now, others, rest), (i, k)) kept =
      let m = w.mem.reader_gens in
      let some_id : id ≢ 0 =
        λ e. (new_key_for-home a.reader_gens (usable_seed seed) zero_offset i s).1 (sym k ∙ e) in
      let key : key_at w.mem idx ≡ id = ap (λ (x : Slot). x.key) now in
      let size : capacity m ≡ capacity a.reader_gens = kept.homes.size in
      let bits : key_bits (key_at w.mem idx) ≡ id =
        ap key_bits (key ∙ k) ∙ (key_bits_idem _ ∙ sym k) in
      let fresh : ¬ IsRegistered a id = λ r.
        let (j, p) = r in
        let cap = capacity a.reader_gens in
        let here : j ≡ idx =
          placed cap j (key_at a j) id some_id (h.keys j p.0) p.1
          ∙ sym (placed cap idx (key_at w.mem idx) id some_id (kept.homes.keys idx b) bits) in
        some_id (sym p.1 ∙ empty-key_bits (key_at a j) (ap (key_at a) here ∙ empty)) in
      (
        some_id,
        fresh,
        λ other some_other. (
          λ r.
              let (j, p) = r in
              elim (Bool-cases (j == idx)) [
                | inl same ↦
                    inr (
                      sym p.1
                      ∙ (ap (λ i. key_bits (key_at w.mem i)) ((==_iff j idx).0 same) ∙ bits))
                | inr away ↦ inl (
                  j,
                  (
                    omega (arith, p.0, size),
                    ap (λ (x : Slot). key_bits x.key)
                          (sym (others j (λ e. ground (arith, away, e))))
                        ∙ p.1,
                  ),
                )
              ],
          λ r. elim r [
            | inr new ↦ (idx, (omega (arith, b, size), bits ∙ sym new))
            | inl (j, p) ↦
                let away : j ≢ idx = λ e.
                  some_other (sym p.1 ∙ empty-key_bits (key_at a j) (ap (key_at a) e ∙ empty)) in
                (
                  j,
                  (
                    omega (arith, p.0, size),
                    ap (λ (x : Slot). key_bits x.key) (others j away) ∙ p.1,
                  ),
                )
          ],
        ),
      )
  added fuel seed (returned (err reader_capacity_reached, w)) (r, f) kept = r
  added fuel seed panicked r kept = absurd kept
  added fuel seed spinning (r, f) kept = absurd r

-- While every key is at home and the capacity is a power of two: a registration that no other
-- thread disturbs returns after one round of its retry loop. An id that it returns is not 0 and was
-- not registered before, and the ids registered afterwards are those before and this one. An error
-- says that no slot is empty, and nothing changed.
pub register_reader_with_seed-Registers :
    {T : Type 0} (fuel seed : ℕ) (a : AreaInner T)
    → IsSized (capacity a.reader_gens)
    → Homes (capacity a.reader_gens) a.reader_gens
    → Registers a (register_reader_with_seed (suc fuel) seed (alone a))
register_reader_with_seed-Registers fuel seed a s h =
    added a s h fuel seed (register_reader_with_seed (suc fuel) seed (alone a))
      (register_reader_with_seed-IsFolded fuel seed a h.shape)
      (registrations-Housed (suc fuel) seed 1 (alone a) s
        (record { homes = h; keeps = λ k b e. e })).0
