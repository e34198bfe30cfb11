-- ===== src/Area/Slots.antt =====
-- A write of one reader's generation, against the invariant.
use market_square.Base.{
  ℕ, ◌^◌, ◌≤◌, ◌<◌, ◌≡◌, inl, inr, false, ◌==◌, if◌then◌else◌, length, length-set, get_or-set_self,
  get_or-set_ne, Bool-cases, ==_iff, arith,
}
use market_square.Arithmetics.{clear_msb}
use market_square.Arithmetics.Window.{generation_of}
use market_square.State.{AreaInner, World, tick, exchanged, changed}
use market_square.Map.{capacity, slot_at}
use market_square.Area.{with_value, compare_exchange, compare_exchange_value}
use market_square.Area.Invariant.{Counts, Explains}

abbrev pub update : (ℕ → ℕ) → ℕ → ℕ → ℕ → ℕ
update f i v j = if j == i then v else f j

abbrev pub move_held : Counts → ℕ → ℕ → Counts
move_held c idx h = record c { held = update c.held idx h }

-- The two outcomes of a compare-exchange.
module _ {T : Type 0} (field : AreaInner T → ℕ) (change : AreaInner T → AreaInner T) (expected : ℕ)
    (w : World T) where
  pub compare_exchange-exchanged :
      field (tick w).mem ≡ expected
      → compare_exchange field change expected w
        ≡ (exchanged, record (tick w) { mem = change (tick w).mem })
  compare_exchange-exchanged e = simp ((==_iff _ expected).1 e)

  pub compare_exchange-changed :
      (field (tick w).mem == expected) ≡ false
      → compare_exchange field change expected w ≡ (changed (field (tick w).mem), tick w)
  compare_exchange-changed e = simp e

module _ {T : Type 0} (idx expected new : ℕ) (w : World T) where
  pub compare_exchange_value-exchanged :
      (slot_at (tick w).mem.reader_gens idx).value ≡ expected
      → compare_exchange_value idx expected new w
        ≡ (exchanged, record (tick w) { mem = with_value (tick w).mem idx new })
  compare_exchange_value-exchanged e = simp ((==_iff _ expected).1 e)

  pub compare_exchange_value-changed :
      ((slot_at (tick w).mem.reader_gens idx).value == expected) ≡ false
      → compare_exchange_value idx expected new w
        ≡ (changed (slot_at (tick w).mem.reader_gens idx).value, tick w)
  compare_exchange_value-changed e = simp e

module _ {T : Type 0} (a : AreaInner T) (idx v : ℕ) where
  pub slot_at-with_value :
      (j : ℕ)
      → idx < length a.reader_gens.slots
      → slot_at (with_value a idx v).reader_gens j ≡ (
          if j == idx
          then record (slot_at a.reader_gens idx) { value = v }
          else slot_at a.reader_gens j)
  slot_at-with_value j b = elim (Bool-cases (j == idx)) [
    | inl e ↦ rw (e, (==_iff j idx).0 e) (get_or-set_self a.reader_gens.slots idx _ _ b)
    | inr e ↦ rw e (get_or-set_ne a.reader_gens.slots idx j _ _ (ground (arith, e)))
  ]

module _ {T : Type 0} {c : Counts} {a : AreaInner T} where
  -- Slot `idx` moves on to message `h`, suspended or not.
  pub with_value-Explains :
      (idx v h : ℕ)
      → Explains c a
      → idx < capacity a.reader_gens
      → c.last_valid ≤ h
      → h ≤ c.read
      → v < 2 ^ 64
      → clear_msb v ≡ generation_of h
      → Explains (move_held c idx h) (with_value a idx v)
  with_value-Explains idx v h e b lo hi word value = (
    ground (
      arith,
      e.0,
      length-set a.reader_gens.slots idx (record (slot_at a.reader_gens idx) { value = v }),
    ),
    λ j k. ground (arith, slot_at-with_value a idx v j (omega (arith, e.0.shape, b)), e.1 j k),
  )
