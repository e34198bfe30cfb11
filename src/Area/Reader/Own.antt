-- ===== src/Area/Reader/Own.antt =====
-- src/area.rs: `set_reader_gen` and `suspend_reader`, the plain stores of a reader into the slot
-- that it owns while it is active.
use market_square.Base.{
  ℕ, if◌then◌else◌, none, some, ◌+◌, ◌^◌, ◌≤◌, ◌<◌, ◌≡◌, ◌≢◌, refl, sym, ap, ◌∙◌, inl, inr, true,
  false, leb, Bool-cases, arith,
}
use market_square.Arithmetics.{clear_msb, set_msb, is_suspended, gen_lte_msb_masked}
use market_square.Arithmetics.Window.{generation_of, comparisons-generation_of}
use market_square.State.{AreaInner, World, tick, Result, ok, err}
use market_square.Map.{capacity, slot_at, key_bits}
use market_square.Area.{load_value, store_value}
use market_square.Area.Invariant.{Counts, Moment, tick-Moment, Later-trans}
use market_square.Area.Slots.{move_held}
use market_square.Area.Reader.{
  SetGenError, reader_suspended, invalid_generation, SuspendError, already_suspended,
  set_reader_gen, suspend_reader,
}
use market_square.Area.Reader.Moves.{home, Kept, looked_up_or_unseen, home-lt, move_held-Moment}
use market_square.Area.Reader.Enter.{IsActiveAt, active-generation, value-with_value, entered}

-- The other threads leave slot `idx` alone while it is active.
abbrev pub IsOwner : {T : Type 0} → ℕ → World T → Type 0
IsOwner {T} idx w =
    (k : ℕ) (a : AreaInner T)
    → is_suspended (slot_at a.reader_gens idx).value ≡ false
    → (slot_at (w.others k a).reader_gens idx).value ≡ (slot_at a.reader_gens idx).value

abbrev pub IsSuspendedAt : {T : Type 0} → ℕ → World T → Type 0
IsSuspendedAt idx w = is_suspended (slot_at w.mem.reader_gens idx).value ≡ true

-- The lookup of `reader_id`, a call's first access, does not see its key in slot `idx`.
abbrev pub IsUnseen : {T : Type 0} → ℕ → ℕ → World T → Type 0
IsUnseen idx reader_id w = key_bits (slot_at (tick w).mem.reader_gens idx).key ≢ reader_id

-- What advancing reader `reader_id` from `w` to message `n` does to its slot.
abbrev pub Advanced :
    {T : Type 0}
    → Counts
    → World T
    → ℕ
    → ℕ
    → ℕ
    → Counts
    → World T
    → Result SetGenError (Unit {0})
    → Type 0
Advanced c v reader_id n idx c' w (ok _) =
    IsActiveAt c' idx w × (c'.held idx ≡ n) × (c.held idx < n)
Advanced c v reader_id n idx c' w (err SetGenError.reader_not_found) = IsUnseen idx reader_id v
Advanced c v reader_id n idx c' w (err reader_suspended) = IsSuspendedAt idx w
Advanced c v reader_id n idx c' w (err invalid_generation) = n ≤ c'.held idx

-- What suspending reader `reader_id` from `v` does to its slot, which the call loads in its second
-- access.
abbrev pub Suspended :
    {T : Type 0} → World T → ℕ → ℕ → Counts → World T → Result SuspendError (Unit {0}) → Type 0
Suspended v reader_id idx c w (ok _) =
    let loaded = (slot_at (tick (tick v)).mem.reader_gens idx).value in
    (is_suspended loaded ≡ false)
    × ((slot_at w.mem.reader_gens idx).value ≡ set_msb loaded)
    × (set_msb loaded ≡ set_msb (generation_of (c.held idx)))
    × (c.last_valid ≤ c.held idx)
Suspended v reader_id idx c w (err SuspendError.reader_not_found) = IsUnseen idx reader_id v
Suspended v reader_id idx c w (err already_suspended) = IsSuspendedAt idx w

-- Whatever disciplined other threads do that leave the active slot alone, advancing a reader to a
-- published message `n`, no more than `2 ^ 61` messages back, keeps the invariant. On success the
-- slot moved forward, and is active at `n`; the errors say that the slot is suspended, that it holds
-- `n` or a later message already, or that the lookup did not see the reader's key.
pub set_reader_gen-Advanced :
    {T : Type 0} {limit : ℕ} (reader_id n : ℕ) {c : Counts} (w : World T)
    → Moment limit c w
    → IsOwner (home w reader_id) w
    → n ≤ c.read
    → limit ≤ n + 2 ^ 61
    → Kept limit c w
        (Advanced c w reader_id n (home w reader_id))
        (set_reader_gen reader_id (generation_of n) w)
unfolding set_reader_gen
set_reader_gen-Advanced {limit} reader_id n {c} w m own seen win =
    let (c1, m1, l1) = tick-Moment m in
    let (c2, m2, l2) = tick-Moment m1 in
    let (c3, m3, l3) = tick-Moment m2 in
    let idx = home w reader_id in
    let w2 = tick (tick w) in
    let l = Later-trans l1 l2 in
    let b : idx < capacity w2.mem.reader_gens = omega (arith, home-lt w reader_id, l.0) in
    let b3 : idx < capacity (tick w2).mem.reader_gens = omega (arith, b, l3.0) in
    let current = (slot_at w2.mem.reader_gens idx).value in
    looked_up_or_unseen w reader_id
      (λ r. Kept limit c w (Advanced c w reader_id n idx) (elim r.0 [
        | none ↦ (err SetGenError.reader_not_found, r.1)
        | some i ↦
            let (current, w2) = load_value i r.1 in
            if is_suspended current
            then (err reader_suspended, w2)
            else if gen_lte_msb_masked (generation_of n) current
            then (err invalid_generation, w2)
            else (ok tt, store_value i (generation_of n) w2)
      ]))
      (elim (Bool-cases (is_suspended current)) [
        | inl suspended ↦
            rw suspended (record { after = c2; moment = m2; later = l; result = suspended })
        | inr active ↦
            let value = active-generation (m2.readers idx b) active in
            let held = m2.readers idx b in
            let order : gen_lte_msb_masked (generation_of n) current ≡ leb n (c2.held idx) =
              ap (gen_lte_msb_masked (generation_of n)) value
              ∙ (comparisons-generation_of n (c2.held idx)
                  (omega (arith, seen, l.0, held, m2.counters, m2.fits, m.fits))
                  (omega (arith, win, held, m2.counters, m2.fits))).1 in
            elim (Bool-cases (leb n (c2.held idx))) [
              | inl old ↦
                  rw (active, order, old)
                    (record { after = c2; moment = m2; later = l; result = ground (arith, old) })
              | inr new ↦
                  let still : c3.held idx ≡ c2.held idx = omega (
                    arith,
                    own 2 w2.mem active,
                    value,
                    m3.readers idx b3,
                    held,
                    l3.1 idx,
                    m2.counters,
                    m3.counters,
                    m3.fits,
                    m2.fits,
                    l3.0,
                  ) in
                  let x =
                    entered w2 idx (generation_of n) n m3 l3 b (ground (arith, new, still))
                      (omega (arith, seen, l.0, l3.0)) refl in
                  rw (active, order, new)
                    (record {
                      after = x.0;
                      moment = x.1;
                      later = Later-trans l x.2;
                      result = (x.3, x.4, ground (arith, new, l.1 idx));
                    })
            ]
      ])
      (λ unseen. record { after = c1; moment = m1; later = l1; result = unseen })

-- Whatever disciplined other threads do that leave the active slot alone, suspending a reader keeps
-- the invariant: the slot then holds the value that the call loaded from it, which was active, with
-- the suspended bit set, and so the same message, which is still valid. The errors say that it is
-- suspended already, or that the lookup did not see the reader's key.
pub suspend_reader-Suspended :
    {T : Type 0} {limit : ℕ} (reader_id : ℕ) {c : Counts} (w : World T)
    → Moment limit c w
    → IsOwner (home w reader_id) w
    → Kept limit c w (Suspended w reader_id (home w reader_id)) (suspend_reader reader_id w)
unfolding suspend_reader
suspend_reader-Suspended {limit} reader_id {c} w m own =
    let (c1, m1, l1) = tick-Moment m in
    let (c2, m2, l2) = tick-Moment m1 in
    let (c3, m3, l3) = tick-Moment m2 in
    let idx = home w reader_id in
    let w2 = tick (tick w) in
    let l = Later-trans l1 l2 in
    let b : idx < capacity w2.mem.reader_gens = omega (arith, home-lt w reader_id, l.0) in
    let b3 : idx < capacity (tick w2).mem.reader_gens = omega (arith, b, l3.0) in
    let current = (slot_at w2.mem.reader_gens idx).value in
    looked_up_or_unseen w reader_id
      (λ r. Kept limit c w (Suspended w reader_id idx) (elim r.0 [
        | none ↦ (err SuspendError.reader_not_found, r.1)
        | some i ↦
            let (current, w2) = load_value i r.1 in
            if is_suspended current
            then (err already_suspended, w2)
            else (ok tt, store_value i (set_msb current) w2)
      ]))
      (elim (Bool-cases (is_suspended current)) [
        | inl suspended ↦
            rw suspended (record { after = c2; moment = m2; later = l; result = suspended })
        | inr active ↦
            let kept = own 2 w2.mem active in
            let here = m3.readers idx b3 in
            let value : clear_msb current ≡ generation_of (c3.held idx) =
              ap clear_msb (sym kept) ∙ here.value in
            let x =
              move_held-Moment w2 idx (set_msb current) (c3.held idx) m3 l3 b (omega arith)
                (omega (arith, here)) (omega arith) (omega (arith, value)) in
            let written =
              value-with_value (tick w2).mem idx (set_msb current) b3 m3.counters.shape in
            rw active (record {
              after = move_held c3 idx (c3.held idx);
              moment = x.0;
              later = Later-trans l x.1;
              result = (active, written, ground (arith, value), ground (arith, here.kept));
            })
      ])
      (λ unseen. record { after = c1; moment = m1; later = l1; result = unseen })
