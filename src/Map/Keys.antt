-- ===== src/Map/Keys.antt =====
-- src/map.rs: the keys of the reader map while any number of threads insert and remove.
use mathlib.Core.Path.{subst}
use native.Mathlib.Nat.{mod-lt, mod-add-mod}
use market_square.Base.{
  ℕ, zero, suc, ◌+◌, ◌%◌, ◌<◌, ◌≡◌, ◌≢◌, ◌⊎◌, inl, inr, refl, sym, ap, ◌∙◌, Option, none, some,
  true, ◌==◌, length, length-set, get_or-set_self, get_or-set_ne, Bool-cases, ==_iff, arith,
}
use market_square.Arithmetics.{clear_msb, wrapping_add}
use market_square.State.{Slot, SimpleLpHashMap, AreaInner, World, tick}
use market_square.Map.{
  capacity, slot_at, empty_key, key_bits, Probe, is_in_progress, new_key_for, with_key, probe_slot,
  probe_from, try_claim, compare_exchange_key, load_key, fetch_clear_in_progress, finish_init_at,
  remove_from,
}
use market_square.Map.Home.{IsSized, new_key_for-home}

-- Slot `j` is empty, or a lookup of the id that its key stands for looks in slot `j`.
abbrev pub IsHome : ℕ → ℕ → ℕ → Type 0
IsHome cap j key = (key ≡ empty_key) ⊎ ((key_bits key ≢ 0) × (key_bits key % cap ≡ j))

pub record Homes (cap : ℕ) (m : SimpleLpHashMap) : Type 0 where
  pub size : capacity m ≡ cap
  pub shape : length m.slots ≡ cap
  pub keys : (j : ℕ) → j < cap → IsHome cap j (slot_at m j).key

-- The keys are at home, and the other threads keep them so.
pub record Housed {T : Type 0} (cap : ℕ) (w : World T) : Type 0 where
  pub homes : Homes cap w.mem.reader_gens
  pub keeps :
      (k : ℕ) (a : AreaInner T) → Homes cap a.reader_gens → Homes cap (w.others k a).reader_gens

module _ {T : Type 0} {cap : ℕ} {w : World T} where
  pub tick-Housed : Housed cap w → Housed cap (tick w)
  tick-Housed h = record { homes = h.keeps 0 w.mem h.homes; keeps = λ k. h.keeps (suc k) }

module _ {T : Type 0} {cap : ℕ} (idx k : ℕ) (w : World T) where
  pub with_key-Housed :
      Housed cap w
      → (idx < cap → IsHome cap idx k)
      → Housed cap (record w { mem = with_key w.mem idx k })
  with_key-Housed h home =
      let m = w.mem.reader_gens in
      let stored : Slot = record (slot_at m idx) { key = k } in
      record {
        homes = record {
          size = h.homes.size;
          shape = length-set m.slots idx stored ∙ h.homes.shape;
          keys = λ j below. elim (Bool-cases (j == idx)) [
            | inl e ↦
                let same = (==_iff j idx).0 e in
                let b : idx < cap = omega (arith, below, same) in
                subst (λ i. IsHome cap i (slot_at (with_key w.mem idx k).reader_gens i).key)
                  (sym same)
                  (subst (IsHome cap idx)
                    (ap (λ (s : Slot). s.key)
                      (sym
                        (get_or-set_self m.slots idx stored _ (omega (arith, b, h.homes.shape)))))
                    (home b))
            | inr e ↦
                subst (IsHome cap j)
                  (ap (λ (s : Slot). s.key)
                    (sym (get_or-set_ne m.slots idx j stored _ (ground (arith, e)))))
                  (h.homes.keys j below)
          ];
        };
        keeps = h.keeps;
      }

module _ {T : Type 0} {cap : ℕ} (key offset : ℕ) (s : IsSized cap) where
  probe_slot-Housed :
      (i idx : ℕ) (w : World T)
      → Housed cap w
      → idx < cap
      → idx ≡ (wrapping_add key offset + i) % cap
      → Housed cap (probe_slot key offset true true i idx w).1
  unfolding probe_slot
  probe_slot-Housed i idx w h b e =
      let h1 = tick-Housed h in
      let h2 = tick-Housed h1 in
      let w1 = tick w in
      let w2 = tick w1 in
      let new = new_key_for w1.mem.reader_gens true key offset i in
      let homed : IsHome cap idx new =
        let f =
          new_key_for-home w1.mem.reader_gens key offset i (subst IsSized (sym h1.homes.size) s) in
        inr (
          f.1,
          ap (λ n. key_bits new % n) (sym h1.homes.size)
              ∙ (f.0 ∙ (ap (λ n. (wrapping_add key offset + i) % n) h1.homes.size ∙ sym e)),
        ) in
      elim (Bool-cases ((slot_at w1.mem.reader_gens idx).key == empty_key)) [
        | inr taken ↦ rw (taken, probe_slot, load_key) (rw (taken, load_key) h1)
        | inl empty ↦ elim (Bool-cases ((slot_at w2.mem.reader_gens idx).key == empty_key)) [
          | inr lost ↦
              rw (empty, lost, probe_slot, load_key, try_claim, compare_exchange_key)
                (rw (empty, lost, load_key, try_claim, compare_exchange_key)
                  (rw (lost, load_key, compare_exchange_key) h2))
          | inl won ↦
              rw (empty, won, probe_slot, load_key, try_claim, compare_exchange_key)
                (rw (empty, won, load_key, try_claim, compare_exchange_key)
                  (rw (won, load_key, compare_exchange_key)
                    (with_key-Housed idx new w2 h2 (λ b'. homed))))
        ]
      ]

  -- A round that claims a slot, or leaves it to the rounds after it.
  after_round :
      (found : Option Probe) (v : World T) (rest : Probe × World T)
      → Housed cap v
      → Housed cap rest.1
      → let r : Probe × World T = elim found [ some p ↦ (p, v) | none ↦ rest ] in Housed cap r.1
  after_round (some p) v rest h k = h
  after_round none v rest h k = k

  pub probe_from-Housed :
      (n i idx : ℕ) (w : World T)
      → Housed cap w
      → idx < cap
      → idx ≡ (wrapping_add key offset + i) % cap
      → Housed cap (probe_from key offset true true n i idx w).1
  unfolding probe_from
  probe_from-Housed zero i idx w h b e = h
  probe_from-Housed (suc n) i idx w h b e =
      let r = probe_slot key offset true true i idx w in
      let next = (idx + 1) % capacity w.mem.reader_gens in
      let h1 = probe_slot-Housed i idx w h b e in
      after_round r.0 r.1 (probe_from key offset true true n (i + 1) next r.1) h1 (
        probe_from-Housed n (i + 1) next r.1 h1
          (omega
            (arith, h.homes.size, mod-lt (idx + 1) {m = capacity w.mem.reader_gens} (omega arith)))
          (ap (λ k. (idx + 1) % k) h.homes.size
            ∙ (ap (λ k. (k + 1) % cap) e
                ∙ (mod-add-mod (wrapping_add key offset + i) cap 1
                    ∙ ap (λ k. k % cap) (omega arith)))))

cleared : (cap idx k : ℕ) → IsHome cap idx k → IsHome cap idx (clear_msb k)
unfolding key_bits
cleared cap idx k (inl empty) = inl (ap clear_msb empty)
cleared cap idx k (inr (named, home)) =
    let same : clear_msb (clear_msb k) ≡ clear_msb k = omega arith in
    inr (λ e. named (sym same ∙ e), ap (λ n. n % cap) same ∙ home)

module _ {T : Type 0} {cap : ℕ} (idx : ℕ) (w : World T) where
  pub finish_init_at-Housed : Housed cap w → Housed cap (finish_init_at idx w)
  unfolding finish_init_at
  finish_init_at-Housed h =
      let h1 = tick-Housed h in
      let h2 = tick-Housed h1 in
      elim (Bool-cases (is_in_progress (slot_at (tick w).mem.reader_gens idx).key)) [
        | inl e ↦
            rw (e, finish_init_at, load_key, fetch_clear_in_progress)
              (with_key-Housed idx _ (tick (tick w)) h2
                (λ b. cleared cap idx _ (h2.homes.keys idx b)))
        | inr e ↦ rw (e, finish_init_at, load_key) h1
      ]

module _ {T : Type 0} {cap : ℕ} (key : ℕ) where
  pub remove_from-Housed :
      (n idx : ℕ) (w : World T) → Housed cap w → Housed cap (remove_from key n idx w).1
  unfolding remove_from
  remove_from-Housed zero idx w h = h
  remove_from-Housed (suc n) idx w h =
      let h1 = tick-Housed h in
      let h2 = tick-Housed h1 in
      let k = (slot_at (tick w).mem.reader_gens idx).key in
      elim (Bool-cases (key_bits k == key)) [
        | inr other ↦
            rw (other, remove_from, load_key)
              (remove_from-Housed n ((idx + 1) % capacity w.mem.reader_gens) (tick w) h1)
        | inl found ↦ elim (Bool-cases ((slot_at (tick (tick w)).mem.reader_gens idx).key == k)) [
          | inl won ↦
              rw (found, remove_from, load_key)
                (rw (won, compare_exchange_key)
                  (with_key-Housed idx empty_key (tick (tick w)) h2 (λ b'. inl refl)))
          | inr lost ↦ rw (found, remove_from, load_key) (rw (lost, compare_exchange_key) h2)
        ]
      ]
