-- ===== src/Area/Reader/Leave.antt =====
-- src/area.rs: `unregister_reader`, by the thread that owns the reader.
use mathlib.Core.Path.{subst}
use market_square.Base.{
  true, ℕ, suc, ◌<◌, ◌≡◌, sym, ap, ◌∙◌, inl, inr, Option, some, none, if◌then◌else◌, length,
  get_or-set_self, Bool-cases, ==_iff, arith,
}
use market_square.Arithmetics.{set_msb, is_suspended}
use market_square.State.{Slot, AreaInner, World, tick, Result, ok, err}
use market_square.Map.{
  capacity, slot_at, empty_key, key_bits, zero_offset, immediate, load_key, compare_exchange_key,
  remove_from, remove_concurrent,
}
use market_square.Area.{with_value, load_value, store_value}
use market_square.Area.Invariant.{Counts, Later, Moment, tick-Moment, Later-trans}
use market_square.Area.Reader.{
  SuspendError, already_suspended, UnregisterError, get_reader_ptr_boilerplate, suspend_reader,
  unregister_reader,
}
use market_square.Area.Reader.Moves.{
  home, Kept, home-same, get_reader_ptr_boilerplate-home, home-lt,
}
use market_square.Area.Reader.Own.{IsOwner, IsSuspendedAt, suspend_reader-Suspended}
use market_square.Area.Reader.Claim.{value-with_key, with_key-Moment}
use market_square.Area.Reader.Enter.{value-with_value}

-- The other threads leave the key in slot `idx` alone while it names the reader.
abbrev pub KeepsKey : {T : Type 0} → ℕ → ℕ → World T → Type 0
KeepsKey {T} idx reader_id w =
    (k : ℕ) (a : AreaInner T)
    → key_bits (slot_at a.reader_gens idx).key ≡ reader_id
    → (slot_at (w.others k a).reader_gens idx).key ≡ (slot_at a.reader_gens idx).key

abbrev pub Names : {T : Type 0} → ℕ → ℕ → World T → Type 0
Names idx reader_id w = key_bits (slot_at w.mem.reader_gens idx).key ≡ reader_id

-- The other threads keep the slot suspended while it names the reader and is suspended.
abbrev pub StaysSuspended : {T : Type 0} → ℕ → ℕ → World T → Type 0
StaysSuspended {T} idx reader_id w =
    (k : ℕ) (a : AreaInner T)
    → key_bits (slot_at a.reader_gens idx).key ≡ reader_id
    → is_suspended (slot_at a.reader_gens idx).value ≡ true
    → is_suspended (slot_at (w.others k a).reader_gens idx).value ≡ true

-- After an unregistration the slot is free for another reader, and suspended, so that it blocks no
-- cleanup.
abbrev pub Unregistered :
    {T : Type 0} → ℕ → Counts → World T → Result UnregisterError (Unit {0}) → Type 0
Unregistered idx c w (ok _) =
    ((slot_at w.mem.reader_gens idx).key ≡ empty_key) × IsSuspendedAt idx w
Unregistered idx c w (err UnregisterError.reader_not_found) = ⊥

-- The slot still names the reader, which nobody else changes.
pub record Named {T : Type 0} (idx reader_id : ℕ) (w : World T) : Type 0 where
  pub names : Names idx reader_id w
  pub keeps : KeepsKey idx reader_id w

pub tick-Named :
    {T : Type 0} {idx reader_id : ℕ} {w : World T}
    → Named idx reader_id w
    → Named idx reader_id (tick w)
tick-Named {w} n = record {
  names = ap key_bits (n.keeps 0 w.mem n.names) ∙ n.names;
  keeps = λ k. n.keeps (suc k);
}

pub key-with_value :
    {T : Type 0} (a : AreaInner T) (idx v : ℕ)
    → idx < length a.reader_gens.slots
    → (slot_at (with_value a idx v).reader_gens idx).key ≡ (slot_at a.reader_gens idx).key
key-with_value a idx v b = ap (λ (s : Slot). s.key) (get_or-set_self a.reader_gens.slots idx _ _ b)

-- The slot is as a suspension leaves it, for the rest of the call.
record Leaving {T : Type 0} (idx reader_id : ℕ) (w : World T) : Type 0 where
  named : Named idx reader_id w
  stays : StaysSuspended idx reader_id w
  suspended : IsSuspendedAt idx w

tick-Leaving :
    {T : Type 0} {idx reader_id : ℕ} {w : World T}
    → Leaving idx reader_id w
    → Leaving idx reader_id (tick w)
tick-Leaving {w} n = record {
  named = tick-Named n.named;
  stays = λ k. n.stays (suc k);
  suspended = n.stays 0 w.mem n.named.names n.suspended;
}

is_suspended-set_msb : (x : ℕ) → is_suspended (set_msb x) ≡ true
unfolding is_suspended
is_suspended-set_msb x = ground arith

abbrev Held : {T : Type 0} → ℕ → ℕ → Result SuspendError (Unit {0}) × World T → Type 0
Held idx reader_id (ok _, w) = Leaving idx reader_id w
Held idx reader_id (err already_suspended, w) = Leaving idx reader_id w
Held idx reader_id (err SuspendError.reader_not_found, w) = ⊥

suspend_reader-Held :
    {T : Type 0} {limit : ℕ} (reader_id : ℕ) {c : Counts} (w : World T)
    → Moment limit c w
    → Named (home w reader_id) reader_id w
    → StaysSuspended (home w reader_id) reader_id w
    → Held (home w reader_id) reader_id (suspend_reader reader_id w)
unfolding suspend_reader
suspend_reader-Held {T} reader_id w m n stays =
    let idx = home w reader_id in
    let (c1, m1, l1) = tick-Moment m in
    let (c2, m2, l2) = tick-Moment m1 in
    let (c3, m3, l3) = tick-Moment m2 in
    let n1 = tick-Named n in
    let n2 = tick-Named n1 in
    let n3 = tick-Named n2 in
    let w2 = tick (tick w) in
    let current = (slot_at w2.mem.reader_gens idx).value in
    let found : get_reader_ptr_boilerplate reader_id w ≡ (some idx, tick w) =
      get_reader_ptr_boilerplate-home w reader_id
      ∙ ap (λ b. (if b then some idx else none, tick w)) ((==_iff _ _).1 n1.names) in
    let b : idx < length (tick w2).mem.reader_gens.slots =
      omega (arith, home-lt w reader_id, l1.0, l2.0, l3.0, m3.counters.shape) in
    subst
      (λ (r : Option ℕ × World T). Held {T = T} idx reader_id (elim r.0 [
        | none ↦ (err SuspendError.reader_not_found, r.1)
        | some i ↦
            let (current, w2) = load_value i r.1 in
            if is_suspended current
            then (err already_suspended, w2)
            else (ok tt, store_value i (set_msb current) w2)
      ]))
      (sym found)
      (elim (Bool-cases (is_suspended current)) [
        | inl suspended ↦
            rw suspended
              (record { named = n2; stays = λ k. stays (suc (suc k)); suspended = suspended })
        | inr active ↦ rw active (record {
          named = record {
            names = ap key_bits (key-with_value (tick w2).mem idx (set_msb current) b) ∙ n3.names;
            keeps = n3.keeps;
          };
          stays = λ k. stays (suc (suc (suc k)));
          suspended =
              ap is_suspended (
                value-with_value (tick w2).mem idx (set_msb current)
                  (omega (arith, b, m3.counters.shape)) m3.counters.shape)
              ∙ is_suspended-set_msb current;
        })
      ])

-- The removal of a key that the slot still holds, and that nobody else changes.
remove_concurrent-Unregistered :
    {T : Type 0} {limit : ℕ} (reader_id : ℕ) {c : Counts} (w : World T)
    → Moment limit c w
    → Leaving (home w reader_id) reader_id w
    → let r = (remove_concurrent reader_id zero_offset immediate w).1 in
      (after : Counts) × Moment limit after r
      × Later c w.mem after r.mem
      × Unregistered (home w reader_id) after r (ok tt)
unfolding remove_concurrent remove_from load_key compare_exchange_key
remove_concurrent-Unregistered reader_id w m n =
    let idx = home w reader_id in
    let (c1, m1, l1) = tick-Moment m in
    let (c2, m2, l2) = tick-Moment m1 in
    let p1 = tick-Leaving n in
    let n1 = p1.named in
    let p2 = tick-Leaving p1 in
    let w2 = tick (tick w) in
    let b : idx < capacity w2.mem.reader_gens = omega (arith, home-lt w reader_id, l1.0, l2.0) in
    let named = (==_iff _ _).1 n1.names in
    let same = (==_iff _ _).1 (n1.keeps 0 (tick w).mem n1.names) in
    let l = Later-trans l1 l2 in
    rw (named, remove_concurrent, remove_from)
      (rw (same, compare_exchange_key)
        (
          c2,
          with_key-Moment w2 idx empty_key m2 b,
          (omega (arith, l.0), l.1),
          (
            ap (λ (s : Slot). s.key)
                (get_or-set_self w2.mem.reader_gens.slots idx _ _
                  (omega (arith, b, m2.counters.shape))),
            ap is_suspended
                  (value-with_key w2.mem idx empty_key idx (omega (arith, b, m2.counters.shape)))
                ∙ p2.suspended,
          ),
        ))

-- The rest of an unregistration, after the suspension.
module _ {T : Type 0} {limit : ℕ} {c d : Counts} (reader_id : ℕ) (w v : World T) where
  removed :
      Moment limit d v
      → Later c w.mem d v.mem
      → Leaving (home w reader_id) reader_id v
      → Kept limit c w
          (Unregistered (home w reader_id))
          (ok tt, (remove_concurrent reader_id zero_offset immediate v).1)
  removed m l n =
      let same = home-same w v reader_id l.0.mask in
      let (after, moment, later, gone) =
        remove_concurrent-Unregistered reader_id v m
          (subst (λ i. Leaving i reader_id v) (sym same) n) in
      record {
        after = after;
        moment = moment;
        later = Later-trans l later;
        result =
            subst
              (λ i.
                Unregistered i after (remove_concurrent reader_id zero_offset immediate v).1
                  (ok tt))
              same gone;
      }

  left :
      (suspended : Result SuspendError (Unit {0}))
      → Moment limit d v
      → Later c w.mem d v.mem
      → Held (home w reader_id) reader_id (suspended, v)
      → Kept limit c w (Unregistered (home w reader_id)) (elim suspended [
        | ok _ ↦ (ok tt, (remove_concurrent reader_id zero_offset immediate v).1)
        | err e ↦ elim e [
          | SuspendError.reader_not_found ↦ (err UnregisterError.reader_not_found, v)
          | already_suspended ↦ (ok tt, (remove_concurrent reader_id zero_offset immediate v).1)
        ]
      ])
  left (ok x) m l n = removed m l n
  left (err already_suspended) m l n = removed m l n
  left (err SuspendError.reader_not_found) m l n = absurd n

-- Whatever disciplined other threads do that leave the reader's key alone, and its generation while
-- it is active, and that resume no suspended slot of the reader: unregistering a registered reader,
-- active or suspended, succeeds, keeps the invariant, and leaves the slot of the reader without a
-- key and suspended, so that cleanups are not held back by it.
pub unregister_reader-Unregistered :
    {T : Type 0} {limit : ℕ} (reader_id : ℕ) {c : Counts} (w : World T)
    → Moment limit c w
    → IsOwner (home w reader_id) w
    → KeepsKey (home w reader_id) reader_id w
    → StaysSuspended (home w reader_id) reader_id w
    → Names (home w reader_id) reader_id w
    → Kept limit c w (Unregistered (home w reader_id)) (unregister_reader reader_id w)
unfolding unregister_reader
unregister_reader-Unregistered reader_id w m own keeps stays names =
    let x = suspend_reader-Suspended reader_id w m own in
    let r = suspend_reader reader_id w in
    left reader_id w r.1 r.0 x.moment x.later
      (suspend_reader-Held reader_id w m (record { names = names; keeps = keeps }) stays)
