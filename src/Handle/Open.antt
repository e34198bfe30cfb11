-- ===== src/Handle/Open.antt =====
-- src/area.rs: `area` and `finish_init`, from sizes to a writer and a registered reader.
use Prim.Native.Nat.{◌∣◌}
use mathlib.Core.Path.{subst}
use native.Mathlib.Nat.{pow-le-pow_right}
use market_square.Base.{
  ℕ, zero, suc, ◌+◌, ◌-◌, ◌^◌, ◌≤◌, ◌<◌, ◌≡◌, ◌≢◌, refl, sym, ap, ◌∙◌, inl, inr, none, Option, List,
  ◌==◌, length, get_or, replicate, length-replicate, Bool-cases, ==_iff, arith,
}
use market_square.Arithmetics.{clear_msb}
use market_square.State.{
  Slot, SimpleLpHashMap, AreaInner, World, alone, Result, ok, err, Outcome, returned, panicked,
  spinning,
}
use market_square.Map.{capacity, slot_at, new_slot, empty_key, with_capacity_and_init}
use market_square.Map.Home.{IsSized}
use market_square.Map.Probing.{key_at}
use market_square.Area.{suspended_bit, fresh, ElementSizes}
use market_square.Area.Invariant.{Counts, Explains, Moment, Later-refl, Ensures}
use market_square.Area.Reader.{RegisterError, reader_capacity_reached, register_reader_with_seed}
use market_square.Area.Reader.Moves.{home, home-same, home-lt, Kept}
use market_square.Area.Reader.Enter.{IsActiveAt}
use market_square.Area.Reader.Register.{Registered, register_reader_with_seed-Registered}
use market_square.Area.Reader.Vacancy.{RegisteredAlone, register_reader_with_seed-RegisteredAlone}
use market_square.Handle.{finish_init, area}
use market_square.Handle.Sizes.{IsAllocatable, pow-dvd, new-returned}

-- A new area: nothing was ever reserved, there is one writer, and the only registered reader is
-- active in the slot where a lookup of its id looks.
pub record Opened {T : Type 0} (reader_id : ℕ) (w : World T) : Type 0 where
  pub counts : Counts
  pub explains : Explains counts w.mem
  pub unwritten : counts.write ≡ 0
  pub writers : w.mem.writers_count ≡ 1
  pub active : IsActiveAt counts (home w reader_id) w
  pub named : (reader_id ≢ 0) × (key_at w.mem (home w reader_id) ≡ reader_id)
  pub only :
      (j : ℕ) → j < capacity w.mem.reader_gens → j ≢ home w reader_id → key_at w.mem j ≡ empty_key

abbrev pub IsOpened : {T : Type 0} → Outcome (ℕ × World T) → Type 0
IsOpened (returned (reader_id, w)) = Opened reader_id w
IsOpened panicked = ⊥
IsOpened spinning = ⊥

get_or-replicate_lt : {A : Type 0} (n i : ℕ) (a d : A) → i < n → get_or (replicate n a) i d ≡ a
get_or-replicate_lt zero i a d h = absurd (omega (arith, h))
get_or-replicate_lt (suc n) zero a d h = refl
get_or-replicate_lt (suc n) (suc i) a d h = get_or-replicate_lt n i a d (omega (arith, h))

abbrev nothing_yet : Counts
nothing_yet = record { write = 0; read = 0; last_valid = 0; free = 0; held = λ j. 0 }

module _ (k : ℕ) (small : k < 63) where
  abbrev map : SimpleLpHashMap
  map = with_capacity_and_init (2 ^ k) suspended_bit

  map-capacity : capacity map ≡ 2 ^ k
  unfolding with_capacity_and_init
  map-capacity = omega (arith, pow-le-pow_right {n = 2} (omega arith) {i = 0} {j = k} (omega arith))

  map-slot : (j : ℕ) → j < capacity map → slot_at map j ≡ new_slot suspended_bit
  unfolding with_capacity_and_init
  map-slot j h = get_or-replicate_lt (2 ^ k) j _ _ (omega (arith, h, map-capacity))

  map-IsSized : IsSized (capacity map)
  map-IsSized =
      let exponent : (63 - k) + k ≡ 63 = omega (arith, small) in
      let divides : 2 ^ k ∣ 2 ^ 63 = subst (λ e. 2 ^ k ∣ 2 ^ e) exponent (pow-dvd k (63 - k)) in
      record {
        divides = subst (λ n. n ∣ 2 ^ 63) (sym map-capacity) divides;
        small = omega (
          arith,
          map-capacity,
          pow-le-pow_right {n = 2} (omega arith) {i = k} {j = 62} (omega (arith, small)),
        );
      }

  module _ {T : Type 0} (buffer : List (Option T)) (room : length buffer ≤ 2 ^ 60) where
    abbrev start : AreaInner T
    start = record (fresh map buffer) { writers_count = 1 }

    start-Moment : Moment 0 nothing_yet (alone start)
    unfolding with_capacity_and_init
    start-Moment = record {
      counters = record {
        write = refl;
        read = refl;
        last_valid = refl;
        free = refl;
        freed = omega arith;
        valid = omega arith;
        readable = omega arith;
        room = omega arith;
        small = room;
        shape = length-replicate (2 ^ k) (new_slot suspended_bit) ∙ sym map-capacity;
      };
      readers = λ j h. record {
        value = ap (λ (s : Slot). clear_msb s.value) (map-slot j h);
        word = ground (arith, map-slot j h);
        kept = omega arith;
        seen = omega arith;
      };
      fits = omega arith;
      disciplined = λ i c a e b. (c, e, Later-refl, b);
    }

    opened :
        (o : Outcome (Result RegisterError ℕ × World T))
        → RegisteredAlone start o
        → Ensures (Kept 0 nothing_yet (alone start) (Registered (alone start))) o
        → IsOpened (elim o [
          | returned (registered, w2) ↦ elim registered [
            | ok reader_id ↦ returned (reader_id, w2)
            | err _ ↦ panicked
          ]
          | panicked ↦ panicked
          | spinning ↦ spinning
        ])
    opened (returned (err reader_capacity_reached, w)) x y =
        x.1 0 (omega arith) (ap (λ (s : Slot). s.key) (map-slot 0 (omega arith)))
    opened (returned (ok reader_id, w)) (idx, within, free, taken, others, rest) y =
        let same = home-same (alone start) w reader_id y.later.0.mask in
        let slot = home (alone start) reader_id in
        let here : slot ≡ idx = elim (Bool-cases (slot == idx)) [
          | inl at ↦ (==_iff slot idx).0 at
          | inr away ↦
              let kept =
                others slot (ground (arith, away))
                ∙ map-slot slot (home-lt (alone start) reader_id) in
              absurd (omega (arith, ap (λ (s : Slot). s.value) kept, y.result.0))
        ] in
        record {
          counts = y.after;
          explains = (y.moment.counters, y.moment.readers);
          unwritten = omega (arith, y.moment.fits.below);
          writers = ap (λ (a : AreaInner T). a.writers_count) rest;
          active = subst (λ i. IsActiveAt y.after i w) (sym same) y.result.0;
          named = (y.result.1, ap (key_at w.mem) (same ∙ here) ∙ ap (λ (s : Slot). s.key) taken);
          only = λ j h e.
              ap (λ (s : Slot). s.key)
                (others j (λ f. e (f ∙ sym (same ∙ here)))
                  ∙ map-slot j (omega (arith, h, y.later.0)));
        }
    opened panicked x y = x
    opened spinning x y = x

-- With a buffer of 1 to `2 ^ 60` cells and a reader map whose capacity is a power of two up to
-- `2 ^ 62`, each of less than `2 ^ 63` bytes, `area` returns. Its memory satisfies the invariant with no message reserved, one writer
-- is counted, and the reader is registered, active, and the only one.
pub area-IsOpened :
    (T : Type 0) (sizes : ElementSizes) (buffer_capacity k fuel : ℕ)
    → 0 < buffer_capacity
    → buffer_capacity ≤ 2 ^ 60
    → k < 63
    → IsAllocatable sizes buffer_capacity (2 ^ k)
    → IsOpened (area {T = T} sizes buffer_capacity (2 ^ k) (λ i a. a) (suc fuel))
unfolding area finish_init
area-IsOpened T sizes buffer_capacity k fuel some_cells room small fits =
    let buffer = replicate buffer_capacity none in
    let cells = length-replicate {A = Option T} buffer_capacity none in
    let room' : length buffer ≤ 2 ^ 60 = omega (arith, cells, room) in
    let a = start k small buffer room' in
    let m = start-Moment k small buffer room' in
    let x = register_reader_with_seed-RegisteredAlone fuel 1 a m.counters.shape in
    let y = register_reader_with_seed-Registered (suc fuel) 1 (alone a) m (map-IsSized k small) in
    rw (new-returned {T = T} sizes buffer_capacity k some_cells (omega (arith, small)) fits, area)
      (opened k small buffer room' (register_reader_with_seed (suc fuel) 1 (alone a)) x y)
