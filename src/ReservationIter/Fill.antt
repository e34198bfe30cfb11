-- ===== src/ReservationIter/Fill.antt =====
-- src/iter.rs: writing the slots of a reservation in turn, and what a reader of the same range sees.
use Prim.Native.Nat.{◌∣◌}
use mathlib.Core.Path.{subst}
use native.Mathlib.Nat.{mod-lt, mod-mod_of_dvd}
use market_square.Base.{
  ℕ, suc, ◌+◌, ◌-◌, ◌%◌, ◌^◌, ◌≤◌, ◌<◌, ◌≡◌, ◌≢◌, refl, sym, ap, ap₂, ◌∙◌, Option, none, some, true,
  false, List, [], ◌∷◌, leb, length, length-set, get_or, set, get_or-set_self, get_or-set_ne, arith,
}
use market_square.Arithmetics.{gen_gte_msb_masked}
use market_square.Arithmetics.Window.{
  generation_of, dist-generation_of, add-generation_of, gte-generation_of,
}
use market_square.State.{AreaInner, World, alone, Outcome, returned, panicked, spinning}
use market_square.Area.{slot_index, write_slot}
use market_square.Area.Cells.{mod-apart}
use market_square.Reservation.{Reservation}
use market_square.Reservation.Split.{Guards}
use market_square.ReadSlice.{ReadSlice}
use market_square.ReadSlice.Slices.{Spans, iterate, ring, iterate-ring}
use market_square.ReservationIter.{
  ReservationIter, into_iter, next, remaining, size_hint, all_written, write, drop_slot,
}

module _ {T : Type 0} where
  -- A producer's loop over an iterator, with a value for each slot that it takes.
  abbrev pub fill : List T → ReservationIter → World T → Outcome (ReservationIter × World T)
  fill [] it w = returned (it, w)
  fill (v ∷ vs) it w = elim (next it).0 [
    | none ↦ returned ((next it).1, w)
    | some slot ↦ elim (write slot (next it).1 v w) [
      | returned (slot', it', w') ↦ elim (drop_slot slot') [
        | returned _ ↦ fill vs it' w'
        | panicked ↦ panicked
        | spinning ↦ spinning
      ]
      | panicked ↦ panicked
      | spinning ↦ spinning
    ]
  ]

  -- The buffer with the values from message `y` on.
  unfoldable pub filled : ℕ → ℕ → List T → List (Option T) → List (Option T)
  filled cap y [] b = b
  filled cap y (v ∷ vs) b = filled cap (suc y) vs (set b (generation_of y % cap) (some v))

  abbrev pub all_some : List T → List (Option T)
  all_some [] = []
  all_some (v ∷ vs) = some v ∷ all_some vs

-- The iterator over the messages from `x` on, `i` of which are written, out of `n`.
abbrev pub at : ℕ → ℕ → ℕ → ReservationIter
at x n i = record {
  start_gen = generation_of x;
  end_gen = generation_of (x + n);
  cursor = generation_of (x + i);
  written_count = i;
  total = n;
  published = false;
}

pub into_iter-at : (r : Reservation) (x n : ℕ) → Guards x n r → into_iter r ≡ at x n 0
unfolding into_iter
into_iter-at r x n g =
    let place : x ≡ x + 0 = omega arith in
    rw (g.counted, g.ends, g.starts, into_iter)
      (ap (λ (k : ℕ). record (at x n 0) { cursor = generation_of k }) place)

module _ (x n i : ℕ) (below : i < n) (small : n ≤ 2 ^ 60) where
  next-at : next (at x n i) ≡ (
    some (record { generation = generation_of (x + i); written = false }),
    record (at x n i) { cursor = generation_of (x + suc i) },
  )
  unfolding next
  next-at =
      let more : gen_gte_msb_masked (generation_of (x + i)) (generation_of (x + n))
          ≡ leb (x + n) (x + i) =
        gte-generation_of (x + i) (x + n) (omega (arith, below)) (omega (arith, small)) in
      let goes_on : leb (x + n) (x + i) ≡ false = ground (arith, below) in
      let place : (x + i) + 1 ≡ x + suc i = omega arith in
      let moved = add-generation_of (x + i) 1 ∙ ap generation_of place in
      rw (more ∙ goes_on, next)
        (ap
          (λ (g : ℕ). (
            some (record { generation = generation_of (x + i); written = false }),
            record (at x n i) { cursor = g },
          ))
          moved)

-- One round of the loop writes message `x + i`.
module _ {T : Type 0} (x n : ℕ) (small : n ≤ 2 ^ 60) where
  fill-step :
      (v : T) (vs : List T) (i : ℕ) (a : AreaInner T)
      → i < n
      → fill (v ∷ vs) (at x n i) (alone a)
        ≡ fill vs (at x n (suc i)) (
            alone (record a {
              buffer = set a.buffer (generation_of (x + i) % a.buffer_capacity) (some v);
            }))
  unfolding write drop_slot write_slot slot_index
  fill-step v vs i a below =
      let counted : (i + 1) % 2 ^ 64 ≡ suc i = omega (arith, below, small) in
      let a' = record a {
        buffer = set a.buffer (generation_of (x + i) % a.buffer_capacity) (some v);
      } in
      rw (next-at x n i below small, fill)
        (rw (next-at x n i below small) (
          ap (λ (k : ℕ). fill vs (record (at x n (suc i)) { written_count = k }) (alone a'))
            counted))

  pub fill-filled :
      (vs : List T) (i : ℕ) (a : AreaInner T)
      → i + length vs ≤ n
      → fill vs (at x n i) (alone a)
        ≡ returned (
          at x n (i + length vs),
          alone (record a { buffer = filled a.buffer_capacity (x + i) vs a.buffer }),
        )
  unfolding filled
  fill-filled [] i a h =
      let place : i ≡ i + 0 = omega arith in ap (λ k. returned (at x n k, alone a)) place
  fill-filled (v ∷ vs) i a h =
      let b = set a.buffer (generation_of (x + i) % a.buffer_capacity) (some v) in
      let place : x + suc i ≡ suc (x + i) = omega arith in
      let count : suc i + length vs ≡ i + suc (length vs) = omega arith in
      fill-step v vs i a (omega (arith, h))
      ∙ (fill-filled vs (suc i) (record a { buffer = b }) (omega (arith, h))
          ∙ ap₂
              (λ k y.
                returned (at x n k, alone (record a { buffer = filled a.buffer_capacity y vs b })))
              count place)

cell : (cap : ℕ) → cap ∣ 2 ^ 63 → (y : ℕ) → generation_of y % cap ≡ y % cap
cell cap divides y = mod-mod_of_dvd cap y divides

module _ {T : Type 0} (cap : ℕ) (positive : 0 < cap) (divides : cap ∣ 2 ^ 63) where
  -- Writing later messages leaves a cell alone, as long as they do not go around.
  pub filled-other :
      (vs : List T) (x y : ℕ) (b : List (Option T))
      → x < y
      → y + length vs ≤ x + cap
      → get_or (filled cap y vs b) (x % cap) none ≡ get_or b (x % cap) none
  unfolding filled
  filled-other [] x y b h k = refl
  filled-other (v ∷ vs) x y b h k =
      let apart : generation_of y % cap ≢ x % cap =
        λ e. mod-apart cap x y h (omega (arith, k)) (sym e ∙ cell cap divides y) in
      filled-other vs x (suc y) (set b (generation_of y % cap) (some v)) (omega (arith, h))
        (omega (arith, k))
      ∙ get_or-set_ne b (generation_of y % cap) (x % cap) (some v) none apart

  pub length-filled :
      (vs : List T) (y : ℕ) (b : List (Option T)) → length (filled cap y vs b) ≡ length b
  unfolding filled
  length-filled [] y b = refl
  length-filled (v ∷ vs) y b =
      length-filled vs (suc y) (set b (generation_of y % cap) (some v))
      ∙ length-set b (generation_of y % cap) (some v)

  pub ring-filled :
      (vs : List T) (y : ℕ) (b : List (Option T))
      → length vs ≤ cap
      → length b ≡ cap
      → ring none (filled cap y vs b) cap y (length vs) ≡ all_some vs
  unfolding filled ring
  ring-filled [] y b h k = refl
  ring-filled (v ∷ vs) y b h k =
      let b' = set b (generation_of y % cap) (some v) in
      let here =
        filled-other vs y (suc y) b' (omega arith) (omega (arith, h))
        ∙ (ap (λ j. get_or b' j none) (sym (cell cap divides y))
            ∙ get_or-set_self b (generation_of y % cap) (some v) none
                (omega (arith, k, mod-lt (generation_of y) positive))) in
      ap₂ ◌∷◌ here (
        ring-filled vs (suc y) b' (omega (arith, h))
          (length-set b (generation_of y % cap) (some v) ∙ k))

-- What the values are worth to a reader: the iterator is exhausted and may be published, and a
-- slice of the same messages yields them.
abbrev pub RoundTrip :
    {T : Type 0} → List T → ReadSlice → AreaInner T → Outcome (ReservationIter × World T) → Type 0
RoundTrip vs s a (returned (it, w)) =
    (all_written it ≡ true)
    × ((next it).0 ≡ none)
    × (size_hint it ≡ (0, some 0))
    × (iterate (suc (length vs)) s 0 w.mem ≡ all_some vs)
    × (w.mem ≡ record a { buffer = w.mem.buffer })
RoundTrip vs s a panicked = ⊥
RoundTrip vs s a spinning = ⊥

-- For a reservation and a slice of the same messages, no more than the buffer holds, in a buffer
-- whose capacity is a power of two: writing one value to each slot that the iterator yields, in
-- turn, exhausts it and never panics, changes nothing but the buffer, and leaves the slice's
-- iterator yielding exactly these values, in this order.
pub fill-RoundTrip :
    {T : Type 0} (x : ℕ) (vs : List T) (r : Reservation) (s : ReadSlice) (a : AreaInner T)
    → Guards x (length vs) r
    → Spans a x (length vs) s
    → RoundTrip vs s a (fill vs (into_iter r) (alone a))
unfolding next remaining size_hint
fill-RoundTrip x vs r s a g v =
    let n = length vs in
    let small : n ≤ 2 ^ 60 = omega (arith, v) in
    let cap = a.buffer_capacity in
    let b = filled cap (x + 0) vs a.buffer in
    let ran =
      ap (λ it. fill vs it (alone a)) (into_iter-at r x n g)
      ∙ fill-filled x n small vs 0 a (omega arith) in
    let done : gen_gte_msb_masked (generation_of (x + n)) (generation_of (x + n)) ≡ true =
      gte-generation_of (x + n) (x + n) (omega arith) (omega arith) ∙ ground arith in
    let a' = record a { buffer = b } in
    let whole = length-filled cap v.some_cells v.divides vs (x + 0) a.buffer ∙ v.whole in
    let v' : Spans a' x n s = record {
      starts = v.starts;
      ends = v.ends;
      inside = v.inside;
      some_cells = v.some_cells;
      small = v.small;
      divides = v.divides;
      whole = whole;
    } in
    let all : n - 0 ≡ n = omega arith in
    let counted : 0 + n ≡ n = omega arith in
    subst (RoundTrip vs s a) (sym (ran ∙ ap (λ k. returned (at x n k, alone a')) counted)) (
      ground arith,
      rw done refl,
      ap (λ (k : ℕ). (k, some k))
          (dist-generation_of (x + n) (x + n) (omega arith) (omega arith) ∙ omega arith),
      iterate-ring v' (suc n) 0 (omega arith) (omega arith)
          ∙ (ap (λ k. ring none b cap (x + 0) k) all
              ∙ ring-filled cap v.some_cells v.divides vs (x + 0) a.buffer v.inside v.whole),
      refl,
    )
