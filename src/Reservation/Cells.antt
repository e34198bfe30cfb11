-- ===== src/Reservation/Cells.antt =====
-- src/area.rs: the cells that `Reservation::get_mut` and `ReadSlice::get` refer to.
use native.Mathlib.Nat.{mod-lt, mod-mod_of_dvd}
use market_square.Base.{
  ℕ, ◌+◌, ◌%◌, ◌<◌, ◌≡◌, ◌≢◌, refl, sym, ap, ap₂, ◌∙◌, inl, inr, Option, some, none, true, false,
  leb, ltb, if◌then◌else◌, length, get_or, Bool-cases, arith,
}
use mathlib.Core.Option.{some-injective}
use market_square.Arithmetics.{gen_add_msb_masked, gen_dist_msb_masked}
use market_square.Arithmetics.Window.{generation_of, add-generation_of, dist-generation_of}
use market_square.State.{AreaInner}
use market_square.Area.{slot_index, slot_cell}
use market_square.Area.Cells.{mod-apart}
use market_square.Reservation.{Reservation, len, get_mut}
use market_square.Reservation.Split.{Guards}
use market_square.ReadSlice
use market_square.ReadSlice.{ReadSlice, get}
use market_square.ReadSlice.Slices.{Spans}

-- The cell of message `x + i` of `n`, where there is one.
abbrev pub cell_of : {T : Type 0} → AreaInner T → ℕ → ℕ → ℕ → Option ℕ
cell_of a x n i = if ltb i n then some ((x + i) % a.buffer_capacity) else none

-- What the two accesses refer to at index `i`.
abbrev pub InCells : {T : Type 0} → AreaInner T → ℕ → ℕ → Reservation → ReadSlice → ℕ → Type 0
InCells a x n r s i =
    (get_mut r i a ≡ cell_of a x n i)
    × (get s i a
        ≡ (if ltb i n then some (get_or a.buffer ((x + i) % a.buffer_capacity) none) else none))
    × ((x + i) % a.buffer_capacity < length a.buffer)

module _ {T : Type 0} {a : AreaInner T} {x n : ℕ} (r : Reservation) (s : ReadSlice)
    (g : Guards x n r) (v : Spans a x n s) (i : ℕ) where
  masked :
      (start : ℕ)
      → start ≡ generation_of x
      → gen_add_msb_masked start i % a.buffer_capacity ≡ (x + i) % a.buffer_capacity
  masked start e =
      ap (λ k. k % a.buffer_capacity) (ap (λ k. gen_add_msb_masked k i) e ∙ add-generation_of x i)
      ∙ mod-mod_of_dvd a.buffer_capacity (x + i) v.divides

  written_cell : get_mut r i a ≡ cell_of a x n i
  unfolding get_mut slot_index
  written_cell = elim (Bool-cases (leb (len r) i)) [
    | inl past ↦
        let beyond : ltb i n ≡ false = ground (arith, past, g.counted) in
        rw (past, beyond, get_mut) refl
    | inr inside ↦
        let within : ltb i n ≡ true = ground (arith, inside, g.counted) in
        rw (inside, within, get_mut) (ap some (masked r.start_gen g.starts))
  ]

  slice_len : ReadSlice.len s ≡ n
  unfolding ReadSlice.len
  slice_len =
      ap₂ gen_dist_msb_masked v.ends v.starts
      ∙ (dist-generation_of (x + n) x (omega arith) (omega (arith, v)) ∙ omega arith)

  read_cell :
      get s i a
      ≡ (if ltb i n then some (get_or a.buffer ((x + i) % a.buffer_capacity) none) else none)
  unfolding get slot_cell slot_index
  read_cell = elim (Bool-cases (leb (ReadSlice.len s) i)) [
    | inl past ↦
        let beyond : ltb i n ≡ false = ground (arith, past, slice_len) in
        rw (past, beyond, get) refl
    | inr inside ↦
        let within : ltb i n ≡ true = ground (arith, inside, slice_len) in
        rw (inside, within, get)
          (ap (λ k. some (get_or a.buffer k none)) (masked s.start_gen v.starts))
  ]

-- For a reservation and a slice of the same `n` messages, no more than the buffer holds, in a ring
-- whose capacity divides `2 ^ 63`: at an index below `n`, `get_mut` refers to one cell inside the
-- buffer, and `get` reads that cell; from `n` on both refuse. Two different indices below `n` never
-- refer to one cell.
pub get_mut-InCells :
    {T : Type 0} {a : AreaInner T} {x n : ℕ} (r : Reservation) (s : ReadSlice)
    → Guards x n r
    → Spans a x n s
    → ((i : ℕ) → InCells a x n r s i) × ((i j : ℕ) → i < j → j < n → get_mut r i a ≢ get_mut r j a)
get_mut-InCells {T} {a} {x} {n} r s g v = (
  λ i. (
    written_cell r s g v i,
    read_cell r s g v i,
    omega (arith, v.whole, mod-lt (x + i) v.some_cells),
  ),
  λ i j h k e.
      let cap = a.buffer_capacity in
      let first : ltb i n ≡ true = ground (arith, h, k) in
      let second : ltb j n ≡ true = ground (arith, k) in
      let at = λ (l : ℕ) (within : ltb l n ≡ true).
        written_cell r s g v l ∙ ap (λ b. if b then some ((x + l) % cap) else none) within in
      mod-apart cap (x + i) (x + j) (omega (arith, h)) (omega (arith, k, v.inside))
        (some-injective ((x + i) % cap) ((x + j) % cap) (sym (at i first) ∙ (e ∙ at j second))),
)
