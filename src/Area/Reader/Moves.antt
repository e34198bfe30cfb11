-- ===== src/Area/Reader/Moves.antt =====
-- What a reader's operations share: finding the reader's slot, and one write of its generation.
use market_square.Base.{
  ℕ, ◌+◌, ◌%◌, ap, ◌^◌, ◌≤◌, ◌<◌, ◌≡◌, ◌≢◌, refl, sym, inl, inr, some, none, Option, ◌==◌,
  if◌then◌else◌, Bool-cases, arith,
}
use mathlib.Core.Path.{subst}
use native.Mathlib.Nat.{mod-lt}
use market_square.Arithmetics.{clear_msb}
use market_square.Arithmetics.Window.{generation_of}
use market_square.State.{World, tick}
use market_square.Map.{
  capacity, slot_at, key_bits, index_for, zero_offset, get_or_insert_concurrent, probe_from,
  probe_slot, load_key,
}
use market_square.Area.{with_value}
use market_square.Area.Invariant.{Counts, Later, Moment, Later-trans}
use market_square.Area.Slots.{move_held, with_value-Explains}
use market_square.Area.Reader.{get_reader_ptr_boilerplate}

-- The slot in which a lookup of `reader_id` looks.
abbrev pub home : {T : Type 0} → World T → ℕ → ℕ
home w reader_id = index_for w.mem.reader_gens reader_id zero_offset

pub home-same :
    {T : Type 0} (w v : World T) (reader_id : ℕ)
    → v.mem.reader_gens.mask ≡ w.mem.reader_gens.mask
    → home v reader_id ≡ home w reader_id
unfolding index_for
home-same w v reader_id e = ap (λ k. (reader_id + zero_offset) % 2 ^ 64 % (k + 1)) e

-- A call ends in a moment later than the counts `c` at which it began, with a result that `P`
-- describes.
pub record Kept {T A : Type 0} (limit : ℕ) (c : Counts) (w : World T)
    (P : Counts → World T → A → Type 0) (r : A × World T) : Type 0 where
  pub after : Counts
  pub moment : Moment limit after r.1
  pub later : Later c w.mem after r.1.mem
  pub result : P after r.1 r.0

pub Kept-mono :
    {T A : Type 0} {limit : ℕ} {c d : Counts} {w v : World T} {P : Counts → World T → A → Type 0}
    {r : A × World T}
    → Later c w.mem d v.mem
    → Kept limit d v P r
    → Kept limit c w P r
Kept-mono l k = record {
  after = k.after;
  moment = k.moment;
  later = Later-trans l k.later;
  result = k.result;
}

module _ {T : Type 0} (w : World T) (reader_id : ℕ) where
  pub get_reader_ptr_boilerplate-home : get_reader_ptr_boilerplate reader_id w ≡ (
    if key_bits (slot_at (tick w).mem.reader_gens (home w reader_id)).key == reader_id
        then some (home w reader_id)
        else none,
    tick w,
  )
  unfolding get_reader_ptr_boilerplate get_or_insert_concurrent probe_from probe_slot load_key
  get_reader_ptr_boilerplate-home =
      elim (Bool-cases
        (key_bits (slot_at (tick w).mem.reader_gens (home w reader_id)).key == reader_id)) [
          | inl e ↦
              rw (e, get_reader_ptr_boilerplate, get_or_insert_concurrent, probe_from, probe_slot)
                refl
          | inr e ↦
              rw (e, get_reader_ptr_boilerplate, get_or_insert_concurrent, probe_from, probe_slot)
                refl
        ]

  -- A lookup takes one access, and finds the home slot or nothing, which it does where it does not
  -- see the reader's key.
  pub looked_up_or_unseen :
      (Q : Option ℕ × World T → Type 0)
      → Q (some (home w reader_id), tick w)
      → (key_bits (slot_at (tick w).mem.reader_gens (home w reader_id)).key ≢ reader_id
          → Q (none, tick w))
      → Q (get_reader_ptr_boilerplate reader_id w)
  looked_up_or_unseen Q found absent =
      subst Q (sym get_reader_ptr_boilerplate-home)
        (elim (Bool-cases
          (key_bits (slot_at (tick w).mem.reader_gens (home w reader_id)).key == reader_id)) [
            | inl e ↦ rw e found
            | inr e ↦ rw e (absent (ground (arith, e)))
          ])

  -- The same, whatever the reason for finding nothing.
  pub looked_up :
      (Q : Option ℕ × World T → Type 0)
      → Q (some (home w reader_id), tick w)
      → Q (none, tick w)
      → Q (get_reader_ptr_boilerplate reader_id w)
  looked_up Q found absent = looked_up_or_unseen Q found (λ _. absent)

  pub home-lt : home w reader_id < capacity w.mem.reader_gens
  unfolding index_for
  home-lt = mod-lt _ (omega arith)

module _ {T : Type 0} {limit : ℕ} {c c' : Counts} (w : World T) (idx v h : ℕ) where
  -- Writing a generation of message `h`, no earlier than the one held, into slot `idx`.
  pub move_held-Moment :
      Moment limit c' (tick w)
      → Later c w.mem c' (tick w).mem
      → idx < capacity w.mem.reader_gens
      → c'.held idx ≤ h
      → h ≤ c'.read
      → v < 2 ^ 64
      → clear_msb v ≡ generation_of h
      → let w' = record (tick w) { mem = with_value (tick w).mem idx v } in
        Moment limit (move_held c' idx h) w' × Later c w.mem (move_held c' idx h) w'.mem
  move_held-Moment m later b up seen word value =
      let b' : idx < capacity (tick w).mem.reader_gens = omega (arith, b, later.0) in
      let x =
        with_value-Explains idx v h (m.counters, m.readers) b' (omega (arith, m.readers idx b', up))
          seen word value in
      (
        record {
          counters = x.0;
          readers = x.1;
          fits = record { below = m.fits.below; window = m.fits.window };
          disciplined = m.disciplined;
        },
        (omega (arith, later.0), λ j. ground (arith, later.1 j, up)),
      )
