-- ===== src/Area/Reader/Enter.antt =====
-- src/area.rs: `resume_reader` and `resume_reader_at`, among disciplined other threads.
use market_square.Base.{ℕ, ◌≤◌, ◌<◌, ◌≡◌, length, Bool, true, false, arith}
use market_square.Arithmetics.{is_suspended}
use market_square.Arithmetics.Window.{generation_of}
use market_square.State.{AreaInner, World, tick, Result, ok, err}
use market_square.Map.{capacity, slot_at}
use market_square.Area.{with_value}
use market_square.Area.Invariant.{Counts, Holding, Later, Moment}
use market_square.Area.Slots.{move_held, slot_at-with_value}
use market_square.Area.Reader.{ResumeError, generation_too_old}
use market_square.Area.Reader.Moves.{move_held-Moment}

-- Slot `idx` is active, at the message it holds.
abbrev pub IsActiveAt : {T : Type 0} → Counts → ℕ → World T → Type 0
IsActiveAt c idx w = (slot_at w.mem.reader_gens idx).value ≡ generation_of (c.held idx)

abbrev pub Resumed : {T : Type 0} → ℕ → Counts → World T → Result ResumeError Bool → Type 0
Resumed idx c w (ok _) = IsActiveAt c idx w
Resumed idx c w (err e) = e ≡ ResumeError.reader_not_found

abbrev pub ResumedAt : {T : Type 0} → ℕ → ℕ → Counts → World T → Result ResumeError Bool → Type 0
ResumedAt n idx c w (ok true) = IsActiveAt c idx w × (c.held idx ≡ n)
ResumedAt n idx c w (ok false) = IsActiveAt c idx w
ResumedAt n idx c w (err generation_too_old) = n < c.held idx
ResumedAt n idx c w (err ResumeError.reader_not_found) = Unit {0}

pub active-generation :
    {c : Counts} {m : _} {idx : ℕ}
    → Holding c m idx
    → is_suspended (slot_at m idx).value ≡ false
    → (slot_at m idx).value ≡ generation_of (c.held idx)
unfolding is_suspended
active-generation h e = ground (arith, h, e)

module _ {T : Type 0} (a : AreaInner T) (idx v : ℕ) where
  pub value-with_value :
      idx < capacity a.reader_gens
      → length a.reader_gens.slots ≡ capacity a.reader_gens
      → (slot_at (with_value a idx v).reader_gens idx).value ≡ v
  value-with_value b e = ground (arith, slot_at-with_value a idx v idx (omega (arith, b, e)))

module _ {T : Type 0} {limit : ℕ} {c c' : Counts} (w : World T) (idx v h : ℕ) where
  -- The write that makes slot `idx` active at message `h`.
  pub entered :
      Moment limit c' (tick w)
      → Later c w.mem c' (tick w).mem
      → idx < capacity w.mem.reader_gens
      → c'.held idx ≤ h
      → h ≤ c'.read
      → v ≡ generation_of h
      → let w' = record (tick w) { mem = with_value (tick w).mem idx v } in
        (after : Counts) × Moment limit after w'
        × Later c w.mem after w'.mem
        × IsActiveAt after idx w'
        × (after.held idx ≡ h)
  entered m later b up seen value =
      let moved =
        move_held-Moment w idx v h m later b up seen (omega (arith, value))
          (omega (arith, value)) in
      let written =
        value-with_value (tick w).mem idx v (omega (arith, b, later.0)) m.counters.shape in
      (move_held c' idx h, moved.0, moved.1, ground (arith, written, value), ground arith)
