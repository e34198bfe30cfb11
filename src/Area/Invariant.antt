-- ===== src/Area/Invariant.antt =====
-- What every moment of a run of src/area.rs satisfies, in terms of unbounded message counts behind
-- the masked generations, and what a thread may rely on the other threads for.
use market_square.Base.{ℕ, suc, ◌+◌, ◌^◌, ◌≤◌, ◌<◌, ◌≡◌, length, arith}
use market_square.Arithmetics.{clear_msb}
use market_square.Arithmetics.Window.{generation_of}
use market_square.State.{
  SimpleLpHashMap, AreaInner, World, tick, Outcome, returned, panicked, spinning,
}
use market_square.Map.{capacity, slot_at}

-- How many messages were ever reserved, published, claimed by a cleanup and freed, and where each
-- slot of the reader map stands.
pub record Counts : Type 0 where
  pub write : ℕ
  pub read : ℕ
  pub last_valid : ℕ
  pub free : ℕ
  pub held : ℕ → ℕ

-- The four counters of the area stand for the counts, which are in order and within the buffer.
pub record Counters {T : Type 0} (c : Counts) (a : AreaInner T) : Type 0 where
  pub write : a.write_gen ≡ generation_of c.write
  pub read : a.read_gen ≡ generation_of c.read
  pub last_valid : a.last_valid_gen ≡ generation_of c.last_valid
  pub free : a.free_gen ≡ generation_of c.free
  pub freed : c.free ≤ c.last_valid
  pub valid : c.last_valid ≤ c.read
  pub readable : c.read ≤ c.write
  pub room : c.write ≤ c.free + a.buffer_capacity
  pub small : a.buffer_capacity ≤ 2 ^ 60
  pub shape : length a.reader_gens.slots ≡ capacity a.reader_gens

-- Slot `j` of the reader map, used or not, holds a message that is still valid.
pub record Holding (c : Counts) (m : SimpleLpHashMap) (j : ℕ) : Type 0 where
  pub value : clear_msb (slot_at m j).value ≡ generation_of (c.held j)
  pub word : (slot_at m j).value < 2 ^ 64
  pub kept : c.last_valid ≤ c.held j
  pub seen : c.held j ≤ c.read

abbrev pub Readers : Counts → SimpleLpHashMap → Type 0
Readers c m = (j : ℕ) → j < capacity m → Holding c m j

abbrev pub Explains : {T : Type 0} → Counts → AreaInner T → Type 0
Explains c a = Counters c a × Readers c a.reader_gens

-- No count falls, and the sizes stay.
pub record Grows {T : Type 0} (c : Counts) (a : AreaInner T) (c' : Counts) (a' : AreaInner T)
    : Type 0 where
  pub write : c.write ≤ c'.write
  pub read : c.read ≤ c'.read
  pub last_valid : c.last_valid ≤ c'.last_valid
  pub free : c.free ≤ c'.free
  pub buffer_capacity : a'.buffer_capacity ≡ a.buffer_capacity
  pub mask : a'.reader_gens.mask ≡ a.reader_gens.mask

abbrev pub HeldGrows : Counts → Counts → Type 0
HeldGrows c c' = (j : ℕ) → c.held j ≤ c'.held j

abbrev pub Later : {T : Type 0} → Counts → AreaInner T → Counts → AreaInner T → Type 0
Later c a c' a' = Grows c a c' a' × HeldGrows c c'

-- What the other threads keep between two accesses: the invariant, growing counts, and no more
-- than `limit` messages in all.
abbrev pub IsDisciplined : {T : Type 0} → ℕ → World T → Type 0
IsDisciplined limit w =
    (k : ℕ) (c : Counts) (a : _)
    → Explains c a
    → c.write ≤ limit
    → (c' : Counts) × Explains c' (w.others k a) × Later c a c' (w.others k a) × (c'.write ≤ limit)

-- One thread's standing assumptions during a call: fewer than `2 ^ 61` messages pass.
pub record Fits (limit : ℕ) (c : Counts) : Type 0 where
  pub below : c.write ≤ limit
  pub window : limit ≤ c.free + 2 ^ 61

-- A point in the middle of a call: the memory is explained, and the others are disciplined.
pub record Moment {T : Type 0} (limit : ℕ) (c : Counts) (w : World T) : Type 0 where
  pub counters : Counters c w.mem
  pub readers : Readers c w.mem.reader_gens
  pub fits : Fits limit c
  pub disciplined : IsDisciplined limit w

module _ {T : Type 0} {limit : ℕ} {c : Counts} {w : World T} where
  -- The next access happens at a moment that is later.
  pub tick-Moment :
      Moment limit c w → (c' : Counts) × Moment limit c' (tick w) × Later c w.mem c' (tick w).mem
  tick-Moment m =
      let (c', explains, later, below) =
        m.disciplined 0 c w.mem (m.counters, m.readers) m.fits.below in
      (
        c',
        record {
          counters = explains.0;
          readers = explains.1;
          fits = record { below = below; window = omega (arith, later.0.free, m.fits.window) };
          disciplined = λ k. m.disciplined (suc k);
        },
        later,
      )

pub Later-trans :
    {T : Type 0} {c d e : Counts} {a b x : AreaInner T}
    → Later c a d b
    → Later d b e x
    → Later c a e x
Later-trans p q = (omega arith, λ j. omega (arith, p.1 j, q.1 j))

pub Later-refl : {T : Type 0} {c : Counts} {a : AreaInner T} → Later c a c a
Later-refl = (omega arith, λ j. omega arith)

-- A call that may spin for want of fuel, but does not panic, and ensures `P` when it returns.
abbrev pub Ensures : {A : Type 0} → (A → Type 0) → Outcome A → Type 0
Ensures P (returned a) = P a
Ensures P panicked = ⊥
Ensures P spinning = Unit {0}

pub Ensures-mono :
    {A : Type 0} (P Q : A → Type 0) (o : Outcome A)
    → ((a : A) → P a → Q a)
    → Ensures P o
    → Ensures Q o
Ensures-mono P Q (returned a) h p = h a p
Ensures-mono P Q panicked h p = p
Ensures-mono P Q spinning h p = tt

pub Ensures-and :
    {A : Type 0} (P Q : A → Type 0) (o : Outcome A)
    → Ensures P o
    → Ensures Q o
    → Ensures (λ a. P a × Q a) o
Ensures-and P Q (returned a) p q = (p, q)
Ensures-and P Q panicked p q = p
Ensures-and P Q spinning p q = tt

pub Ensures-bind :
    {A B : Type 0} (P : A → Type 0) (Q : B → Type 0) (o : Outcome A) (f : A → Outcome B)
    → Ensures P o
    → ((a : A) → P a → Ensures Q (f a))
    → Ensures Q (elim o [ returned a ↦ f a | panicked ↦ panicked | spinning ↦ spinning ])
Ensures-bind P Q (returned a) f p h = h a p
Ensures-bind P Q panicked f p h = p
Ensures-bind P Q spinning f p h = tt
