-- ===== src/Area/Cleanup/Total.antt =====
-- A cleanup that no other thread disturbs returns, in either mode.
use mathlib.Core.Path.{subst}
use market_square.Base.{
  ℕ, suc, ◌+◌, ◌-◌, ◌≤◌, ◌<◌, ◌≡◌, refl, sym, ap, ap₂, ◌∙◌, inl, inr, Bool, Option, List, leb,
  if◌then◌else◌, Bool-cases, arith,
}
use market_square.Arithmetics.{gen_gte_msb_masked, gen_lte_msb_masked}
use market_square.Arithmetics.Window.{generation_of, comparisons-generation_of, gte-generation_of}
use market_square.State.{
  AreaInner, World, alone, Result, ok, err, Outcome, returned, panicked, spinning, Mode,
}
use market_square.Map.{capacity}
use market_square.Area.Invariant.{Counts, Explains}
use market_square.Area.Cleanup.{
  CleanupError, nothing_to_clean, CleanupResult, set_last_valid_gen, scan_from, advance_to,
  try_cleanup_old_slots,
}
use market_square.Area.Cleanup.Alone.{needed, needed-le, le-needed, Untouched, Scanned}
use market_square.Area.Cleanup.AloneAll.{scan_from-alone}
use market_square.Area.Cleanup.Ends.{
  emptied, buffer_after, claims_nothing, claims, clean_range-alone,
}

-- What an undisturbed cleanup of `a` does: it refuses where the active readers still need the first
-- valid message, and otherwise cleans up to the first message that they need.
abbrev pub CleanedAlone :
    {T : Type 0}
    → ℕ
    → ℕ
    → Counts
    → AreaInner T
    → Outcome (Result CleanupError CleanupResult × World T)
    → Type 0
CleanedAlone l new c a (returned (err nothing_to_clean, w)) = new ≡ l
CleanedAlone l new c a (returned (ok r, w)) =
    (l < new)
    × (r.old_last_valid ≡ generation_of l)
    × (r.new_last_valid ≡ generation_of new)
    × (r.slots_cleaned ≡ new - l)
    × (w.mem.last_valid_gen ≡ generation_of new)
    × (w.mem.free_gen ≡ generation_of new)
    × (w.mem.write_gen ≡ a.write_gen)
    × (w.mem.read_gen ≡ a.read_gen)
    × ((c' : Counts) × Explains c' w.mem × (c'.free ≡ new) × (c'.last_valid ≡ new))
CleanedAlone l new c a panicked = ⊥
CleanedAlone l new c a spinning = ⊥

-- What happens to the buffer: nothing, but for the drops of the cleaned messages.
abbrev pub BufferAfter :
    {T : Type 0}
    → Bool
    → ℕ
    → ℕ
    → AreaInner T
    → Outcome (Result CleanupError CleanupResult × World T)
    → Type 0
BufferAfter needs_drop l new a (returned (err nothing_to_clean, w)) = w.mem.buffer ≡ a.buffer
BufferAfter needs_drop l new a (returned (ok r, w)) =
    (w.mem.buffer ≡ buffer_after needs_drop l new a) × (w.mem.buffer_capacity ≡ a.buffer_capacity)
BufferAfter needs_drop l new a panicked = ⊥
BufferAfter needs_drop l new a spinning = ⊥

abbrev pub Does :
    {T : Type 0}
    → Bool
    → ℕ
    → ℕ
    → Counts
    → AreaInner T
    → Outcome (Result CleanupError CleanupResult × World T)
    → Type 0
Does needs_drop l new c a o = CleanedAlone l new c a o × BufferAfter needs_drop l new a o

cleaned-Explains :
    {T : Type 0} (c : Counts) (a : AreaInner T) (new : ℕ) (b : List (Option T))
    → Explains c a
    → c.last_valid ≤ new
    → new ≤ c.read
    → ((j : ℕ) → j < capacity a.reader_gens → new ≤ c.held j)
    → Explains
        (record c { free = new; last_valid = new })
        (record a { last_valid_gen = generation_of new; free_gen = generation_of new; buffer = b })
cleaned-Explains c a new b e lo hi past =
    (ground (arith, e.0, lo, hi), λ j k. ground (arith, e.1 j k, past j k))

advance_to-alone :
    {T : Type 0} (mode : Mode) (needs_drop : Bool) (fuel new : ℕ) (c : Counts) (a : AreaInner T)
    → Explains c a
    → c.free ≡ c.last_valid
    → c.last_valid ≤ new
    → new ≤ c.read
    → ((j : ℕ) → j < capacity a.reader_gens → new ≤ c.held j)
    → Does needs_drop c.last_valid new c a (
        advance_to mode needs_drop
          (suc fuel)
          (generation_of c.last_valid)
          (generation_of new)
          (alone a))
unfolding advance_to
advance_to-alone mode needs_drop fuel new c a e idle lo hi past =
    let compared : gen_lte_msb_masked (generation_of new) (generation_of c.last_valid)
        ≡ leb new c.last_valid =
      (comparisons-generation_of new c.last_valid (omega (arith, e.0, hi)) (omega (arith, lo))).1 in
    elim (Bool-cases (leb new c.last_valid)) [
      | inl none_left ↦
          let nothing = claims_nothing fuel c.last_valid new a mode (compared ∙ none_left) in
          rw (nothing, advance_to) (ground (arith, lo, none_left), refl)
      | inr some_left ↦
          let claimed = claims fuel c.last_valid new a mode (compared ∙ some_left) e.0.last_valid in
          let b =
            buffer_after needs_drop c.last_valid new (set_last_valid_gen (generation_of new) a) in
          let cleaned =
            clean_range-alone mode needs_drop fuel c.last_valid new
              (set_last_valid_gen (generation_of new) a) (e.0.free ∙ ap generation_of idle) lo
              (omega (arith, e.0, hi)) in
          rw (claimed, cleaned, advance_to)
            (
              (
                ground (arith, some_left),
                refl,
                refl,
                refl,
                refl,
                refl,
                refl,
                refl,
                (
                  record c { free = new; last_valid = new },
                  cleaned-Explains c a new b e lo hi past,
                  refl,
                  refl,
                ),
              ),
              (refl, refl),
            )
    ]

-- The outcome does not mention what a scan changes.
CleanedAlone-back :
    {T : Type 0} (l l' new : ℕ) (c d : Counts) (a b : AreaInner T)
    (o : Outcome (Result CleanupError CleanupResult × World T))
    → l ≡ l'
    → a.write_gen ≡ b.write_gen
    → a.read_gen ≡ b.read_gen
    → CleanedAlone l' new d b o
    → CleanedAlone l new c a o
CleanedAlone-back l l' new c d a b (returned (err nothing_to_clean, w)) e p q x = x ∙ sym e
CleanedAlone-back l l' new c d a b (returned (ok r, w)) e p q x = (
  omega (arith, e, x.0),
  x.1 ∙ ap generation_of (sym e),
  x.2,
  x.3 ∙ ap (λ n. new - n) (sym e),
  x.4,
  x.5,
  x.6 ∙ sym p,
  x.7 ∙ sym q,
  x.8,
)
CleanedAlone-back l l' new c d a b panicked e p q x = x
CleanedAlone-back l l' new c d a b spinning e p q x = x

BufferAfter-back :
    {T : Type 0} (needs_drop : Bool) (l l' new : ℕ) (a b : AreaInner T)
    (o : Outcome (Result CleanupError CleanupResult × World T))
    → l ≡ l'
    → b.buffer ≡ a.buffer
    → b.buffer_capacity ≡ a.buffer_capacity
    → BufferAfter needs_drop l' new b o
    → BufferAfter needs_drop l new a o
BufferAfter-back d l l' new a b (returned (err nothing_to_clean, w)) e p q x = x ∙ p
BufferAfter-back d l l' new a b (returned (ok r, w)) e p q x = (
  x.0
      ∙ (ap (λ k. buffer_after d k new b) (sym e)
          ∙ ap₂
              (λ cap buffer. if d then emptied cap (generation_of l) (new - l) 0 buffer else buffer)
              q p),
  x.1 ∙ q,
)
BufferAfter-back d l l' new a b panicked e p q x = x
BufferAfter-back d l l' new a b spinning e p q x = x

after_scan :
    {T : Type 0} (mode : Mode) (needs_drop : Bool) (fuel new end : ℕ) (c d : Counts)
    (a b : AreaInner T)
    → Explains c a
    → Explains d b
    → Untouched c a end d b
    → c.free ≡ c.last_valid
    → c.last_valid ≤ new
    → new ≤ c.read
    → ((j : ℕ) → j < capacity b.reader_gens → new ≤ d.held j)
    → Does needs_drop c.last_valid new c a
        (advance_to mode needs_drop (suc fuel) a.last_valid_gen (generation_of new) (alone b))
after_scan mode needs_drop fuel new end c d a b e x u idle lo hi past =
    let same : c.last_valid ≡ d.last_valid = omega (arith, u.counts) in
    let go = λ (g : ℕ). advance_to mode needs_drop (suc fuel) g (generation_of new) (alone b) in
    let does =
      advance_to-alone mode needs_drop fuel new d b x (omega (arith, idle, u.counts))
        (omega (arith, lo, same)) (omega (arith, hi, u.counts)) past in
    subst (λ g. Does needs_drop c.last_valid new c a (go g))
      (ap generation_of (sym same) ∙ sym e.0.last_valid)
      (
        CleanedAlone-back c.last_valid d.last_valid new c d a b (go (generation_of d.last_valid))
            same (e.0.write ∙ (ap generation_of (sym u.counts.0) ∙ sym x.0.write))
            (e.0.read ∙ (ap generation_of (sym u.counts.1) ∙ sym x.0.read)) does.0,
        BufferAfter-back needs_drop c.last_valid d.last_valid new a b
            (go (generation_of d.last_valid)) same u.buffer u.size.1 does.1,
      )

pub try_cleanup_old_slots-Does :
    {T : Type 0} (mode : Mode) (needs_drop : Bool) (fuel : ℕ) {c : Counts} {a : AreaInner T}
    → Explains c a
    → c.free ≡ c.last_valid
    → Does needs_drop c.last_valid
        (needed c a.reader_gens c.read (capacity a.reader_gens) 0)
        c
        a
        (try_cleanup_old_slots mode needs_drop (suc fuel) (alone a))
unfolding try_cleanup_old_slots
try_cleanup_old_slots-Does mode needs_drop fuel {c} {a} e idle =
    let size = capacity a.reader_gens in
    let new = needed c a.reader_gens c.read size 0 in
    let compared : gen_gte_msb_masked a.last_valid_gen a.read_gen ≡ leb c.read c.last_valid =
      ap₂ gen_gte_msb_masked e.0.last_valid e.0.read
      ∙ gte-generation_of c.last_valid c.read (omega (arith, e.0)) (omega (arith, e.0)) in
    let lo =
      le-needed c a.reader_gens c.read size 0 (omega (arith, e.0))
        (λ j h k. (e.1 j (omega (arith, k))).kept) in
    let hi = needed-le c a.reader_gens c.read size 0 in
    elim (Bool-cases (leb c.read c.last_valid)) [
      | inl none_left ↦
          rw (compared ∙ none_left, try_cleanup_old_slots) (ground (arith, lo, hi, none_left), refl)
      | inr some_left ↦
          let scan = scan_from (suc fuel) size 0 (generation_of c.read) (alone a) in
          let all : 0 + size ≡ size = omega arith in
          let y =
            subst (λ n. Scanned c a 0 n new scan) all
              (scan_from-alone fuel size e c.read 0 (omega arith) (omega (arith, e.0))
                (omega arith)) in
          let result = ap (λ g. scan_from (suc fuel) size 0 g (alone a)) e.0.read ∙ y.result in
          let x =
            after_scan mode needs_drop fuel new size c y.after a y.mem e y.explains y.untouched idle
              lo hi (λ j k. y.past j (omega arith) (omega (arith, k, y.untouched.size))) in
          rw (compared ∙ some_left, result, try_cleanup_old_slots) x
    ]

-- Without other threads, a cleanup in either mode returns after at most one round of each of its
-- retry loops. It refuses exactly where the active readers, or the publication count, still need
-- the first valid message; otherwise it cleans everything before the first message that they need,
-- moves both counters there and keeps the invariant.
pub try_cleanup_old_slots-CleanedAlone :
    {T : Type 0} (mode : Mode) (needs_drop : Bool) (fuel : ℕ) {c : Counts} {a : AreaInner T}
    → Explains c a
    → c.free ≡ c.last_valid
    → CleanedAlone c.last_valid
        (needed c a.reader_gens c.read (capacity a.reader_gens) 0)
        c
        a
        (try_cleanup_old_slots mode needs_drop (suc fuel) (alone a))
try_cleanup_old_slots-CleanedAlone mode needs_drop fuel e idle =
    (try_cleanup_old_slots-Does mode needs_drop fuel e idle).0
