-- ===== src/Area/Cleanup/Drops.antt =====
-- Which cells of the buffer a cleanup that no other thread disturbs drops.
use Prim.Native.Nat.{◌∣◌}
use native.Mathlib.Nat.{mod-lt, mod-mod_of_dvd}
use market_square.Base.{
  ℕ, zero, suc, ◌+◌, ◌-◌, ◌%◌, ◌^◌, ◌≤◌, ◌<◌, ◌≡◌, ◌≢◌, refl, sym, ap, ◌∙◌, inl, inr, Bool, true,
  false, ◌&&◌, Option, none, List, [], ◌∷◌, ◌==◌, ltb, if◌then◌else◌, get_or, set, length,
  length-set, get_or-set_self, get_or-set_ne, Bool-cases, ==_iff, arith,
}
use market_square.Arithmetics.{gen_add_msb_masked}
use market_square.Arithmetics.Window.{generation_of, add-generation_of}
use market_square.State.{
  AreaInner, World, alone, Result, ok, err, Outcome, returned, panicked, spinning, Mode,
}
use market_square.Map.{capacity}
use market_square.Area.Cells.{mod-apart}
use market_square.Area.Invariant.{Counts, Explains}
use market_square.Area.Cleanup.{
  CleanupError, nothing_to_clean, CleanupResult, try_cleanup_old_slots,
}
use market_square.Area.Cleanup.Alone.{needed, needed-le, le-needed}
use market_square.Area.Cleanup.Ends.{emptied}
use market_square.Area.Cleanup.Total.{BufferAfter, try_cleanup_old_slots-Does}

module _ {T : Type 0} where
  get_or-set-none :
      (xs : List (Option T)) (i j : ℕ)
      → get_or xs j none ≡ none
      → get_or (set xs i none) j none ≡ none
  get_or-set-none [] i j e = e
  get_or-set-none (x ∷ xs) zero zero e = refl
  get_or-set-none (x ∷ xs) zero (suc j) e = e
  get_or-set-none (x ∷ xs) (suc i) zero e = e
  get_or-set-none (x ∷ xs) (suc i) (suc j) e = get_or-set-none xs i j e

  -- An empty cell stays empty.
  emptied-none :
      (cap v n offset : ℕ) (b : List (Option T)) (j : ℕ)
      → get_or b j none ≡ none
      → get_or (emptied cap v n offset b) j none ≡ none
  unfolding emptied
  emptied-none cap v zero offset b j e = e
  emptied-none cap v (suc n) offset b j e =
      emptied-none cap v n (offset + 1) (set b (gen_add_msb_masked v offset % cap) none) j
        (get_or-set-none b (gen_add_msb_masked v offset % cap) j e)

-- The cell of a drop is that of its message.
cell :
    (cap l offset : ℕ)
    → cap ∣ 2 ^ 63
    → gen_add_msb_masked (generation_of l) offset % cap ≡ (l + offset) % cap
cell cap l offset divides =
    ap (λ k. k % cap) (add-generation_of l offset) ∙ mod-mod_of_dvd cap (l + offset) divides

module _ {T : Type 0} (cap l : ℕ) (positive : 0 < cap) (divides : cap ∣ 2 ^ 63) where
  emptied-kept :
      (n offset x : ℕ) (b : List (Option T))
      → l + offset + n ≤ x
      → x < l + offset + cap
      → get_or (emptied cap (generation_of l) n offset b) (x % cap) none ≡ get_or b (x % cap) none
  unfolding emptied
  emptied-kept zero offset x b h k = refl
  emptied-kept (suc n) offset x b h k =
      let i = gen_add_msb_masked (generation_of l) offset % cap in
      let away : i ≢ x % cap = λ e.
        mod-apart cap (l + offset) x (omega (arith, h)) k (sym (cell cap l offset divides) ∙ e) in
      emptied-kept n (offset + 1) x (set b i none) (omega (arith, h)) (omega (arith, k))
      ∙ get_or-set_ne b i (x % cap) none none away

  emptied-gone :
      (n offset x : ℕ) (b : List (Option T))
      → length b ≡ cap
      → l + offset ≤ x
      → x < l + offset + n
      → get_or (emptied cap (generation_of l) n offset b) (x % cap) none ≡ none
  unfolding emptied
  emptied-gone zero offset x b whole h k = absurd (omega (arith, h, k))
  emptied-gone (suc n) offset x b whole h k =
      let i = gen_add_msb_masked (generation_of l) offset % cap in
      elim (Bool-cases (x == l + offset)) [
        | inl here ↦
            let at : x % cap ≡ i =
              ap (λ y. y % cap) ((==_iff x (l + offset)).0 here)
              ∙ sym (cell cap l offset divides) in
            emptied-none cap (generation_of l) n (offset + 1) (set b i none) (x % cap) (
              ap (λ j. get_or (set b i none) j none) at
              ∙ get_or-set_self b i none none (
                  omega
                    (arith, whole, mod-lt (gen_add_msb_masked (generation_of l) offset) positive)))
        | inr later ↦
            emptied-gone n (offset + 1) x (set b i none) (length-set b i none ∙ whole)
              (ground (arith, later, h)) (omega (arith, k))
      ]

-- Of the messages that can be in the buffer, the cells of those before `new` are emptied, if there
-- is anything to drop; every other cell keeps its content.
abbrev pub Drops :
    {T : Type 0}
    → Bool
    → ℕ
    → ℕ
    → AreaInner T
    → Outcome (Result CleanupError CleanupResult × World T)
    → Type 0
Drops needs_drop l new a (returned (err nothing_to_clean, w)) = w.mem.buffer ≡ a.buffer
Drops needs_drop l new a (returned (ok r, w)) =
    (x : ℕ)
    → l ≤ x
    → x < l + a.buffer_capacity
    → get_or w.mem.buffer (x % a.buffer_capacity) none
      ≡ (if needs_drop && ltb x new then none else get_or a.buffer (x % a.buffer_capacity) none)
Drops needs_drop l new a panicked = ⊥
Drops needs_drop l new a spinning = ⊥

drops :
    {T : Type 0} (needs_drop : Bool) (l new : ℕ) (a : AreaInner T)
    (o : Outcome (Result CleanupError CleanupResult × World T))
    → 0 < a.buffer_capacity
    → a.buffer_capacity ∣ 2 ^ 63
    → length a.buffer ≡ a.buffer_capacity
    → l ≤ new
    → new ≤ l + a.buffer_capacity
    → BufferAfter needs_drop l new a o
    → Drops needs_drop l new a o
drops needs_drop l new a (returned (err nothing_to_clean, w)) p d whole lo hi e = e
drops true l new a (returned (ok r, w)) p d whole lo hi (e, size) = λ x h k.
    let cap = a.buffer_capacity in
    ap (λ b. get_or b (x % cap) none) e ∙ elim (Bool-cases (ltb x new)) [
      | inl old ↦ rw old (
          emptied-gone cap l p d (new - l) 0 x a.buffer whole (omega (arith, h))
            (ground (arith, old, lo)))
      | inr kept ↦ rw kept (
          emptied-kept cap l p d (new - l) 0 x a.buffer (ground (arith, kept, lo, h))
            (omega (arith, k)))
    ]
drops false l new a (returned (ok r, w)) p d whole lo hi (e, size) =
    λ x h k. ap (λ b. get_or b (x % a.buffer_capacity) none) e
drops needs_drop l new a panicked p d whole lo hi e = e
drops needs_drop l new a spinning p d whole lo hi e = e

-- In a ring whose capacity divides `2 ^ 63`, and without other threads: a cleanup in either mode
-- returns after at most one round of each of its retry loops. Where the messages need dropping, it
-- drops exactly those from the first valid message up to the first that an active reader still
-- needs, each in its own cell; the cells of all other messages that the buffer can hold, the unread
-- and the unpublished ones, keep their content. Where it refuses, the buffer is unchanged.
pub try_cleanup_old_slots-Drops :
    {T : Type 0} (mode : Mode) (needs_drop : Bool) (fuel : ℕ) {c : Counts} {a : AreaInner T}
    → Explains c a
    → c.free ≡ c.last_valid
    → 0 < a.buffer_capacity
    → a.buffer_capacity ∣ 2 ^ 63
    → length a.buffer ≡ a.buffer_capacity
    → Drops needs_drop c.last_valid
        (needed c a.reader_gens c.read (capacity a.reader_gens) 0)
        a
        (try_cleanup_old_slots mode needs_drop (suc fuel) (alone a))
try_cleanup_old_slots-Drops mode needs_drop fuel {c} {a} e idle p d whole =
    let size = capacity a.reader_gens in
    let lo =
      le-needed c a.reader_gens c.read size 0 (omega (arith, e.0))
        (λ j h k. (e.1 j (omega (arith, k))).kept) in
    let hi = needed-le c a.reader_gens c.read size 0 in
    drops needs_drop c.last_valid (needed c a.reader_gens c.read size 0) a
      (try_cleanup_old_slots mode needs_drop (suc fuel) (alone a)) p d whole lo
      (omega (arith, hi, e.0, idle)) (try_cleanup_old_slots-Does mode needs_drop fuel e idle).1
