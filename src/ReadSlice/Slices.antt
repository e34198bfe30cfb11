-- ===== src/ReadSlice/Slices.antt =====
-- src/area.rs: `as_slices` against the iterator of a slice.
use Prim.Native.Nat.{◌∣◌}
use native.Mathlib.Nat.{mod-mod_of_dvd, mod-add-mod, mod-eq_of_lt, mod-lt, mod_self}
use mathlib.Core.List.{append-nil}
use market_square.Base.{
  ℕ, zero, suc, ◌+◌, ◌-◌, ◌%◌, ◌^◌, ◌≤◌, ◌<◌, ◌≡◌, refl, sym, ap, ap₂, ◌∙◌, inl, inr, Option, none,
  some, List, [], ◌∷◌, ◌++◌, leb, Bool-cases, length, get_or, take, drop, arith,
}
use market_square.Arithmetics.{
  gen_dist_msb_masked, gen_gte_msb_masked, gen_add_msb_masked, wrapping_sub,
}
use market_square.Arithmetics.Window.{
  generation_of, dist-generation_of, add-generation_of, gte-generation_of,
}
use market_square.State.{AreaInner}
use market_square.Area.{slot_index, slot_cell}
use market_square.ReadSlice.{ReadSlice, len, is_empty, get, iter_next, iter_size_hint, as_slices}

module _ {A : Type 0} (d : A) where
  -- The cells of a list from `from` on, and those of a ring.
  cells : List A → ℕ → ℕ → List A
  cells xs from zero = []
  cells xs from (suc k) = get_or xs from d ∷ cells xs (suc from) k

  cells-cons : (x : A) (xs : List A) (from k : ℕ) → cells (x ∷ xs) (suc from) k ≡ cells xs from k
  unfolding cells
  cells-cons x xs from zero = refl
  cells-cons x xs from (suc k) = ap (λ r. get_or xs from d ∷ r) (cells-cons x xs (suc from) k)

  take-drop :
      (xs : List A) (from k : ℕ) → from + k ≤ length xs → take k (drop from xs) ≡ cells xs from k
  unfolding cells
  take-drop [] zero zero h = refl
  take-drop [] zero (suc k) h = absurd (omega arith)
  take-drop [] (suc from) zero h = refl
  take-drop [] (suc from) (suc k) h = absurd (omega arith)
  take-drop (x ∷ xs) zero zero h = refl
  take-drop (x ∷ xs) zero (suc k) h =
      ap (λ r. x ∷ r) (take-drop xs zero k (omega (arith, h)) ∙ sym (cells-cons x xs zero k))
  take-drop (x ∷ xs) (suc from) k h =
      take-drop xs from k (omega (arith, h)) ∙ sym (cells-cons x xs from k)

  unfoldable pub ring : List A → ℕ → ℕ → ℕ → List A
  ring xs cap j zero = []
  ring xs cap j (suc k) = get_or xs (j % cap) d ∷ ring xs cap (suc j) k

  pub ring-append :
      (xs : List A) (cap j k l : ℕ)
      → ring xs cap j (k + l) ≡ ring xs cap j k ++ ring xs cap (j + k) l
  unfolding ring
  ring-append xs cap j zero l =
      let count : 0 + l ≡ l = omega arith in
      let place : j ≡ j + 0 = omega arith in ap₂ (λ u v. ring xs cap u v) place count
  ring-append xs cap j (suc k) l =
      let count : suc k + l ≡ suc (k + l) = omega arith in
      let place : suc j + k ≡ j + suc k = omega arith in
      ap (λ v. ring xs cap j v) count
      ∙ ap (λ r. get_or xs (j % cap) d ∷ r)
          (ring-append xs cap (suc j) k l
            ∙ ap (λ u. ring xs cap (suc j) k ++ ring xs cap u l) place)

  length-ring : (xs : List A) (cap j k : ℕ) → length (ring xs cap j k) ≡ k
  unfolding ring
  length-ring xs cap j zero = refl
  length-ring xs cap j (suc k) = ap suc (length-ring xs cap (suc j) k)

  -- A part of the ring that does not wrap is contiguous.
  ring-cells :
      (xs : List A) (cap j k : ℕ)
      → 0 < cap
      → j % cap + k ≤ cap
      → ring xs cap j k ≡ cells xs (j % cap) k
  unfolding ring cells
  ring-cells xs cap j zero p h = refl
  ring-cells xs cap j (suc zero) p h = refl
  ring-cells xs cap j (suc (suc k)) p h =
      let next : suc j % cap ≡ suc (j % cap) =
        ap (λ y. y % cap) (omega arith)
        ∙ (sym (mod-add-mod j cap 1)
            ∙ (mod-eq_of_lt {n = j % cap + 1} {m = cap} (omega (arith, h)) ∙ omega arith)) in
      ap (λ r. get_or xs (j % cap) d ∷ r)
        (ring-cells xs cap (suc j) (suc k) p (omega (arith, next, h))
          ∙ ap (λ i. cells xs i (suc k)) next)

module _ {T : Type 0} where
  -- What a loop over the slice's iterator yields, with the rounds left.
  abbrev pub iterate : ℕ → ReadSlice → ℕ → AreaInner T → List (Option T)
  iterate zero s current a = []
  iterate (suc fuel) s current a = elim (iter_next s current a) [
    | none ↦ []
    | some (item, next) ↦ item ∷ iterate fuel s next a
  ]

-- The slice stands for the `n` messages from `x` on, in a ring whose capacity is a power of two.
pub record Spans {T : Type 0} (a : AreaInner T) (x n : ℕ) (s : ReadSlice) : Type 0 where
  pub starts : s.start_gen ≡ generation_of x
  pub ends : s.end_gen ≡ generation_of (x + n)
  pub inside : n ≤ a.buffer_capacity
  pub some_cells : 0 < a.buffer_capacity
  pub small : a.buffer_capacity ≤ 2 ^ 60
  pub divides : a.buffer_capacity ∣ 2 ^ 63
  pub whole : length a.buffer ≡ a.buffer_capacity

module _ {T : Type 0} {a : AreaInner T} {x n : ℕ} {s : ReadSlice} (v : Spans a x n s) where
  abbrev cap : ℕ
  cap = a.buffer_capacity

  abbrev around : ℕ → ℕ → List (Option T)
  around = ring none a.buffer cap

  count : gen_dist_msb_masked s.end_gen s.start_gen ≡ n
  count =
      ap₂ gen_dist_msb_masked v.ends v.starts
      ∙ (dist-generation_of (x + n) x (omega arith) (omega (arith, v)) ∙ omega arith)

  len-eq : len s ≡ n
  unfolding len
  len-eq = count

  at :
      (i : ℕ)
      → slot_cell a (gen_add_msb_masked s.start_gen i) ≡ get_or a.buffer ((x + i) % cap) none
  unfolding slot_cell slot_index
  at i =
      ap (λ g. get_or a.buffer (g % cap) none)
        (ap (λ g. gen_add_msb_masked g i) v.starts ∙ add-generation_of x i)
      ∙ ap (λ k. get_or a.buffer k none) (mod-mod_of_dvd cap (x + i) v.divides)

  start_index : s.start_gen % cap ≡ x % cap
  start_index = ap (λ g. g % cap) v.starts ∙ mod-mod_of_dvd cap x v.divides

  pub iterate-ring :
      (fuel i : ℕ) → i ≤ n → n < fuel + i → iterate fuel s i a ≡ around (x + i) (n - i)
  unfolding iter_next get ring
  iterate-ring zero i h k = absurd (omega (arith, h, k))
  iterate-ring (suc fuel) i h k = elim (Bool-cases (leb (len s) i)) [
    | inl over ↦
        let none_left : 0 ≡ n - i = ground (arith, over, len-eq) in
        rw (over, iterate) (ap (λ k. around (x + i) k) none_left)
    | inr more ↦
        let below : i < n = ground (arith, more, len-eq) in
        let left : suc (n - (i + 1)) ≡ n - i = omega (arith, below) in
        let place : x + (i + 1) ≡ suc (x + i) = omega arith in
        rw (more, at i, iterate)
          (ap (λ r. get_or a.buffer ((x + i) % cap) none ∷ r)
              (iterate-ring fuel (i + 1) (omega (arith, below)) (omega (arith, k))
                ∙ ap (λ u. around u (n - (i + 1))) place)
            ∙ ap (λ k. around (x + i) k) left)
  ]

  -- The two slices are the two parts of the ring.
  as_slices-ring : (as_slices s a).0 ++ (as_slices s a).1 ≡ around x n
  unfolding as_slices is_empty ring
  as_slices-ring =
      let empty : gen_gte_msb_masked s.start_gen s.end_gen ≡ leb (x + n) x =
        ap₂ gen_gte_msb_masked v.starts v.ends
        ∙ gte-generation_of x (x + n) (omega arith) (omega (arith, v)) in
      let low : x % cap < cap = mod-lt x v.some_cells in
      let first = cap - x % cap in
      elim (Bool-cases (leb (x + n) x)) [
        | inl nothing ↦
            let none_left : 0 ≡ n = ground (arith, nothing) in
            rw (empty, nothing) (ap (λ k. around x k) none_left)
        | inr something ↦ elim (Bool-cases (leb (x % cap + n) cap)) [
          | inl fits ↦
              let inside : x % cap + n ≤ cap = ground (arith, fits) in
              rw (empty, something, start_index, count, fits)
                (append-nil _
                  ∙ (take-drop none a.buffer (x % cap) n (omega (arith, inside, v.whole))
                      ∙ sym (ring-cells none a.buffer cap x n v.some_cells inside)))
          | inr wraps ↦
              let beyond : cap < x % cap + n = ground (arith, wraps) in
              let home : (x + first) % cap ≡ 0 =
                sym (mod-add-mod x cap first)
                ∙ (ap (λ k. k % cap) (omega (arith, low)) ∙ mod_self cap) in
              let all : first + (n - first) ≡ n = omega (arith, beyond, low) in
              rw (empty, something, start_index, count, wraps)
                (ap₂ ◌++◌
                    (take-drop none a.buffer (x % cap) first (omega (arith, low, v.whole))
                      ∙ sym
                          (ring-cells none a.buffer cap x first v.some_cells (omega (arith, low))))
                    (take-drop none a.buffer 0 (n - first) (omega (arith, v))
                      ∙ sym (
                          ring-cells none a.buffer cap (x + first) (n - first) v.some_cells
                            (omega (arith, home, v))
                          ∙ ap (λ k. cells none a.buffer k (n - first)) home))
                  ∙ (sym (ring-append none a.buffer cap x first (n - first))
                      ∙ ap (λ k. around x k) all))
        ]
      ]

-- For a slice of messages that the buffer holds, with a capacity that is a power of two: the two
-- slices of `as_slices`, one after the other, are what the slice's iterator yields, in its order,
-- when a loop over it has more rounds than there are messages. At every position, the size hint is
-- the number of messages that the iterator still yields.
pub iterate-as_slices :
    {T : Type 0} {a : AreaInner T} {x n : ℕ} {s : ReadSlice} (fuel : ℕ)
    → Spans a x n s
    → n < fuel
    → (iterate fuel s 0 a ≡ (as_slices s a).0 ++ (as_slices s a).1)
      × ((i : ℕ)
          → i ≤ n
          → iter_size_hint s i ≡ (length (iterate fuel s i a), some (length (iterate fuel s i a))))
unfolding iter_size_hint
iterate-as_slices {a} {x} {n} {s} fuel v h =
    let place : x + 0 ≡ x = omega arith in
    let all : n - 0 ≡ n = omega arith in
    (
      iterate-ring v fuel 0 (omega arith) (omega (arith, h))
          ∙ (ap₂ (λ u k. ring none a.buffer a.buffer_capacity u k) place all
              ∙ sym (as_slices-ring v)),
      λ i k.
          let left : wrapping_sub (len s) i ≡ n - i =
            ap (λ l. wrapping_sub l i) (len-eq v) ∙ omega (arith, v, k) in
          let yielded : length (iterate fuel s i a) ≡ n - i =
            ap length (iterate-ring v fuel i k (omega (arith, h)))
            ∙ length-ring none a.buffer a.buffer_capacity (x + i) (n - i) in
          ap (λ l. (l, some l)) (left ∙ sym yielded),
    )
