-- ===== src/Storage/Teardown.antt =====
-- src/storage.rs and src/area.rs: the allocations of an area are freed once each.
use market_square.Base.{
  ℕ, zero, suc, ◌≤◌, ◌≡◌, refl, Option, none, some, List, [], ◌∷◌, length, ==_iff, arith,
}
use market_square.Map.{new_slot}
use market_square.Area.{suspended_bit}
use market_square.Storage.{
  FixedStorage, boxed_storage, boxed_slice_storage, Heap, allocate, push_all,
  with_capacity_and_init, slice, released, drop_box, deallocate, plain, Allocations, Element,
  counter, slot, cell, inner, drop_inner, new_inner, free_counters, free_area,
}

module _ {A : Type 0} where
  -- Dropping a box whose elements are live.
  drop_box-live :
      (drop : List A → Heap A → Option (Heap A)) (ptr : ℕ) (xs : List A) (n : ℕ) (h h' : Heap A)
      → h.block ptr ≡ some xs
      → length xs ≡ n
      → drop xs h ≡ some h'
      → drop_box drop ptr n h ≡ some (released ptr h')
  unfolding drop_box
  drop_box-live drop ptr xs n h h' live size e =
      let same = (==_iff (length xs) n).1 size in rw (live, e, same, drop_box) refl

-- No allocation has an address from `next` on.
abbrev pub IsFresh : {A : Type 0} → Heap A → Type 0
IsFresh h = (p : ℕ) → h.next ≤ p → h.block p ≡ none

-- The six allocations of an area, in a row, and their release.
module _ {T : Type 0} (h : Heap (Element T)) (buffer c0 c1 c2 slots : List (Element T)) where
  abbrev at : ℕ → ℕ
  at zero = h.next
  at (suc k) = suc (at k)

  abbrev held : Allocations
  held = record {
    reader_gens = boxed_slice_storage (at 4) (length slots);
    buffer = boxed_slice_storage (at 0) (length buffer);
    destroy_stages = boxed_storage (at 1);
    reader_keep_alloc_tickets = boxed_storage (at 2);
    reader_stage_tickets = boxed_storage (at 3);
  }

  abbrev b1 : Heap (Element T)
  b1 = (allocate c0 (allocate buffer h).1).1

  abbrev full : Heap (Element T)
  full = (allocate (inner held ∷ []) (allocate slots (allocate c2 (allocate c1 b1).1).1).1).1

  abbrev no_counters : Heap (Element T)
  no_counters = released (at 3) (released (at 2) (released (at 1) full))

  abbrev no_buffer : Heap (Element T)
  no_buffer = released (at 0) no_counters

  abbrev empty_again : Heap (Element T)
  empty_again = released (at 5) (released (at 4) no_buffer)

  counters-freed :
      length c0 ≡ 1 → length c1 ≡ 1 → length c2 ≡ 1 → free_counters held full ≡ some no_counters
  unfolding free_counters deallocate
  counters-freed s0 s1 s2 =
      let first = drop_box-live plain (at 1) c0 1 full full (ground arith) s0 refl in
      let f1 = released (at 1) full in
      let second = drop_box-live plain (at 2) c1 1 f1 f1 (ground arith) s1 refl in
      let f2 = released (at 2) f1 in
      let third = drop_box-live plain (at 3) c2 1 f2 f2 (ground arith) s2 refl in
      rw (first, free_counters) (rw (second) third)

  area-freed :
      length c0 ≡ 1
      → length c1 ≡ 1
      → length c2 ≡ 1
      → free_area (boxed_storage (at 5)) full ≡ some empty_again
  unfolding free_area deallocate slice drop_inner
  area-freed s0 s1 s2 =
      let here : full.block (at 5) ≡ some (inner held ∷ []) = ground arith in
      let third =
        drop_box-live plain (at 0) buffer (length buffer) no_counters no_counters (ground arith)
          refl refl in
      let fourth =
        drop_box-live plain (at 4) slots (length slots) no_buffer no_buffer (ground arith) refl
          refl in
      let f4 = released (at 4) no_buffer in
      let fifth =
        drop_box-live drop_inner (at 5) (inner held ∷ []) 1 no_buffer f4 (ground arith) refl
          fourth in
      rw (here, counters-freed s0 s1 s2, third, free_area) fifth

  as_before : IsFresh h → (p : ℕ) → empty_again.block p ≡ h.block p
  as_before f p = ground (arith, f p)

  twice : free_area (boxed_storage (at 5)) empty_again ≡ none
  unfolding free_area slice
  twice = let gone : empty_again.block (at 5) ≡ none = ground arith in rw (gone, free_area) refl

-- The result of freeing an area that was created on heap `h` and stands on heap `h1`.
pub record TornDown {T : Type 0} (h : Heap (Element T)) (area : FixedStorage)
    (h1 : Heap (Element T)) : Type 0 where
  pub after : Heap (Element T)
  pub frees : free_area area h1 ≡ some after
  pub as_before : (p : ℕ) → after.block p ≡ h.block p
  pub not_again : free_area area after ≡ none

-- Freeing the allocations of a new area, as the last handle does, is well defined: each of the six
-- is live and of the size it is freed with. It leaves the heap's other allocations as they were
-- before the area was created, and none of the area's own. Freeing the area again is undefined.
pub free_area-TornDown :
    {T : Type 0} (buffer_capacity reader_capacity : ℕ) (h : Heap (Element T))
    → IsFresh h
    → let (area, h1) = new_inner buffer_capacity reader_capacity h in TornDown h area h1
unfolding new_inner with_capacity_and_init
free_area-TornDown buffer_capacity reader_capacity h f =
    let buffer = (push_all buffer_capacity (λ (u : Unit {0}). (cell none, u)) tt).0 in
    let slots =
      (push_all reader_capacity (λ (u : Unit {0}). (slot (new_slot suspended_bit), u)) tt).0 in
    let c0 = counter 2 ∷ [] in
    let c1 = counter 0 ∷ [] in
    record {
      after = empty_again h buffer c0 c1 c1 slots;
      frees = area-freed h buffer c0 c1 c1 slots refl refl refl;
      as_before = as_before h buffer c0 c1 c1 slots f;
      not_again = twice h buffer c0 c1 c1 slots;
    }
